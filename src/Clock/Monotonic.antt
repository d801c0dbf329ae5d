-- ===== src/Clock/Monotonic.antt =====
-- The extender follows the true time of the counter, whatever the number of rollovers.
use pypilot_event_loop.Prelude.{
  ℕ, ◌+◌, ◌-◌, ◌%◌, ◌^◌, ◌≤◌, ◌<◌, ◌≡◌, refl, ap₂, true, List, [], ◌∷◌, map, arith,
}
use pypilot_event_loop.Clock.{Micros32Extender, fresh, update, sample}

-- The 32-bit counter at true time `t`.
abbrev pub raw : ℕ → ℕ
raw t = t % 2 ^ 32

-- Each sample is taken less than one rollover after the one before it, and within 64 bits.
abbrev pub Sampled : ℕ → List ℕ → Type 0
Sampled t [] = Unit {0}
Sampled t (u ∷ us) = (t ≤ u) × (u < t + 2 ^ 32) × (u < 2 ^ 64) × Sampled u us

-- The extender has seen true time `t`, and counts from `base`.
pub record Tracks (base t : ℕ) (e : Micros32Extender) : Type 0 where
  pub started : e.initialized ≡ true
  pub last : e.last_raw_us ≡ raw t
  pub extended : e.extended_us + base ≡ t

update-Tracks :
    (base t u : ℕ) (e : Micros32Extender)
    → Tracks base t e
    → t ≤ u
    → u < t + 2 ^ 32
    → u < 2 ^ 64
    → ((update e (raw u)).0 ≡ u - base) × Tracks base u (update e (raw u)).1
unfolding update
update-Tracks base t u e v h k w = ground arith

sample_from :
    (base t : ℕ) (us : List ℕ) (e : Micros32Extender)
    → Tracks base t e
    → Sampled t us
    → sample e (map raw us) ≡ map (λ u. u - base) us
unfolding sample
sample_from base t [] e v h = refl
sample_from base t (u ∷ us) e v h =
    let step = update-Tracks base t u e v h.0 h.1 h.2 in
    ap₂ ◌∷◌ step.0 (sample_from base u us _ step.1 h.3)

-- A fresh extender that is sampled at least once per rollover returns the true time, less the
-- whole rollovers before its first sample: the results keep every difference exactly.
pub sample_exact :
    (t : ℕ) (us : List ℕ)
    → t < 2 ^ 64
    → Sampled t us
    → sample fresh (map raw (t ∷ us)) ≡ map (λ u. u - (t - raw t)) (t ∷ us)
unfolding sample update
sample_exact t us w h = ap₂ ◌∷◌ (omega arith) (
    sample_from (t - raw t) t us _ (record { started = refl; last = refl; extended = omega arith })
      h)
