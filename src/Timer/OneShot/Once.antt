-- ===== src/Timer/OneShot/Once.antt =====
-- A one-shot fires at the first poll that reaches its due time, and at no other.
use pypilot_event_loop.Prelude.{
  ℕ, Bool, true, false, ◌≡◌, refl, inl, inr, List, [], ◌∷◌, ltb, if◌then◌else◌, Bool-cases, arith,
  ap,
}
use pypilot_event_loop.Timer.OneShot.{OneShotTimer, arm, disarm, ready, polls}

abbrev pub all_false : List ℕ → List Bool
all_false [] = []
all_false (now ∷ nows) = false ∷ all_false nows

-- True at the first time that has reached `due`.
abbrev pub first_from : ℕ → List ℕ → List Bool
first_from due [] = []
first_from due (now ∷ nows) =
    if ltb now due then false ∷ first_from due nows else true ∷ all_false nows

abbrev pub reached : ℕ → List ℕ → Bool
reached due [] = false
reached due (now ∷ nows) = if ltb now due then reached due nows else true

-- A timer that is not armed never fires, and does not change.
polls_idle :
    (t : OneShotTimer) (nows : List ℕ) → t.armed ≡ false → polls t nows ≡ (all_false nows, t)
unfolding polls ready
polls_idle t [] a = refl
polls_idle t (now ∷ nows) a = ground (arith, polls_idle t nows a)

-- Whatever a one-shot was before it is armed, polling it at any times returns true at the first
-- time that has reached its due time and false at all others, and it is marked fired afterwards
-- exactly if one of them has.
pub polls-arm :
    (t : OneShotTimer) (due : ℕ) (nows : List ℕ)
    → ((polls (arm t due) nows).0 ≡ first_from due nows)
      × ((polls (arm t due) nows).1.fired ≡ reached due nows)
unfolding polls arm ready
polls-arm t due [] = (refl, refl)
polls-arm t due (now ∷ nows) = elim (Bool-cases (ltb now due)) [
  | inl early ↦ ground (arith, polls-arm t due nows)
  | inr late ↦
      ground (arith, polls_idle (record { due_us = due; armed = false; fired = true }) nows refl)
]

-- A pending one-shot that is disarmed never fires.
pub polls-disarm : (t : OneShotTimer) (nows : List ℕ) → (polls (disarm t) nows).0 ≡ all_false nows
unfolding disarm
polls-disarm t nows = ap (λ (p : List Bool × OneShotTimer). p.0) (polls_idle (disarm t) nows refl)
