-- ===== src/Timer/Periodic/Rate.antt =====
-- How often a periodic timer fires over a run of polls.
use pypilot_event_loop.Prelude.{
  ℕ, suc, ◌+◌, ◌*◌, ◌^◌, ◌≤◌, ◌<◌, ◌≡◌, refl, inl, inr, ◌⊎◌, true, some, arith, List, [], ◌∷◌, ltb,
  Bool-cases, ltb→lt, ltb→ge,
}
use pypilot_event_loop.Timer.Periodic.{PeriodicTimer, polls}
use pypilot_event_loop.Timer.Periodic.Deadline.{ready_due, ready_early}

abbrev pub AllLe : ℕ → List ℕ → Type 0
AllLe end [] = Unit {0}
AllLe end (now ∷ nows) = (now ≤ end) × AllLe end nows

-- What a run of polls leaves: `n` firings moved the deadline by `n` periods at least, and it lies
-- at most one period behind the end of the run, if it moved.
record Paced (t : PeriodicTimer) (end n : ℕ) (t' : PeriodicTimer) : Type 0 where
  moved : n * t.period_us + t.next_due_us ≤ t'.next_due_us
  bounded : (t'.next_due_us ≤ t.next_due_us) ⊎ (t'.next_due_us ≤ end + t.period_us)

polls-Paced :
    (end : ℕ) (nows : List ℕ) (t : PeriodicTimer)
    → t.armed ≡ true
    → 0 < t.period_us
    → end + t.period_us < 2 ^ 64
    → AllLe end nows
    → (n : ℕ) × (t' : PeriodicTimer) × (polls t nows ≡ some (n, t')) × Paced t end n t'
unfolding polls
polls-Paced end [] t a p w h =
    (0, t, refl, record { moved = omega arith; bounded = inl (omega arith) })
polls-Paced end (now ∷ nows) t a p w h = elim (Bool-cases (ltb now t.next_due_us)) [
  | inl early ↦
      let (n, t', e, c) = polls-Paced end nows t a p w h.1 in
      let stays = ready_early t now a (ltb→lt now t.next_due_us early) in
      (n, t', ground (arith, stays, e), c)
  | inr due ↦
      let (r, fired, next) =
        ready_due t now a p (ltb→ge now t.next_due_us due) (omega (arith, h.0)) in
      let (n, t', e, c) = polls-Paced end nows (record t { next_due_us = r }) a p w h.1 in
      (
        suc n,
        t',
        ground (arith, fired, e),
        record {
          moved = omega (arith, c.moved, next.moved);
          bounded = inr (omega (arith, c.bounded, next.first, h.0));
        },
      )
]

-- No burst: over any run of polls at times up to `end`, an armed timer of positive period, short of
-- the end of the 64-bit clock, fires `n` times where `n` is 0 or `n` periods from its deadline
-- reach at most one period beyond `end`. The run itself always ends.
pub polls_rate :
    (end : ℕ) (nows : List ℕ) (t : PeriodicTimer)
    → t.armed ≡ true
    → 0 < t.period_us
    → end + t.period_us < 2 ^ 64
    → AllLe end nows
    → (n : ℕ) × (t' : PeriodicTimer) × (polls t nows ≡ some (n, t'))
      × ((n ≡ 0) ⊎ (n * t.period_us + t.next_due_us ≤ end + t.period_us))
polls_rate end nows t a p w h =
    let (n, t', e, c) = polls-Paced end nows t a p w h in
    (n, t', e, grind (arith, c.moved, c.bounded))
