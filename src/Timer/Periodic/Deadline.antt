-- ===== src/Timer/Periodic/Deadline.antt =====
-- The loop of `PeriodicTimer::ready` ends, at the first deadline of the grid that is in the future.
use pypilot_event_loop.Prelude.{
  ℕ, zero, suc, ◌+◌, ◌*◌, ◌^◌, ◌≤◌, ◌<◌, ◌≡◌, inl, inr, Bool-cases, true, false, some, arith, leb,
  leb→le, leb→gt, add64,
}
use pypilot_event_loop.Timer.Periodic.{PeriodicTimer, advance, rounds, ready}

-- `r` is the first deadline after `now` on the grid of `period` through `due`.
pub record IsNext (period now due r : ℕ) : Type 0 where
  pub future : now < r
  pub first : r ≤ now + period
  pub steps : ℕ
  pub on_grid : r ≡ due + steps * period
  pub moved : due + period ≤ r

pub advance_ends :
    (fuel period now due : ℕ)
    → due ≤ now
    → now < due + fuel * period
    → now + period < 2 ^ 64
    → (r : ℕ) × (advance fuel period now due ≡ some r) × IsNext period now due r
unfolding advance
advance_ends zero period now due h k w = absurd (omega arith)
advance_ends (suc fuel) period now due h k w = elim (Bool-cases (leb (add64 due period) now)) [
  | inl more ↦
      let small : due + period ≤ now = omega (arith, leb→le (add64 due period) now more) in
      let exact : add64 due period ≡ due + period = omega arith in
      let (r, e, n) =
        advance_ends fuel period now (add64 due period) (omega arith) (omega arith) w in
      (
        r,
        rw more e,
        record {
          future = n.future;
          first = n.first;
          steps = suc n.steps;
          on_grid = omega (arith, n.on_grid);
          moved = omega (arith, n.moved);
        },
      )
  | inr done ↦
      let large = leb→gt (add64 due period) now done in
      (
        add64 due period,
        rw done,
        record {
          future = large;
          first = omega arith;
          steps = 1;
          on_grid = omega arith;
          moved = omega arith;
        },
      )
]

-- On an armed timer of positive period that is due, and short of the end of the 64-bit clock,
-- `ready` returns true and moves the deadline to the first one of its grid that is in the future;
-- the period is kept.
pub ready_due :
    (t : PeriodicTimer) (now : ℕ)
    → t.armed ≡ true
    → 0 < t.period_us
    → t.next_due_us ≤ now
    → now + t.period_us < 2 ^ 64
    → (r : ℕ) × (ready t now ≡ some (true, record t { next_due_us = r }))
      × IsNext t.period_us now t.next_due_us r
unfolding ready
ready_due t now a p h w =
    let (r, e, n) = advance_ends (rounds now) t.period_us now t.next_due_us h (grind arith) w in
    (r, ground arith, n)

-- Before its deadline an armed timer is not ready, and stays as it is.
pub ready_early :
    (t : PeriodicTimer) (now : ℕ)
    → t.armed ≡ true
    → now < t.next_due_us
    → ready t now ≡ some (false, t)
unfolding ready
ready_early t now a h = ground arith
