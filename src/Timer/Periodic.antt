-- ===== src/Timer/Periodic.antt =====
-- PeriodicTimer of async_event_loop/scheduler.hpp.
pub mod Deadline
pub mod Rate
mod Tests
use pypilot_event_loop.Prelude.{
  ℕ, zero, suc, Bool, true, false, ◌||◌, Option, none, some, List, [], ◌∷◌, add64, ltb, leb, ◌==◌,
  if◌then◌else◌,
}

pub record PeriodicTimer : Type 0 where
  pub period_us : ℕ
  pub next_due_us : ℕ
  pub armed : Bool

pub new : ℕ → PeriodicTimer
new period_us = record { period_us = period_us; next_due_us = 0; armed = false }

pub set_period_us : PeriodicTimer → ℕ → PeriodicTimer
set_period_us t period_us = record t { period_us = period_us }

pub reset : PeriodicTimer → ℕ → PeriodicTimer
reset t now_us = record t { next_due_us = now_us; armed = true }

-- `do { due += period; } while (now >= due);`. `none`: the loop goes on when the fuel is used up.
unfoldable pub advance : ℕ → ℕ → ℕ → ℕ → Option ℕ
advance zero period_us now_us due = none
advance (suc fuel) period_us now_us due =
    let due' = add64 due period_us in
    let rest = advance fuel period_us now_us due' in if leb due' now_us then rest else some due'

-- The rounds that suffice, one for each microsecond at most (`advance_ends`).
abbrev pub rounds : ℕ → ℕ
rounds now_us = suc now_us

fire : PeriodicTimer → ℕ → Option (Bool × PeriodicTimer)
fire t now_us =
    if t.period_us == 0 || ltb now_us t.next_due_us
    then some (false, t)
    else elim (advance (rounds now_us) t.period_us now_us t.next_due_us) [
      | none ↦ none
      | some due ↦ some (true, record t { next_due_us = due })
    ]

-- `ready`: its result and the timer after it; `none` if its loop does not end.
pub ready : PeriodicTimer → ℕ → Option (Bool × PeriodicTimer)
unfolding reset fire
ready t now_us = if t.armed then fire t now_us else fire (reset t now_us) now_us

-- Successive calls: how many of them return true, and the timer after the last.
pub polls : PeriodicTimer → List ℕ → Option (ℕ × PeriodicTimer)
polls t [] = some (0, t)
polls t (now ∷ nows) = elim (ready t now) [
  | none ↦ none
  | some (fired, t') ↦ elim (polls t' nows) [
    | none ↦ none
    | some (n, t'') ↦ some (if fired then suc n else n, t'')
  ]
]
