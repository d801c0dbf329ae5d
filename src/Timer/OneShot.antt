-- ===== src/Timer/OneShot.antt =====
-- OneShotTimer of async_event_loop/scheduler.hpp.
pub mod Once
mod Tests
use pypilot_event_loop.Prelude.{ℕ, Bool, true, false, not, ◌||◌, List, [], ◌∷◌, ltb, if◌then◌else◌}

pub record OneShotTimer : Type 0 where
  pub due_us : ℕ
  pub armed : Bool
  pub fired : Bool

abbrev pub fresh : OneShotTimer
fresh = record { due_us = 0; armed = false; fired = false }

pub arm : OneShotTimer → ℕ → OneShotTimer
arm t due_us = record { due_us = due_us; armed = true; fired = false }

pub disarm : OneShotTimer → OneShotTimer
disarm t = record t { armed = false }

pub ready : OneShotTimer → ℕ → Bool × OneShotTimer
ready t now_us =
    if not t.armed || t.fired || ltb now_us t.due_us
    then (false, t)
    else (true, record t { fired = true; armed = false })

-- The results of successive calls, and the timer after the last.
pub polls : OneShotTimer → List ℕ → List Bool × OneShotTimer
polls t [] = ([], t)
polls t (now ∷ nows) = let (r, t') = ready t now in let (rs, t'') = polls t' nows in (r ∷ rs, t'')
