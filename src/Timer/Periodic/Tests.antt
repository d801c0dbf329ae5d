-- ===== src/Timer/Periodic/Tests.antt =====
-- Runs of the periodic timer, as in tests/test_timer.cpp.
use pypilot_event_loop.Prelude.{ℕ, ◌≡◌, refl, true, some, arith}
use pypilot_event_loop.Timer.Periodic.{PeriodicTimer, new, ready, advance}
use pypilot_event_loop.Timer.Periodic.Deadline.{IsNext, ready_due}

abbrev every_100 : PeriodicTimer
every_100 = record { period_us = 100; next_due_us = 1000; armed = true }

first_call_fires :
    ready (new 100) 5 ≡ some (true, record { period_us = 100; next_due_us = 105; armed = true })
unfolding ready new advance
first_call_fires = refl

jump : ready every_100 1730 ≡ some (true, record every_100 { next_due_us = 1800 })
unfolding ready advance
jump = refl

ready_due_example :
    (r : ℕ) × (ready every_100 1730 ≡ some (true, record every_100 { next_due_us = r }))
    × IsNext 100 1730 1000 r
ready_due_example = ready_due every_100 1730 refl (omega arith) (omega arith) (omega arith)
