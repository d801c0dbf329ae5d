-- ===== src/ArduinoLoop/Tests.antt =====
-- Runs of the cooperative scheduler, with tasks that are logged in the order of their calls.
use pypilot_event_loop.Prelude.{
  ℕ, ◌≡◌, refl, true, false, some, none, Option, List, [], ◌∷◌, ◌++◌, arith,
}
use pypilot_event_loop.FixedVector.{shift}
use pypilot_event_loop.Timer.Periodic.{advance}
use pypilot_event_loop.ArduinoLoop.{
  TaskSlot, blank, ArduinoLoop, erase_task, compact_from, run_once, run_from, visit, reschedule,
}
use pypilot_event_loop.ArduinoLoop.Compact.{IsValid}
use pypilot_event_loop.ArduinoLoop.Round.{Served, run_once-Served}

abbrev logged : ℕ → ℕ → List ℕ → List ℕ
logged t now u = u ++ t ∷ []

abbrev poll : ℕ → ℕ → ArduinoLoop → List ℕ → ArduinoLoop × List ℕ
poll t now l u = (l, logged t now u)

-- A periodic task, a one-shot that is due, and one that is not.
abbrev entries : List TaskSlot
entries =
    record { task = some 1; period_us = 10; next_due_us = 5; periodic = true; active = true }
    ∷ record { task = some 2; period_us = 0; next_due_us = 20; periodic = false; active = true }
    ∷ record { task = some 3; period_us = 0; next_due_us = 30; periodic = false; active = true }
    ∷ blank
    ∷ []

abbrev three : ArduinoLoop
three = record { tasks = entries; task_count = 3; exit_requested = false; running = false }

three-IsValid : IsValid 4 three
three-IsValid = record { storage = refl; within = omega arith }

abbrev log_of : Option (ArduinoLoop × List ℕ) → List ℕ
log_of none = []
log_of (some (l, u)) = u

served : log_of (run_once poll 22 three []) ≡ 1 ∷ 2 ∷ []
unfolding run_once run_from visit reschedule compact_from erase_task advance shift
served = refl

run_once-Served_example : Served 4 poll logged (λ t now l u. refl) 22 three []
run_once-Served_example =
    run_once-Served 4 poll logged (λ t now l u. refl) 22 three [] three-IsValid
      (
        record { is_live = refl; period = λ e. omega arith; room = λ e. omega arith },
        (
          record {
            is_live = refl;
            period = λ e. absurd (ground (arith, e));
            room = λ e. absurd (ground (arith, e));
          },
          (
            record {
              is_live = refl;
              period = λ e. absurd (ground (arith, e));
              room = λ e. absurd (ground (arith, e));
            },
            ground arith,
          ),
        ),
      )
