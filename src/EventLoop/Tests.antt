-- ===== src/EventLoop/Tests.antt =====
-- Runs of an EventLoop over a scheduler that accepts everything, with callables named by numbers.
use pypilot_event_loop.Prelude.{
  ℕ, ◌+◌, ◌≡◌, refl, true, false, some, List, [], ◌∷◌, arith, length, ◌<◌,
}
use pypilot_event_loop.Task
use pypilot_event_loop.EventLoop.{
  assigned, on_repeat_us, EventHandle, plain, one_shot, Scheduler, EventLoop, new, valid, allocate,
  register, remove, on_delay_us,
}
use pypilot_event_loop.ArduinoLoop
use pypilot_event_loop.ArduinoLoop.{ArduinoLoop}
use pypilot_event_loop.ArduinoLoop.Compact
use pypilot_event_loop.ArduinoLoop.Compact.{contents}
use pypilot_event_loop.ArduinoLoop.Registry.{has}
use pypilot_event_loop.EventLoop.Arduino.{arduino, remove-unscheduled}
use pypilot_event_loop.EventLoop.Slots.{IsValid, replicate-AllSlots}
use pypilot_event_loop.EventLoop.Handles.{Gives}
use pypilot_event_loop.EventLoop.Registration.{register_lem}
use pypilot_event_loop.EventLoop.Running.{
  Call, removes, repeats, calls, starts, ends, step, steps, begin_poll, steps-IsValid,
}

-- A scheduler whose state counts its calls.
abbrev accepting : Scheduler ℕ
accepting = record {
  add_periodic = λ i p s. (true, s + 1);
  add_one_shot = λ i d s. (true, s + 1);
  add_readable = λ i fd s. (true, s + 1);
  remove = λ i s. (true, s + 1);
}

abbrev empty_loop : EventLoop ℕ ℕ
empty_loop = new 2 0

empty_loop-IsValid : IsValid empty_loop
unfolding new
empty_loop-IsValid = record { slots = replicate-AllSlots ℕ 2; few = omega arith }

abbrev first : EventHandle
first = record { slot = 0; generation = 0 }

abbrev one_delay : EventLoop ℕ ℕ
one_delay = (on_delay_us accepting 5 10 7 empty_loop).1

register_lem_example :
    Gives empty_loop (register (λ i. accepting.add_periodic i 5) (λ h. plain 7) empty_loop)
register_lem_example =
    register_lem (λ i. accepting.add_periodic i 5) (λ h. plain 7) empty_loop empty_loop-IsValid

one_delay-IsValid : IsValid one_delay
unfolding on_delay_us Gives
one_delay-IsValid = (register_lem _ _ empty_loop empty_loop-IsValid).0

steps-IsValid_example :
    IsValid (steps accepting (starts 0 ∷ calls (removes first) ∷ ends 0 ∷ []) one_delay)
steps-IsValid_example =
    steps-IsValid accepting (starts 0 ∷ calls (removes first) ∷ ends 0 ∷ []) one_delay
      one_delay-IsValid

removed : (remove accepting one_delay first).0 ≡ true
unfolding remove on_delay_us register allocate new Task.set Task.clear Task.destroy_now
removed = refl

-- The callable removes its own handle and registers another one.
abbrev body : List (Call ℕ)
body = removes first ∷ repeats 5 8 ∷ []

abbrev running : EventLoop ℕ ℕ
running = (step accepting (starts 0) one_delay)

within : 0 < length one_delay.slots
unfolding on_delay_us register allocate new Task.set Task.clear Task.destroy_now
within = omega arith

started : begin_poll 0 one_delay ≡ some (one_shot first 7, running)
unfolding step begin_poll Task.begin_poll on_delay_us register allocate new Task.set Task.clear
    Task.destroy_now
started = refl

-- The same over the cooperative scheduler.
abbrev arduino_loop : EventLoop ArduinoLoop ℕ
arduino_loop = new 2 (ArduinoLoop.new 2)

arduino_loop-IsValid : IsValid arduino_loop
unfolding new
arduino_loop-IsValid = record { slots = replicate-AllSlots ℕ 2; few = omega arith }

scheduler-IsValid : Compact.IsValid 2 arduino_loop.scheduler
unfolding new
scheduler-IsValid = record { storage = refl; within = omega arith }

repeating-assigned : assigned (on_repeat_us (arduino 100) 5 7 arduino_loop).0 ≡ true
unfolding on_repeat_us register allocate new Task.set Task.clear Task.destroy_now
    ArduinoLoop.add_periodic ArduinoLoop.compact_from
repeating-assigned = refl

-- A loop with one repeating callback.
abbrev repeating_loop : EventLoop ArduinoLoop ℕ
repeating_loop = (on_repeat_us (arduino 100) 5 7 arduino_loop).1

repeating_loop-IsValid : IsValid repeating_loop
unfolding on_repeat_us Gives
repeating_loop-IsValid = (register_lem _ _ arduino_loop arduino_loop-IsValid).0

repeating_loop-scheduler : Compact.IsValid 2 repeating_loop.scheduler
unfolding on_repeat_us register allocate new Task.set Task.clear Task.destroy_now
    ArduinoLoop.add_periodic ArduinoLoop.compact_from
repeating_loop-scheduler = record { storage = refl; within = omega arith }

repeating_loop-valid :
    (valid repeating_loop first ≡ true) × (has 0 (contents repeating_loop.scheduler) ≡ true)
unfolding on_repeat_us register allocate new Task.set Task.clear Task.destroy_now
    ArduinoLoop.add_periodic ArduinoLoop.compact_from
repeating_loop-valid = (refl, refl)

remove-unscheduled_example :
    let (removed, l') = remove (arduino 200) repeating_loop first in
    (removed ≡ true) × (valid l' first ≡ false) × (has 0 (contents l'.scheduler) ≡ false)
remove-unscheduled_example =
    remove-unscheduled 2 200 repeating_loop first repeating_loop-IsValid repeating_loop-scheduler
      repeating_loop-valid.0 repeating_loop-valid.1
