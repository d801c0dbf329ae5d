-- ===== src/ArduinoLoop.antt =====
-- ArduinoLoopImpl of async_event_loop_arduino/arduino_loop.hpp: the cooperative scheduler.
pub mod Compact
pub mod Registry
pub mod Service
pub mod Round
mod Tests
use pypilot_event_loop.Prelude.{
  ℕ, zero, suc, ◌+◌, ◌-◌, Bool, true, false, not, ◌&&◌, ◌||◌, Option, none, some, List, [], ◌∷◌,
  ltb, leb, ◌==◌, if◌then◌else◌, length, get_or, set, replicate,
}
use pypilot_event_loop.FixedVector.{shift}
use pypilot_event_loop.Timer.Periodic.{advance, rounds}

-- `task` is the address of the task, by number; `none` is the null pointer.
pub record TaskSlot : Type 0 where
  pub task : Option ℕ
  pub period_us : ℕ
  pub next_due_us : ℕ
  pub periodic : Bool
  pub active : Bool

abbrev pub blank : TaskSlot
blank = record { task = none; period_us = 0; next_due_us = 0; periodic = false; active = false }

-- `tasks` is the whole array `tasks_[MaxTasks]`.
pub record ArduinoLoop : Type 0 where
  pub tasks : List TaskSlot
  pub task_count : ℕ
  pub exit_requested : Bool
  pub running : Bool

abbrev pub new : ℕ → ArduinoLoop
new max_tasks = record {
  tasks = replicate max_tasks blank;
  task_count = 0;
  exit_requested = false;
  running = false;
}

abbrev pub is_some : Option ℕ → Bool
is_some none = false
is_some (some t) = true

-- The test of `compact_inactive`, negated.
abbrev pub live : TaskSlot → Bool
live s = s.active && is_some s.task

unfoldable pub erase_task : ℕ → ArduinoLoop → ArduinoLoop
erase_task index l = if leb l.task_count index then l else record l {
  tasks = set (shift blank (l.task_count - (index + 1)) index l.tasks) (l.task_count - 1) blank;
  task_count = l.task_count - 1;
}

-- The loop of `compact_inactive` from `i` on; each round either passes an entry or removes one.
unfoldable pub compact_from : ℕ → ℕ → ArduinoLoop → ArduinoLoop
compact_from zero i l = l
compact_from (suc fuel) i l = elim (ltb i l.task_count) [
  | false ↦ l
  | true ↦ elim (live (get_or l.tasks i blank)) [
    | true ↦ compact_from fuel (i + 1) l
    | false ↦ compact_from fuel i (erase_task i l)
  ]
]

abbrev pub compact_inactive : ArduinoLoop → ArduinoLoop
compact_inactive l = compact_from l.task_count 0 l

abbrev pub append : TaskSlot → ArduinoLoop → ArduinoLoop
append s l = record l { tasks = set l.tasks l.task_count s; task_count = l.task_count + 1 }

-- `now_us` is the reading of the clock.
unfoldable pub add_periodic : ℕ → ℕ → ℕ → ArduinoLoop → Bool × ArduinoLoop
add_periodic now_us task period_us l =
    let l' = compact_inactive l in
    if period_us == 0 || leb (length l'.tasks) l'.task_count then (false, l') else (
      true,
      append
          (record {
            task = some task;
            period_us = period_us;
            next_due_us = now_us;
            periodic = true;
            active = true;
          })
          l',
    )

unfoldable pub add_one_shot : ℕ → ℕ → ArduinoLoop → Bool × ArduinoLoop
add_one_shot task due_us l =
    let l' = compact_inactive l in
    if leb (length l'.tasks) l'.task_count then (false, l') else (
      true,
      append
          (record {
            task = some task;
            period_us = 0;
            next_due_us = due_us;
            periodic = false;
            active = true;
          })
          l',
    )

abbrev pub names : ℕ → Option ℕ → Bool
names task none = false
names task (some t) = t == task

-- The body of the loop of `remove`.
abbrev pub unlink : ℕ → TaskSlot → TaskSlot
unlink task s = if names task s.task then record s { task = none; active = false } else s

-- The loop of `remove` over the first entries, and whether it found the task.
unfoldable pub unlink_all : ℕ → ℕ → List TaskSlot → Bool × List TaskSlot
unlink_all task zero ss = (false, ss)
unlink_all task (suc n) [] = (false, [])
unlink_all task (suc n) (s ∷ ss) =
    let (found, ss') = unlink_all task n ss in (names task s.task || found, unlink task s ∷ ss')

unfoldable pub remove : ℕ → ArduinoLoop → Bool × ArduinoLoop
remove task l =
    let (removed, tasks) = unlink_all task l.task_count l.tasks in
    let l' = record l { tasks = tasks } in (removed, if l.running then l' else compact_inactive l')

abbrev pub request_exit : ArduinoLoop → ArduinoLoop
request_exit l = record l { exit_requested = true }

-- `U` is the state of the tasks; a task's `poll` may call the scheduler.
module _ {U : Type 0} (poll : ℕ → ℕ → ArduinoLoop → U → ArduinoLoop × U) where
  abbrev pub put : ℕ → TaskSlot → ArduinoLoop → ArduinoLoop
  put i s l = record l { tasks = set l.tasks i s }

  -- What `run_once` does to the entry `i`, read again behind the call of its task.
  unfoldable pub reschedule : ℕ → ℕ → ArduinoLoop → Option ArduinoLoop
  reschedule now_us i l =
      let s = get_or l.tasks i blank in
      if not (live s)
      then some l
      else if s.periodic
      then elim (advance (rounds now_us) s.period_us now_us s.next_due_us) [
        | none ↦ none
        | some due ↦ some (put i (record s { next_due_us = due }) l)
      ]
      else some (put i (record s { active = false; task = none }) l)

  -- One round of the loop of `run_once`.
  unfoldable pub visit : ℕ → ℕ → ArduinoLoop → U → Option (ArduinoLoop × U)
  visit now_us i l u =
      let s = get_or l.tasks i blank in
      elim s.task [
        | none ↦ some (l, u)
        | some task ↦
            if not s.active || ltb now_us s.next_due_us
            then some (l, u)
            else let (l', u') = poll task now_us l u in
              elim (reschedule now_us i l') [ none ↦ none | some l'' ↦ some (l'', u') ]
      ]

  -- The loop of `run_once` from `i` on; `task_count` is read again in each round, and is at most
  -- MaxTasks, which is fuel enough.
  unfoldable pub run_from : ℕ → ℕ → ℕ → ArduinoLoop → U → Option (ArduinoLoop × U)
  run_from zero now_us i l u = some (l, u)
  run_from (suc fuel) now_us i l u = elim (ltb i l.task_count) [
    | false ↦ some (l, u)
    | true ↦ elim (visit now_us i l u) [
      | none ↦ none
      | some (l', u') ↦ run_from fuel now_us (i + 1) l' u'
    ]
  ]

  -- `none` if the loop that moves a deadline does not end.
  unfoldable pub run_once : ℕ → ArduinoLoop → U → Option (ArduinoLoop × U)
  run_once now_us l u =
      let l' = record (compact_inactive l) { running = true } in
      elim (run_from (length l'.tasks) now_us 0 l' u) [
        | none ↦ none
        | some (l'', u') ↦ some (compact_inactive (record l'' { running = false }), u')
      ]
