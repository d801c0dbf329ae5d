-- ===== src/EventLoop/Running.antt =====
-- An EventLoop at work: the calls that a program makes of it, and the polls of its tasks by the
-- scheduler (CallbackTask::poll and EventLoop::OneShotCallback). Every step keeps the table valid.
use pypilot_event_loop.Prelude.{
  ℕ, ◌≡◌, inl, inr, Bool, ◌&&◌, ltb, length, ◌==◌, Option, none, some, List, [], ◌∷◌, arith,
  if◌then◌else◌, Option-cases, Bool-cases, subst,
}
use pypilot_event_loop.Task
use pypilot_event_loop.EventLoop.{
  EventHandle, Slot, slot_at, EventLoop, Callable, plain, one_shot, when_readable, each_event,
  Scheduler, put_task, assigned, vacate, release_registered, enable, disable, remove, on_repeat_us,
  on_delay_us, on_bytes_ready, on_pin_event,
}
use pypilot_event_loop.EventLoop.Slots.{SlotValid, AllSlots, IsValid, vacate-SlotValid}
use pypilot_event_loop.EventLoop.Handles.{set-IsValid, Gives}
use pypilot_event_loop.EventLoop.Registration.{register_lem}
use pypilot_event_loop.EventLoop.Removal.{switch_lem, remove_lem, Removes}

-- A call of the loop by the program.
pub data Call (C : Type 0) : Type 0 where
  enables : EventHandle → Call C
  disables : EventHandle → Call C
  removes : EventHandle → Call C
  repeats : ℕ → C → Call C
  delays : ℕ → ℕ → C → Call C
  readies : Option ℕ → ℕ → C → Call C
  pins : Option ℕ → ℕ → C → Call C

-- A step of the running program: a call, or a part of the poll of a task.
pub data Step (C : Type 0) : Type 0 where
  calls : Call C → Step C
  starts : ℕ → Step C
  completes : EventHandle → Step C
  ends : ℕ → Step C

module _ {S C : Type 0} where
  -- `CallbackTask::poll` of a slot up to the call: what is called, if anything.
  unfoldable pub begin_poll : ℕ → EventLoop S C → Option (Callable C × EventLoop S C)
  begin_poll i l = elim (Task.begin_poll (slot_at l.slots i).task) [
    | none ↦ none
    | some (c, t) ↦ some (c, put_task l i t)
  ]

  -- The same from the return of the callable on.
  unfoldable pub end_poll : ℕ → EventLoop S C → EventLoop S C
  end_poll i l = put_task l i (Task.end_poll (slot_at l.slots i).task)

  module _ (scheduler : Scheduler S) where
    unfoldable pub call : Call C → EventLoop S C → EventLoop S C
    call (enables h) l = (enable l h).1
    call (disables h) l = (disable l h).1
    call (removes h) l = (remove scheduler l h).1
    call (repeats period_us c) l = (on_repeat_us scheduler period_us c l).1
    call (delays now_us delay_us c) l = (on_delay_us scheduler now_us delay_us c l).1
    call (readies fd poll_us c) l = (on_bytes_ready scheduler fd poll_us c l).1
    call (pins fd poll_us c) l = (on_pin_event scheduler fd poll_us c l).1

    unfoldable pub calls_in_order : List (Call C) → EventLoop S C → EventLoop S C
    calls_in_order [] l = l
    calls_in_order (q ∷ qs) l = calls_in_order qs (call q l)

    -- The body of a stored callable: the user's callable, in all its runs of this poll, makes the
    -- calls `body`, and OneShotCallback completes.
    unfoldable pub invoke : Bool → List (Call C) → Callable C → EventLoop S C → EventLoop S C
    invoke readable body (plain c) l = calls_in_order body l
    invoke readable body (one_shot h c) l = release_registered (calls_in_order body l) h
    invoke readable body (when_readable c) l = if readable then calls_in_order body l else l
    invoke readable body (each_event c) l = calls_in_order body l

    -- `CallbackTask::poll` of the slot `i`, with what the stream and the user's callable do.
    unfoldable pub poll :
        Bool → (Callable C → EventLoop S C → List (Call C)) → ℕ → EventLoop S C → EventLoop S C
    unfolding begin_poll
    poll readable body i l = elim (begin_poll i l) [
      | none ↦ l
      | some (c, l') ↦ end_poll i (invoke readable (body c l') c l')
    ]

    unfoldable pub step : Step C → EventLoop S C → EventLoop S C
    step (calls q) l = call q l
    step (starts i) l = elim (begin_poll i l) [ none ↦ l | some (c, l') ↦ l' ]
    step (completes h) l = release_registered l h
    step (ends i) l = end_poll i l

    unfoldable pub steps : List (Step C) → EventLoop S C → EventLoop S C
    steps [] l = l
    steps (x ∷ xs) l = steps xs (step x l)

    pub call-IsValid : (q : Call C) (l : EventLoop S C) → IsValid l → IsValid (call q l)
    unfolding call on_repeat_us on_delay_us on_bytes_ready on_pin_event Gives Removes
    call-IsValid (enables h) l v = (switch_lem l h v).0.keeps
    call-IsValid (disables h) l v = (switch_lem l h v).1.keeps
    call-IsValid (removes h) l v = (remove_lem scheduler l h v).0
    call-IsValid (repeats period_us c) l v = (register_lem _ _ l v).0
    call-IsValid (delays now_us delay_us c) l v = (register_lem _ _ l v).0
    call-IsValid (readies fd poll_us c) l v = (register_lem _ _ l v).0
    call-IsValid (pins fd poll_us c) l v = (register_lem _ _ l v).0

module _ {C : Type 0} where
  begin_poll-SlotValid :
      (s : Slot C) (c : Callable C) (t : Task.CallbackTask (Callable C))
      → Task.begin_poll s.task ≡ some (c, t)
      → SlotValid s
      → SlotValid (record s { task = t })
  unfolding Task.begin_poll
  begin_poll-SlotValid s c t e v = ground (arith, e, v.task)

  end_poll-SlotValid :
      (s : Slot C) → SlotValid s → SlotValid (record s { task = Task.end_poll s.task })
  unfolding Task.end_poll Task.destroy_now
  end_poll-SlotValid s v = ground (arith, v.task)

module _ {S C : Type 0} where
  release_registered-IsValid :
      (l : EventLoop S C) (h : EventHandle) → IsValid l → IsValid (release_registered l h)
  unfolding release_registered AllSlots
  release_registered-IsValid l h v =
      let released =
        set-IsValid l h.slot (vacate (slot_at l.slots h.slot)) v
          (vacate-SlotValid _ (v.slots h.slot)) in
      elim (Bool-cases (
        assigned h
        && (ltb h.slot (length l.slots)
            && ((slot_at l.slots h.slot).used
                && ((slot_at l.slots h.slot).generation == h.generation))))) [
                  | inl names ↦ rw names released
                  | inr other ↦ rw other v
                ]

  pub begin_poll-IsValid :
      (i : ℕ) (l l' : EventLoop S C) (c : Callable C)
      → begin_poll i l ≡ some (c, l')
      → IsValid l
      → IsValid l'
  unfolding begin_poll AllSlots
  begin_poll-IsValid i l l' c e v = elim (Option-cases (Task.begin_poll (slot_at l.slots i).task)) [
    | inl idle ↦ absurd (ground (arith, idle, e))
    | inr ((d, t), started) ↦
        let k =
          set-IsValid l i (record (slot_at l.slots i) { task = t }) v
            (begin_poll-SlotValid (slot_at l.slots i) d t started (v.slots i)) in
        let same : put_task l i t ≡ l' = ground (arith, started, e) in subst IsValid same k
  ]

  end_poll-IsValid : (i : ℕ) (l : EventLoop S C) → IsValid l → IsValid (end_poll i l)
  unfolding end_poll AllSlots
  end_poll-IsValid i l v =
      set-IsValid l i (record (slot_at l.slots i) { task = Task.end_poll (slot_at l.slots i).task })
        v (end_poll-SlotValid (slot_at l.slots i) (v.slots i))

  module _ (scheduler : Scheduler S) where
    pub step-IsValid : (x : Step C) (l : EventLoop S C) → IsValid l → IsValid (step scheduler x l)
    unfolding step
    step-IsValid (calls q) l v = call-IsValid scheduler q l v
    step-IsValid (starts i) l v = elim (Option-cases (begin_poll i l)) [
      | inl idle ↦ rw (step, idle) v
      | inr ((c, l'), started) ↦ rw (step, started) (begin_poll-IsValid i l l' c started v)
    ]
    step-IsValid (completes h) l v = release_registered-IsValid l h v
    step-IsValid (ends i) l v = end_poll-IsValid i l v

    -- Every sequence of calls and of parts of polls, in any order and nesting, keeps a loop valid:
    -- each task keeps the invariant of CallbackTask, and a slot is in use exactly while its task is
    -- active. This holds whatever the scheduler answers.
    pub steps-IsValid :
        (xs : List (Step C)) (l : EventLoop S C) → IsValid l → IsValid (steps scheduler xs l)
    unfolding steps
    steps-IsValid [] l v = v
    steps-IsValid (x ∷ xs) l v = steps-IsValid xs (step scheduler x l) (step-IsValid x l v)
