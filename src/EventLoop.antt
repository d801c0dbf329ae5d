-- ===== src/EventLoop.antt =====
-- EventLoop of async_event_loop/event_loop.hpp: a fixed table of callbacks, named by handles with
-- generations, over a scheduler with the operations of IScheduler (async_event_loop/scheduler.hpp).
pub mod Slots
pub mod Handles
pub mod Registration
pub mod Removal
pub mod Running
pub mod Generations
pub mod Stale
pub mod Occupied
pub mod OneShot
pub mod Arduino
mod Tests
use pypilot_event_loop.Prelude.{
  ℕ, suc, ◌+◌, ◌-◌, ◌*◌, ◌%◌, ◌^◌, Bool, true, false, not, ◌&&◌, Option, none, some, List, [], ◌∷◌,
  ltb, ◌==◌, if◌then◌else◌, length, get_or, set, replicate, add16, uint64_max,
}
use pypilot_event_loop.Task.{CallbackTask, fresh}
use pypilot_event_loop.Task

pub record EventHandle : Type 0 where
  pub slot : ℕ
  pub generation : ℕ

abbrev pub invalid_slot : ℕ
invalid_slot = 0xffff

abbrev pub no_handle : EventHandle
no_handle = record { slot = invalid_slot; generation = 0 }

abbrev pub assigned : EventHandle → Bool
assigned h = not (h.slot == invalid_slot)

-- The callable in a slot: one registered as it is, one wrapped in OneShotCallback, one wrapped in
-- the closure of `on_bytes_ready`, which tests its stream first, or one in that of `on_pin_event`,
-- which runs it for each event that its source has.
pub data Callable (C : Type 0) : Type 0 where
  plain : C → Callable C
  one_shot : EventHandle → C → Callable C
  when_readable : C → Callable C
  each_event : C → Callable C

-- The entries of callback_tasks_, callback_generations_ and callback_used_ at one index.
pub record Slot (C : Type 0) : Type 0 where
  pub task : CallbackTask (Callable C)
  pub generation : ℕ
  pub used : Bool

abbrev pub blank : {C : Type 0} → Slot C
blank = record { task = fresh; generation = 0; used = false }

-- What EventLoop calls of its scheduler, with a task named by the index of its slot; `add_readable`
-- is `add_readable_fd`, of the Linux scheduler only.
pub record Scheduler (S : Type 0) : Type 0 where
  pub add_periodic : ℕ → ℕ → S → Bool × S
  pub add_one_shot : ℕ → ℕ → S → Bool × S
  pub add_readable : ℕ → ℕ → S → Bool × S
  pub remove : ℕ → S → Bool × S

-- `slots` has MaxCallbacks entries.
pub record EventLoop (S C : Type 0) : Type 0 where
  pub scheduler : S
  pub slots : List (Slot C)

abbrev pub default_readiness_poll_us : ℕ
default_readiness_poll_us = 1000

module _ {C : Type 0} where
  abbrev pub slot_at : List (Slot C) → ℕ → Slot C
  slot_at slots i = get_or slots i blank

  -- The lowest index, counted from `i`, of an entry that is not in use.
  abbrev pub first_free : ℕ → List (Slot C) → Option ℕ
  first_free i [] = none
  first_free i (s ∷ ss) = if s.used then first_free (suc i) ss else some i

  -- The end of both release functions.
  abbrev pub vacate : Slot C → Slot C
  vacate s = record { task = Task.clear s.task; generation = add16 s.generation 1; used = false }

abbrev pub due_at : ℕ → ℕ → ℕ
due_at now_us delay_us =
    if ltb (uint64_max - now_us) delay_us then uint64_max else now_us + delay_us

module _ {S : Type 0} (scheduler : Scheduler S) where
  -- `fd`: `none` for a negative descriptor, and on a target other than Linux.
  unfoldable pub register_readiness_or_poll : Option ℕ → ℕ → ℕ → S → Bool × S
  register_readiness_or_poll none cooperative_poll_us i s =
      scheduler.add_periodic i
        (if cooperative_poll_us == 0 then default_readiness_poll_us else cooperative_poll_us) s
  register_readiness_or_poll (some fd) cooperative_poll_us i s = scheduler.add_readable i fd s

module _ {S C : Type 0} where
  pub new : ℕ → S → EventLoop S C
  new max_callbacks scheduler = record {
    scheduler = scheduler;
    slots = replicate max_callbacks blank;
  }

  -- `valid(EventHandle)`.
  abbrev pub valid : EventLoop S C → EventHandle → Bool
  valid l h =
      assigned h
      && (ltb h.slot (length l.slots)
          && ((slot_at l.slots h.slot).used
              && ((slot_at l.slots h.slot).task.active
                  && ((slot_at l.slots h.slot).generation == h.generation))))

  -- A write to the task of a slot.
  abbrev pub put_task : EventLoop S C → ℕ → CallbackTask (Callable C) → EventLoop S C
  put_task l i t = record l { slots = set l.slots i (record (slot_at l.slots i) { task = t }) }

  unfoldable pub enable : EventLoop S C → EventHandle → Bool × EventLoop S C
  enable l h =
      if valid l h
      then (true, put_task l h.slot (Task.set_enabled (slot_at l.slots h.slot).task true))
      else (false, l)

  unfoldable pub disable : EventLoop S C → EventHandle → Bool × EventLoop S C
  disable l h =
      if valid l h
      then (true, put_task l h.slot (Task.set_enabled (slot_at l.slots h.slot).task false))
      else (false, l)

  unfoldable pub release_unregistered : EventLoop S C → EventHandle → EventLoop S C
  release_unregistered l h =
      if assigned h && ltb h.slot (length l.slots)
      then record l { slots = set l.slots h.slot (vacate (slot_at l.slots h.slot)) }
      else l

  unfoldable pub release_registered : EventLoop S C → EventHandle → EventLoop S C
  release_registered l h =
      if assigned h
        && (ltb h.slot (length l.slots)
            && ((slot_at l.slots h.slot).used
                && ((slot_at l.slots h.slot).generation == h.generation)))
      then record l { slots = set l.slots h.slot (vacate (slot_at l.slots h.slot)) }
      else l

  -- `allocate_callback`, and the same search in `on_delay_us`, where the callable takes the handle.
  unfoldable pub allocate : (EventHandle → Callable C) → EventLoop S C → EventHandle × EventLoop S C
  allocate callable l = elim (first_free 0 l.slots) [
    | none ↦ (no_handle, l)
    | some i ↦
        let s = slot_at l.slots i in
        let h : EventHandle = record { slot = i % 2 ^ 16; generation = s.generation } in
        let (set_ok, t) = Task.set s.task (callable h) in
        if set_ok
        then (h, record l { slots = set l.slots i (record s { task = t; used = true }) })
        else (no_handle, put_task l i t)
  ]

  -- The registration of a callable with the scheduler, given up when that refuses it: what
  -- the `on_` functions have in common.
  unfoldable pub register :
      (ℕ → S → Bool × S) → (EventHandle → Callable C) → EventLoop S C → EventHandle × EventLoop S C
  register add callable l =
      let (h, l') = allocate callable l in
      if not (assigned h)
      then (no_handle, l')
      else let (added, s) = add h.slot l'.scheduler in
        let l'' = record l' { scheduler = s } in
        if added then (h, l'') else (no_handle, release_unregistered l'' h)

  module _ (scheduler : Scheduler S) where
    unfoldable pub remove : EventLoop S C → EventHandle → Bool × EventLoop S C
    remove l h =
        if valid l h
        then (let (removed, s) = scheduler.remove h.slot l.scheduler in
            let l' = record l { scheduler = s } in
            if removed then (true, release_registered l' h) else (false, l'))
        else (false, l)

    unfoldable pub on_repeat_us : ℕ → C → EventLoop S C → EventHandle × EventLoop S C
    on_repeat_us period_us c l = register (λ i. scheduler.add_periodic i period_us) (λ h. plain c) l

    -- `now_us` is the reading of the clock.
    unfoldable pub on_delay_us : ℕ → ℕ → C → EventLoop S C → EventHandle × EventLoop S C
    on_delay_us now_us delay_us c l =
        register (λ i. scheduler.add_one_shot i (due_at now_us delay_us)) (λ h. one_shot h c) l

    unfoldable pub on_repeat : ℕ → C → EventLoop S C → EventHandle × EventLoop S C
    on_repeat interval_ms c l = on_repeat_us (interval_ms * 1000 % 2 ^ 64) c l

    unfoldable pub on_delay : ℕ → ℕ → C → EventLoop S C → EventHandle × EventLoop S C
    on_delay now_us delay_ms c l = on_delay_us now_us (delay_ms * 1000 % 2 ^ 64) c l

    unfoldable pub on_bytes_ready : Option ℕ → ℕ → C → EventLoop S C → EventHandle × EventLoop S C
    on_bytes_ready fd cooperative_poll_us c l =
        register (register_readiness_or_poll scheduler fd cooperative_poll_us)
          (λ h. when_readable c) l

    unfoldable pub on_pin_event : Option ℕ → ℕ → C → EventLoop S C → EventHandle × EventLoop S C
    on_pin_event fd cooperative_poll_us c l =
        register (register_readiness_or_poll scheduler fd cooperative_poll_us) (λ h. each_event c) l
