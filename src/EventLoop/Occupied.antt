-- ===== src/EventLoop/Occupied.antt =====
-- A slot of an EventLoop whose callable is running.
pub mod Calls
use pypilot_event_loop.Prelude.{
  ℕ, suc, ◌+◌, ◌-◌, ◌%◌, ◌^◌, ◌≤◌, ◌<◌, ◌≡◌, ◌≢◌, refl, ap, ◌∙◌, sym, subst, inl, inr, Bool, true,
  false, not, ◌&&◌, Option, none, some, List, [], ◌∷◌, arith, if◌then◌else◌, Option-cases,
  Bool-cases, length, length-set, set, get_or-set, get_or-set_ne, get_or-set_self, get_or-beyond,
  ltb, ltb→lt, ltb→ge, ◌==◌, ==_iff, add16,
}
use pypilot_event_loop.Task
use pypilot_event_loop.Task.Lifecycle
use pypilot_event_loop.EventLoop.{
  EventHandle, no_handle, Slot, blank, slot_at, first_free, EventLoop, Callable, one_shot,
  Scheduler, put_task, assigned, vacate, allocate, register, release_unregistered,
  release_registered, enable, disable, remove, on_repeat_us, on_delay_us, on_bytes_ready, valid,
}
use pypilot_event_loop.EventLoop.Slots.{SlotValid, AllSlots, IsValid, first_free-lem}
use pypilot_event_loop.EventLoop.Running.{
  Call, enables, disables, removes, repeats, delays, readies, begin_poll, end_poll, call,
  calls_in_order, call-IsValid, begin_poll-IsValid, invoke, poll,
}

module _ {C : Type 0} (c : Callable C) (log : List (Callable C)) (g : ℕ) where
  -- The slot's callable `c` is running, with `log` destroyed before it; `gone` when the slot has
  -- been released since, from the generation `g`.
  pub record RunsIn (gone : Bool) (s : Slot C) : Type 0 where
    pub runs : Lifecycle.Runs c log gone s.task
    pub used : s.used ≡ not gone
    pub generation : s.generation ≡ (if gone then add16 g 1 else g)

  pub set_enabled-RunsIn :
      (gone b : Bool) (s : Slot C)
      → RunsIn gone s
      → RunsIn gone (record s { task = Task.set_enabled s.task b })
  unfolding Task.set_enabled
  set_enabled-RunsIn gone b s r = ground (arith, r.runs)

  pub vacate-RunsIn : (s : Slot C) → RunsIn false s → RunsIn true (vacate s)
  unfolding Task.clear
  vacate-RunsIn s r = ground (arith, r.runs)

  -- A running slot is not filled.
  pub set-RunsIn :
      (gone : Bool) (s : Slot C) (d : Callable C)
      → RunsIn gone s
      → s.used ≡ false
      → ((Task.set s.task d).0 ≡ false) × RunsIn gone (record s { task = (Task.set s.task d).1 })
  unfolding Task.set Task.clear
  set-RunsIn gone s d r free = ground (arith, r.runs)

  module _ (i : ℕ) where
    -- A write to another slot.
    pub elsewhere :
        (gone : Bool) (slots : List (Slot C)) (j : ℕ) (s : Slot C)
        → j ≢ i
        → RunsIn gone (slot_at slots i)
        → RunsIn gone (slot_at (set slots j s) i)
    elsewhere gone slots j s ne r = rw (get_or-set_ne slots j i s blank ne) r

    -- A write that would keep the slot.
    pub written :
        (gone : Bool) (slots : List (Slot C)) (j : ℕ) (s : Slot C)
        → RunsIn gone (slot_at slots i)
        → (j ≡ i → RunsIn gone s)
        → RunsIn gone (slot_at (set slots j s) i)
    written gone slots j s r f = elim (Bool-cases ((i == j) && ltb j (length slots))) [
      | inl here ↦ rw (get_or-set slots j i s blank, here) (f (ground (arith, here)))
      | inr other ↦ rw (get_or-set slots j i s blank, other) r
    ]

module _ {C : Type 0} where
  pub begin_poll-RunsIn :
      (s : Slot C) (c : Callable C) (t : Task.CallbackTask (Callable C))
      → Task.begin_poll s.task ≡ some (c, t)
      → SlotValid s
      → RunsIn c s.task.destroyed s.generation false (record s { task = t })
  unfolding Task.begin_poll
  begin_poll-RunsIn s c t e v = ground (arith, e, v.task)
