-- ===== src/Libevent/Calls.antt =====
-- The callbacks of LinuxLibeventLoop in async_event_loop_linux/libevent_loop.hpp and what a task
-- may call while it is polled. `none` is the outcome of a callback whose item has been destroyed.
use pypilot_event_loop.Prelude.{
  ℕ, suc, ◌-◌, Bool, true, not, ◌&&◌, ◌||◌, Option, none, some, List, [], ◌∷◌, if◌then◌else◌,
}
use pypilot_event_loop.Libevent.{
  Entry, TimerEvent, FdEvent, Loop, arms, timeval_from_us, next_delay, is_some, find, update,
  compact_removed_events, add_periodic, add_one_shot, add_fd, remove, remove_fd,
}

-- A call of the loop, with the answers of libevent and of the clock.
pub data Call : Type 0 where
  adds_periodic : Bool → Bool → ℕ → ℕ → ℕ → Call
  adds_one_shot : Bool → Bool → ℕ → ℕ → ℕ → Call
  adds_fd : Bool → Bool → Option ℕ → ℕ → Call
  removes : ℕ → Call
  removes_fd : ℕ → ℕ → Call

abbrev pub call : Call → Loop → Loop
call (adds_periodic made added now_us task period_us) l =
    (add_periodic made added now_us task period_us l).1
call (adds_one_shot made added now_us task due_us) l =
    (add_one_shot made added now_us task due_us l).1
call (adds_fd made added fd task) l = (add_fd made added fd task l).1
call (removes task) l = (remove task l).1
call (removes_fd fd task) l = (remove_fd fd task l).1

abbrev pub calls : List Call → Loop → Loop
calls [] l = l
calls (c ∷ cs) l = calls cs (call c l)

abbrev pub enter_callback : Loop → Loop
enter_callback l = record l { callback_depth = suc l.callback_depth }

abbrev pub leave_callback : Loop → Loop
leave_callback l = record l { callback_depth = l.callback_depth - 1 }

-- The timer at an address.
abbrev pub or_else : {A : Type 0} → Option A → Option A → Option A
or_else none o = o
or_else (some a) o = some a

abbrev pub find_timer : ℕ → Loop → Option TimerEvent
find_timer id l = or_else (find id l.periodic_events) (find id l.one_shot_events)

abbrev pub update_timer : ℕ → (TimerEvent → TimerEvent) → Loop → Loop
update_timer id f l = record l {
  periodic_events = update id f l.periodic_events;
  one_shot_events = update id f l.one_shot_events;
}

abbrev pub rearm : TimerEvent → ℕ → Loop → Loop
rearm e now_us l =
    let (delay_us, due_us) = next_delay e.detail.next_due_us e.detail.period_us now_us in
    let l' =
      update_timer e.id (λ x. record x { detail = record x.detail { next_due_us = due_us } }) l in
    record l' { log = arms e.id (timeval_from_us delay_us) ∷ l.log }

-- The end of `timer_callback`, from the leave on.
abbrev pub finish_timer : ℕ → Loop → Option TimerEvent → Option Loop
finish_timer now_us l none = none
finish_timer now_us l (some e) = some (
    compact_removed_events (
      if not e.removed && (e.detail.periodic && e.ev)
      then rearm e now_us l
      else if not e.detail.periodic
      then update_timer e.id (λ x. record x { removed = true; task = none }) l
      else l))

abbrev pub idle : {X : Type 0} → Entry X → Bool
idle e = e.removed || not (is_some e.task)

-- The loop when the task that a callback polls has returned.
abbrev pub polled : List Call → Loop → Loop
polled cs l = leave_callback (calls cs (enter_callback l))

abbrev pub fire_timer : ℕ → ℕ → List Call → Loop → Option TimerEvent → Option Loop
fire_timer id now_us cs l none = none
fire_timer id now_us cs l (some e) =
    let l' = polled cs l in if idle e then some l else finish_timer now_us l' (find_timer id l')

abbrev pub fire_fd : List Call → Loop → Option FdEvent → Option Loop
fire_fd cs l none = none
fire_fd cs l (some e) = some (if idle e then l else compact_removed_events (polled cs l))

-- `cs` are the calls of the polled task, `now_us` is the clock after it.
unfoldable pub timer_callback : ℕ → ℕ → List Call → Loop → Option Loop
timer_callback id now_us cs l = fire_timer id now_us cs l (find_timer id l)

unfoldable pub fd_callback : ℕ → List Call → Loop → Option Loop
fd_callback id cs l = fire_fd cs l (find id l.fd_events)

-- `run_once` and `run_forever`: `after` is the loop when libevent comes back.
unfoldable pub run_once : Loop → Loop → Loop
run_once after l = if l.valid then compact_removed_events after else l
