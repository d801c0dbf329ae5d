-- ===== src/Libevent.antt =====
-- LinuxLibeventLoop of async_event_loop_linux/libevent_loop.hpp. libevent itself is a parameter:
-- whether its calls succeed is an argument, and what the loop asks of it is a log of commands.
mod Calls
mod Ledger
mod Safety
mod Deferred
mod Callbacks
mod Reachable
mod Removal
mod Rate
mod Tests
use pypilot_event_loop.Prelude.{
  ℕ, suc, ◌+◌, ◌-◌, ◌/◌, ◌%◌, Bool, true, false, not, ◌&&◌, ◌||◌, Option, none, some, List, [], ◌∷◌,
  ◌++◌, ltb, ◌==◌, if◌then◌else◌, add64,
}

pub record Timeval : Type 0 where
  pub tv_sec : ℕ
  pub tv_usec : ℕ

unfoldable pub timeval_from_us : ℕ → Timeval
timeval_from_us us = record { tv_sec = us / 1000000; tv_usec = us % 1000000 }

-- `periodic_timer_next_delay_us`: the delay, and the new value of `next_due_us`.
unfoldable pub next_delay : ℕ → ℕ → ℕ → ℕ × ℕ
next_delay next_due_us period_us now_us =
    let overdue_us = if ltb next_due_us now_us then now_us - next_due_us else 0 in
    (if ltb overdue_us period_us then period_us - overdue_us else 0, add64 next_due_us period_us)

-- The common part of TimerEvent and FdEvent: `id` is the address of the item, `ev` says that the
-- pointer to its libevent event is not null, `detail` are the other fields.
pub record Entry (X : Type 0) : Type 0 where
  pub id : ℕ
  pub task : Option ℕ
  pub ev : Bool
  pub removed : Bool
  pub detail : X

pub record Timer : Type 0 where
  pub period_us : ℕ
  pub next_due_us : ℕ
  pub periodic : Bool

abbrev pub TimerEvent : Type 0
TimerEvent = Entry Timer

-- The detail is the descriptor.
abbrev pub FdEvent : Type 0
FdEvent = Entry ℕ

-- What the loop asks of libevent for the event of an item.
pub data Command : Type 0 where
  makes : ℕ → Command
  arms : ℕ → Timeval → Command
  watches : ℕ → ℕ → Command
  frees : ℕ → Command

-- `valid` says that `base_` is not null; `next_id` is the next address, `log` the commands so far,
-- the latest first.
pub record Loop : Type 0 where
  pub valid : Bool
  pub periodic_events : List TimerEvent
  pub one_shot_events : List TimerEvent
  pub fd_events : List FdEvent
  pub callback_depth : ℕ
  pub next_id : ℕ
  pub log : List Command

abbrev pub new : Bool → Loop
new valid = record {
  valid = valid;
  periodic_events = [];
  one_shot_events = [];
  fd_events = [];
  callback_depth = 0;
  next_id = 0;
  log = [];
}

abbrev pub is_some : Option ℕ → Bool
is_some none = false
is_some (some t) = true

abbrev pub names : ℕ → Option ℕ → Bool
names task none = false
names task (some t) = t == task

module _ {X : Type 0} where
  -- `mark_timer_events_removed` and `mark_fd_events_removed`, for the items that `test` picks.
  abbrev pub mark : (Entry X → Bool) → List (Entry X) → Bool × List (Entry X)
  mark test [] = (false, [])
  mark test (e ∷ es) =
      let (found, es') = mark test es in
      (test e || found, (if test e then record e { removed = true; task = none } else e) ∷ es')

  -- `compact_removed_timer_events` and `compact_removed_fd_events`.
  abbrev pub compact_removed : List (Entry X) → List Command → List (Entry X) × List Command
  compact_removed [] log = ([], log)
  compact_removed (e ∷ es) log =
      let dropped = compact_removed es (if e.ev then frees e.id ∷ log else log) in
      let kept = compact_removed es log in if e.removed then dropped else (e ∷ kept.0, kept.1)

  -- `free_timer_events` and `free_fd_events`.
  abbrev pub free_events : List (Entry X) → List Command → List Command
  free_events [] log = log
  free_events (e ∷ es) log = free_events es (if e.ev then frees e.id ∷ log else log)

  -- The item at an address, and a write to it.
  abbrev pub find : ℕ → List (Entry X) → Option (Entry X)
  find id [] = none
  find id (e ∷ es) = if e.id == id then some e else find id es

  abbrev pub update : ℕ → (Entry X → Entry X) → List (Entry X) → List (Entry X)
  update id f [] = []
  update id f (e ∷ es) = (if e.id == id then f e else e) ∷ update id f es

unfoldable pub compact_all : Loop → Loop
compact_all l =
    let (ps, log1) = compact_removed l.periodic_events l.log in
    let (os, log2) = compact_removed l.one_shot_events log1 in
    let (fs, log3) = compact_removed l.fd_events log2 in
    record l { periodic_events = ps; one_shot_events = os; fd_events = fs; log = log3 }

unfoldable pub compact_removed_events : Loop → Loop
compact_removed_events l = if l.callback_depth == 0 then compact_all l else l

-- The fields of the item that an add makes.
abbrev pub item : {X : Type 0} → Loop → ℕ → X → Entry X
item l task detail = record {
  id = l.next_id;
  task = some task;
  ev = true;
  removed = false;
  detail = detail;
}

abbrev pub push_periodic : TimerEvent → Loop → Loop
push_periodic e l = record l { periodic_events = l.periodic_events ++ e ∷ [] }

abbrev pub push_one_shot : TimerEvent → Loop → Loop
push_one_shot e l = record l { one_shot_events = l.one_shot_events ++ e ∷ [] }

abbrev pub push_fd : FdEvent → Loop → Loop
push_fd e l = record l { fd_events = l.fd_events ++ e ∷ [] }

-- The end of each add behind its guards: `made` says that libevent made the event, `added` that it
-- took it. An item whose event was made and not taken is freed at once.
abbrev pub insert : (Loop → Loop) → Bool → Bool → Command → Loop → Bool × Loop
insert push made added command l =
    if not made
    then (false, record l { next_id = suc l.next_id })
    else if not added
    then (
      false,
      record l { next_id = suc l.next_id; log = frees l.next_id ∷ makes l.next_id ∷ l.log },
    )
    else (
      true,
      record (push l) { next_id = suc l.next_id; log = command ∷ makes l.next_id ∷ l.log },
    )

-- `made` and `added` are the answers of libevent, `now_us` is the reading of the clock.
unfoldable pub add_periodic : Bool → Bool → ℕ → ℕ → ℕ → Loop → Bool × Loop
add_periodic made added now_us task period_us l0 =
    let l = compact_removed_events l0 in
    let e =
      item l task
        (record { period_us = period_us; next_due_us = add64 now_us period_us; periodic = true }) in
    if not l.valid || period_us == 0
    then (false, l)
    else insert (push_periodic e) made added (arms l.next_id (timeval_from_us period_us)) l

unfoldable pub add_one_shot : Bool → Bool → ℕ → ℕ → ℕ → Loop → Bool × Loop
add_one_shot made added now_us task due_us l0 =
    let l = compact_removed_events l0 in
    let e = item l task (record { period_us = 0; next_due_us = due_us; periodic = false }) in
    let delta_us = if ltb now_us due_us then due_us - now_us else 0 in
    if not l.valid
    then (false, l)
    else insert (push_one_shot e) made added (arms l.next_id (timeval_from_us delta_us)) l

-- `add_fd`, `add_readable_fd` and `add_writable_fd`; `fd`: `none` for a negative descriptor.
unfoldable pub add_fd : Bool → Bool → Option ℕ → ℕ → Loop → Bool × Loop
add_fd made added none task l0 = (false, compact_removed_events l0)
add_fd made added (some fd) task l0 =
    let l = compact_removed_events l0 in
    let e = item l task fd in
    if not l.valid then (false, l) else insert (push_fd e) made added (watches l.next_id fd) l

unfoldable pub remove : ℕ → Loop → Bool × Loop
remove task l =
    let (a, ps) = mark (λ e. names task e.task) l.periodic_events in
    let (b, os) = mark (λ e. names task e.task) l.one_shot_events in
    let (c, fs) = mark (λ e. names task e.task) l.fd_events in
    let l' = record l { periodic_events = ps; one_shot_events = os; fd_events = fs } in
    (c || (b || a), compact_removed_events l')

unfoldable pub remove_fd : ℕ → ℕ → Loop → Bool × Loop
remove_fd fd task l =
    let (a, fs) = mark (λ e. (e.detail == fd) && names task e.task) l.fd_events in
    (a, compact_removed_events (record l { fd_events = fs }))

-- The destructor.
unfoldable pub destroy : Loop → Loop
destroy l = record l {
  valid = false;
  periodic_events = [];
  one_shot_events = [];
  fd_events = [];
  log =
      free_events l.fd_events (free_events l.one_shot_events (free_events l.periodic_events l.log));
}
