-- ===== src/Libevent/Safety.antt =====
-- The invariant of LinuxLibeventLoop in async_event_loop_linux/libevent_loop.hpp that its calls and
-- callbacks keep: what the items own and what has been freed is what has been made.
use pypilot_event_loop.Prelude.{
  ℕ, ◌+◌, ◌-◌, ◌≤◌, ◌==◌, Bool, true, false, ◌&&◌, Option, none, some, List, [], ◌∷◌, ◌≡◌, refl,
  ltb, add64, ◌∙◌, if◌then◌else◌, arith, ==_refl,
}
use pypilot_event_loop.Libevent.{
  Timer, Command, makes, arms, watches, Loop, new, Timeval, timeval_from_us, compact_removed,
  compact_all, compact_removed_events, item, insert, add_periodic, add_one_shot, add_fd, remove,
  remove_fd, push_periodic, push_one_shot, push_fd, names,
}
use pypilot_event_loop.Libevent.Ledger.{
  made, freed, IsAlive, IsSound, owned, freed_le_made, owned-append, owned-mark,
  compact_removed-Balances,
}

abbrev pub owned_by : ℕ → Loop → ℕ
owned_by id l = owned id l.periodic_events + (owned id l.one_shot_events + owned id l.fd_events)

-- At every address: an event is made at most once, and the events made are those that an item
-- owns and those that have been freed.
unfoldable pub IsBalanced : Loop → Type 0
IsBalanced l =
    IsSound l.log
    × ((id : ℕ)
        → (made id l.log ≡ owned_by id l + freed id l.log) × (l.next_id ≤ id → made id l.log ≡ 0))

pub new-IsBalanced : (valid : Bool) → IsBalanced (new valid)
unfolding IsBalanced
new-IsBalanced valid = (tt, λ id. (refl, λ _. refl))

pub compact_all-IsBalanced : (l : Loop) → IsBalanced l → IsBalanced (compact_all l)
unfolding IsBalanced compact_all
compact_all-IsBalanced l (s, h) =
    let b1 =
      compact_removed-Balances l.periodic_events l.log s (λ id. let x = (h id).0 in omega arith) in
    let out1 = compact_removed l.periodic_events l.log in
    let b2 =
      compact_removed-Balances l.one_shot_events out1.1 b1.0
        (λ id. let x = (h id).0 in let y = b1.1 id in omega arith) in
    let out2 = compact_removed l.one_shot_events out1.1 in
    let b3 =
      compact_removed-Balances l.fd_events out2.1 b2.0
        (λ id. let x = (h id).0 in let y = b1.1 id in let z = b2.1 id in omega arith) in
    (
      b3.0,
      λ id.
          let x = h id in
          let y = b1.1 id in
          let z = b2.1 id in let w = b3.1 id in (omega arith, λ le. w.1 ∙ z.1 ∙ y.1 ∙ x.1 le),
    )

pub compact_removed_events-IsBalanced :
    (l : Loop) → IsBalanced l → IsBalanced (compact_removed_events l)
unfolding compact_removed_events
compact_removed_events-IsBalanced l h =
    elim (l.callback_depth == 0) as (λ b. IsBalanced (if b then compact_all l else l)) [
      | true ↦ compact_all-IsBalanced l h
      | false ↦ h
    ]

-- A command about a live event that neither makes nor frees it.
abbrev IsUse : ℕ → Command → Type 0
IsUse i c =
    (log : List Command)
    → (IsAlive i log → IsSound log → IsSound (c ∷ log))
      × ((id : ℕ) → (made id (c ∷ log) ≡ made id log) × (freed id (c ∷ log) ≡ freed id log))

arms-IsUse : (i : ℕ) (tv : Timeval) → IsUse i (arms i tv)
arms-IsUse i tv log = (λ a s. (a, s), λ id. (refl, refl))

watches-IsUse : (i fd : ℕ) → IsUse i (watches i fd)
watches-IsUse i fd log = (λ a s. (a, s), λ id. (refl, refl))

pub makes-IsAlive : (l : Loop) → IsBalanced l → IsAlive l.next_id (makes l.next_id ∷ l.log)
unfolding IsBalanced
makes-IsAlive l (s, h) =
    let fresh = (h l.next_id).1 (omega arith) in
    let le = (freed_le_made l.log s l.next_id).0 in let r = ==_refl l.next_id in ground arith

pub insert-IsBalanced :
    (push : Loop → Loop) (m a : Bool) (c : Command) (l : Loop)
    → IsUse l.next_id c
    → ((id : ℕ) → owned_by id (push l) ≡ owned_by id l + (if l.next_id == id then 1 else 0))
    → IsBalanced l
    → IsBalanced (insert push m a c l).1
unfolding IsBalanced
insert-IsBalanced push false a c l u p (s, h) = (s, λ id. ((h id).0, λ le. (h id).1 (omega arith)))
insert-IsBalanced push true false c l u p (s, h) =
    let i = l.next_id in
    let alive = makes-IsAlive l (s, h) in
    ((alive, ((h i).1 (omega arith), s)), λ id. let x = h id in (ground arith, λ le. ground arith))
insert-IsBalanced push true true c l u p (s, h) =
    let i = l.next_id in
    let alive = makes-IsAlive l (s, h) in
    let used = u (makes i ∷ l.log) in
    (
      used.0 alive ((h i).1 (omega arith), s),
      λ id. let x = h id in let y = p id in let z = used.1 id in (ground arith, λ le. ground arith),
    )

push_periodic-owned :
    (l : Loop) (task : ℕ) (d : Timer) (id : ℕ)
    → owned_by id (push_periodic (item l task d) l)
      ≡ owned_by id l + (if l.next_id == id then 1 else 0)
push_periodic-owned l task d id =
    let x = owned-append id l.periodic_events (item l task d ∷ []) in ground arith

push_one_shot-owned :
    (l : Loop) (task : ℕ) (d : Timer) (id : ℕ)
    → owned_by id (push_one_shot (item l task d) l)
      ≡ owned_by id l + (if l.next_id == id then 1 else 0)
push_one_shot-owned l task d id =
    let x = owned-append id l.one_shot_events (item l task d ∷ []) in ground arith

push_fd-owned :
    (l : Loop) (task : ℕ) (d : ℕ) (id : ℕ)
    → owned_by id (push_fd (item l task d) l) ≡ owned_by id l + (if l.next_id == id then 1 else 0)
push_fd-owned l task d id = let x = owned-append id l.fd_events (item l task d ∷ []) in ground arith

if-IsBalanced :
    (b : Bool) (x y : Bool × Loop)
    → IsBalanced x.1
    → IsBalanced y.1
    → IsBalanced (if b then x else y).1
if-IsBalanced true x y h k = h
if-IsBalanced false x y h k = k

pub add_periodic-IsBalanced :
    (m a : Bool) (now_us task period_us : ℕ) (l : Loop)
    → IsBalanced l
    → IsBalanced (add_periodic m a now_us task period_us l).1
unfolding add_periodic
add_periodic-IsBalanced m a now_us task period_us l0 h =
    let tv = timeval_from_us period_us in
    let d : Timer = record {
      period_us = period_us;
      next_due_us = add64 now_us period_us;
      periodic = true;
    } in
    let l = compact_removed_events l0 in
    let h' = compact_removed_events-IsBalanced l0 h in
    if-IsBalanced _ (false, l) _ h'
      (insert-IsBalanced (push_periodic (item l task d)) m a (arms l.next_id tv) l
        (arms-IsUse l.next_id tv) (push_periodic-owned l task d) h')

pub add_one_shot-IsBalanced :
    (m a : Bool) (now_us task due_us : ℕ) (l : Loop)
    → IsBalanced l
    → IsBalanced (add_one_shot m a now_us task due_us l).1
unfolding add_one_shot
add_one_shot-IsBalanced m a now_us task due_us l0 h =
    let tv = timeval_from_us (if ltb now_us due_us then due_us - now_us else 0) in
    let d : Timer = record { period_us = 0; next_due_us = due_us; periodic = false } in
    let l = compact_removed_events l0 in
    let h' = compact_removed_events-IsBalanced l0 h in
    if-IsBalanced _ (false, l) _ h'
      (insert-IsBalanced (push_one_shot (item l task d)) m a (arms l.next_id tv) l
        (arms-IsUse l.next_id tv) (push_one_shot-owned l task d) h')

pub add_fd-IsBalanced :
    (m a : Bool) (fd : Option ℕ) (task : ℕ) (l : Loop)
    → IsBalanced l
    → IsBalanced (add_fd m a fd task l).1
unfolding add_fd
add_fd-IsBalanced m a none task l h = compact_removed_events-IsBalanced l h
add_fd-IsBalanced m a (some fd) task l0 h =
    let l = compact_removed_events l0 in
    let h' = compact_removed_events-IsBalanced l0 h in
    if-IsBalanced _ (false, l) _ h'
      (insert-IsBalanced (push_fd (item l task fd)) m a (watches l.next_id fd) l
        (watches-IsUse l.next_id fd) (push_fd-owned l task fd) h')

pub remove-IsBalanced : (task : ℕ) (l : Loop) → IsBalanced l → IsBalanced (remove task l).1
unfolding remove IsBalanced
remove-IsBalanced task l (s, h) = compact_removed_events-IsBalanced _ (
  s,
  λ id.
      let a = owned-mark id (λ e. names task e.task) l.periodic_events in
      let b = owned-mark id (λ e. names task e.task) l.one_shot_events in
      let c = owned-mark id (λ e. names task e.task) l.fd_events in
      let x = h id in (omega arith, x.1),
)

pub remove_fd-IsBalanced :
    (fd task : ℕ) (l : Loop) → IsBalanced l → IsBalanced (remove_fd fd task l).1
unfolding remove_fd IsBalanced
remove_fd-IsBalanced fd task l (s, h) = compact_removed_events-IsBalanced _ (
  s,
  λ id.
      let a = owned-mark id (λ e. (e.detail == fd) && names task e.task) l.fd_events in
      let x = h id in (omega arith, x.1),
)
