-- ===== src/Libevent/Deferred.antt =====
-- The calls of a polled task in async_event_loop_linux/libevent_loop.hpp: the compaction is put off
-- until the callback has left, so the items stay where the callback finds them.
use pypilot_event_loop.Prelude.{
  ℕ, suc, ◌+◌, ◌-◌, ◌≤◌, ◌==◌, Bool, true, false, not, ◌||◌, Option, none, some, List, [], ◌∷◌,
  ◌++◌, ◌≡◌, refl, sym, ap, ap₂, inl, inr, Bool-cases, subst, ◌∙◌, if◌then◌else◌, arith, ltb, add64,
}
use pypilot_event_loop.Libevent.{
  Entry, Timer, Command, arms, watches, Loop, timeval_from_us, names, mark, find, compact_all,
  compact_removed_events, item, insert, push_periodic, push_one_shot, push_fd, add_periodic,
  add_one_shot, add_fd, remove, remove_fd,
}
use pypilot_event_loop.Libevent.Ledger.{owned}
use pypilot_event_loop.Libevent.Calls.{
  Call, adds_periodic, adds_one_shot, adds_fd, removes, removes_fd, call, calls, or_else,
  find_timer,
}

abbrev pub has : {X : Type 0} → ℕ → List (Entry X) → Bool
has id [] = false
has id (e ∷ es) = (e.id == id) || has id es

abbrev pub has_timer : ℕ → Loop → Bool
has_timer id l = has id l.periodic_events || has id l.one_shot_events

has-append :
    {X : Type 0} (id : ℕ) (es fs : List (Entry X)) → has id es ≡ true → has id (es ++ fs) ≡ true
has-append id [] fs h = ground arith
has-append id (e ∷ es) fs h = let ih = has-append id es fs in ground arith

has-mark :
    {X : Type 0} (id : ℕ) (test : Entry X → Bool) (es : List (Entry X))
    → has id (mark test es).1 ≡ has id es
has-mark id test [] = refl
has-mark id test (e ∷ es) =
    elim (test e)
      as (λ b.
        ((if b then record e { removed = true; task = none } else e).id == id)
          || has id (mark test es).1
        ≡ (e.id == id) || has id es) [
          | true ↦ ap (λ b. (e.id == id) || b) (has-mark id test es)
          | false ↦ ap (λ b. (e.id == id) || b) (has-mark id test es)
        ]

pub owned-has : {X : Type 0} (id : ℕ) (es : List (Entry X)) → 1 ≤ owned id es → has id es ≡ true
owned-has id [] h = ground arith
owned-has id (e ∷ es) h = let ih = owned-has id es in ground arith

pub has_not-owned :
    {X : Type 0} (id : ℕ) (es : List (Entry X)) → has id es ≡ false → owned id es ≡ 0
has_not-owned id [] h = refl
has_not-owned id (e ∷ es) h = let ih = has_not-owned id es in ground arith

pub owned-has_timer :
    (id : ℕ) (l : Loop)
    → 1 ≤ owned id l.periodic_events + owned id l.one_shot_events
    → has_timer id l ≡ true
owned-has_timer id l h = elim (Bool-cases (has id l.periodic_events)) [
  | inl p ↦ ap (λ b. b || has id l.one_shot_events) p
  | inr p ↦
      let z = has_not-owned id l.periodic_events p in
      let q = owned-has id l.one_shot_events (omega arith) in ap₂ ◌||◌ p q
]

-- What a search comes back with, and that the item owns its event.
abbrev pub Finds : {X : Type 0} → ℕ → Option (Entry X) → ℕ → Type 0
Finds {X} id o n = (e : Entry X) × ((o ≡ some e) × ((e.id ≡ id) × (e.ev ≡ true → 1 ≤ n)))

pub has-Finds :
    {X : Type 0} (id : ℕ) (es : List (Entry X))
    → has id es ≡ true
    → Finds id (find id es) (owned id es)
has-Finds id [] h = ground arith
has-Finds {X} id (e ∷ es) h = elim (Bool-cases (e.id == id)) [
  | inl p ↦ (e, (ap (λ b. if b then some e else find id es) p, (ground arith, λ ev. ground arith)))
  | inr p ↦
      let tail : has id es ≡ true = ground arith in
      let (f, (found, (same, owns_it))) = has-Finds id es tail in
      (
        f,
        (
          ap (λ b. if b then some e else find id es) p ∙ found,
          (same, λ ev. let x = owns_it ev in omega arith),
        ),
      )
]

has_not-find : {X : Type 0} (id : ℕ) (es : List (Entry X)) → has id es ≡ false → find id es ≡ none
has_not-find id [] h = refl
has_not-find {X} id (e ∷ es) h =
    let here : (e.id == id) ≡ false = ground arith in
    let tail : has id es ≡ false = ground arith in
    ap (λ b. if b then some e else find id es) here ∙ has_not-find id es tail

-- A timer is found in the list that has it.
pub has_timer-Finds :
    (id : ℕ) (l : Loop)
    → has_timer id l ≡ true
    → Finds id (find_timer id l) (owned id l.periodic_events + owned id l.one_shot_events)
has_timer-Finds id l h = elim (Bool-cases (has id l.periodic_events)) [
  | inl p ↦
      let (e, (found, (same, owns_it))) = has-Finds id l.periodic_events p in
      (
        e,
        (
          ap (λ o. or_else o (find id l.one_shot_events)) found,
          (same, λ ev. let x = owns_it ev in omega arith),
        ),
      )
  | inr p ↦
      let tail : has id l.one_shot_events ≡ true = ground arith in
      let (e, (found, (same, owns_it))) = has-Finds id l.one_shot_events tail in
      let gone = has_not-find id l.periodic_events p in
      (
        e,
        (
          ap (λ o. or_else o (find id l.one_shot_events)) gone ∙ found,
          (same, λ ev. let x = owns_it ev in omega arith),
        ),
      )
]

pub compact_removed_events-deferred :
    (l : Loop) (n : ℕ) → l.callback_depth ≡ suc n → compact_removed_events l ≡ l
unfolding compact_removed_events
compact_removed_events-deferred l n h =
    let busy : (l.callback_depth == 0) ≡ false = ground arith in
    ap (λ b. if b then compact_all l else l) busy

pub compact_removed_events-depth :
    (l : Loop) → (compact_removed_events l).callback_depth ≡ l.callback_depth
unfolding compact_removed_events compact_all
compact_removed_events-depth l =
    elim (l.callback_depth == 0)
      as (λ b. (if b then compact_all l else l).callback_depth ≡ l.callback_depth) [
        | true ↦ refl
        | false ↦ refl
      ]

-- What a call in a callback leaves as it is: the depth, and the timers in the lists.
abbrev pub Keeps : Loop → Loop → Type 0
Keeps l l' =
    (l'.callback_depth ≡ l.callback_depth)
    × ((id : ℕ) → has_timer id l ≡ true → has_timer id l' ≡ true)

if-Keeps :
    (l0 : Loop) (b : Bool) (x y : Bool × Loop)
    → Keeps l0 x.1
    → Keeps l0 y.1
    → Keeps l0 (if b then x else y).1
if-Keeps l0 true x y h k = h
if-Keeps l0 false x y h k = k

insert-Keeps :
    (push : Loop → Loop) (m a : Bool) (c : Command) (l : Loop)
    → Keeps l (push l)
    → Keeps l (insert push m a c l).1
insert-Keeps push false a c l k = (refl, λ id h. h)
insert-Keeps push true false c l k = (refl, λ id h. h)
insert-Keeps push true true c l k = k

compact_first :
    (l : Loop) (n : ℕ)
    → l.callback_depth ≡ suc n
    → (f : Loop → Bool × Loop) → ((x : Loop) → Keeps x (f x).1)
    → Keeps l (f (compact_removed_events l)).1
compact_first l n d f h =
    subst (λ x. Keeps l (f x).1) (sym (compact_removed_events-deferred l n d)) (h l)

compact_last :
    (l l' : Loop) (n : ℕ)
    → l.callback_depth ≡ suc n
    → Keeps l l'
    → Keeps l (compact_removed_events l')
compact_last l l' n d h = subst (Keeps l) (sym (compact_removed_events-deferred l' n (h.0 ∙ d))) h

pub call-Keeps : (c : Call) (l : Loop) (n : ℕ) → l.callback_depth ≡ suc n → Keeps l (call c l)
unfolding add_periodic add_one_shot add_fd remove remove_fd
call-Keeps (adds_periodic m a now_us task period_us) l n d =
    let t : Timer = record {
      period_us = period_us;
      next_due_us = add64 now_us period_us;
      periodic = true;
    } in
    compact_first l n d
      (λ x.
        if not x.valid || period_us == 0
        then (false, x)
        else insert (push_periodic (item x task t)) m a (arms x.next_id (timeval_from_us period_us))
            x)
      (λ x.
        if-Keeps x _ (false, x) _ (refl, λ id h. h)
          (insert-Keeps (push_periodic (item x task t)) m a
            (arms x.next_id (timeval_from_us period_us)) x
            (
              refl,
              λ id h. let k = has-append id x.periodic_events (item x task t ∷ []) in ground arith,
            )))
call-Keeps (adds_one_shot m a now_us task due_us) l n d =
    let tv = timeval_from_us (if ltb now_us due_us then due_us - now_us else 0) in
    let t : Timer = record { period_us = 0; next_due_us = due_us; periodic = false } in
    compact_first l n d
      (λ x.
        if not x.valid
        then (false, x)
        else insert (push_one_shot (item x task t)) m a (arms x.next_id tv) x)
      (λ x.
        if-Keeps x _ (false, x) _ (refl, λ id h. h)
          (insert-Keeps (push_one_shot (item x task t)) m a (arms x.next_id tv) x (
            refl,
            λ id h. let k = has-append id x.one_shot_events (item x task t ∷ []) in ground arith,
          )))
call-Keeps (adds_fd m a none task) l n d = compact_last l l n d (refl, λ id h. h)
call-Keeps (adds_fd m a (some fd) task) l n d =
    compact_first l n d
      (λ x.
        if not x.valid
        then (false, x)
        else insert (push_fd (item x task fd)) m a (watches x.next_id fd) x)
      (λ x.
        if-Keeps x _ (false, x) _ (refl, λ id h. h)
          (insert-Keeps (push_fd (item x task fd)) m a (watches x.next_id fd) x (refl, λ id h. h)))
call-Keeps (removes task) l n d = compact_last l _ n d (
  refl,
  λ id h.
      let a = has-mark id (λ e. names task e.task) l.periodic_events in
      let b = has-mark id (λ e. names task e.task) l.one_shot_events in ap₂ ◌||◌ a b ∙ h,
)
call-Keeps (removes_fd fd task) l n d = compact_last l _ n d (refl, λ id h. h)

pub calls-Keeps :
    (cs : List Call) (l : Loop) (n : ℕ) → l.callback_depth ≡ suc n → Keeps l (calls cs l)
calls-Keeps [] l n d = (refl, λ id h. h)
calls-Keeps (c ∷ cs) l n d =
    let k = call-Keeps c l n d in
    let ks = calls-Keeps cs (call c l) n (k.0 ∙ d) in (ks.0 ∙ k.0, λ id h. ks.1 id (k.1 id h))

add_depth :
    (b : Bool) (push : Loop → Loop) (m a : Bool) (c : Command) (l : Loop)
    → (push l).callback_depth ≡ l.callback_depth
    → (if b then (false, l) else insert push m a c l).1.callback_depth ≡ l.callback_depth
add_depth true push m a c l k = refl
add_depth false push false a c l k = refl
add_depth false push true false c l k = refl
add_depth false push true true c l k = k

pub call_depth : (c : Call) (l : Loop) → (call c l).callback_depth ≡ l.callback_depth
unfolding add_periodic add_one_shot add_fd remove remove_fd
call_depth (adds_periodic m a now_us task period_us) l0 =
    let l = compact_removed_events l0 in
    let t : Timer = record {
      period_us = period_us;
      next_due_us = add64 now_us period_us;
      periodic = true;
    } in
    add_depth (not l.valid || period_us == 0) (push_periodic (item l task t)) m a
      (arms l.next_id (timeval_from_us period_us)) l refl
    ∙ compact_removed_events-depth l0
call_depth (adds_one_shot m a now_us task due_us) l0 =
    let l = compact_removed_events l0 in
    let tv = timeval_from_us (if ltb now_us due_us then due_us - now_us else 0) in
    let t : Timer = record { period_us = 0; next_due_us = due_us; periodic = false } in
    add_depth (not l.valid) (push_one_shot (item l task t)) m a (arms l.next_id tv) l refl
    ∙ compact_removed_events-depth l0
call_depth (adds_fd m a none task) l = compact_removed_events-depth l
call_depth (adds_fd m a (some fd) task) l0 =
    let l = compact_removed_events l0 in
    add_depth (not l.valid) (push_fd (item l task fd)) m a (watches l.next_id fd) l refl
    ∙ compact_removed_events-depth l0
call_depth (removes task) l = compact_removed_events-depth _
call_depth (removes_fd fd task) l = compact_removed_events-depth _
