-- ===== src/Libevent/Removal.antt =====
-- Removal of a task from LinuxLibeventLoop of async_event_loop_linux/libevent_loop.hpp.
use pypilot_event_loop.Prelude.{
  ℕ, ◌==◌, Bool, true, false, not, ◌&&◌, ◌||◌, Option, none, some, List, [], ◌∷◌, ◌≡◌, refl, sym,
  ap, ap₂, subst, ◌∙◌, ◌≢◌, if◌then◌else◌, arith, inl, inr, Bool-cases,
}
use pypilot_event_loop.Libevent.{
  Entry, Command, Loop, names, mark, compact_removed, compact_all, compact_removed_events, remove,
  frees,
}

-- An item is in use by a task when a callback of its event would poll the task.
abbrev pub uses : {X : Type 0} → ℕ → Entry X → Bool
uses t e = not e.removed && names t e.task

abbrev pub used : {X : Type 0} → ℕ → List (Entry X) → Bool
used t [] = false
used t (e ∷ es) = uses t e || used t es

abbrev pub used_by : ℕ → Loop → Bool
used_by t l = used t l.fd_events || (used t l.one_shot_events || used t l.periodic_events)

names_ne : (t task : ℕ) (o : Option ℕ) → t ≢ task → names task o ≡ true → names t o ≡ false
names_ne t task none ne h = refl
names_ne t task (some u) ne h = ground arith

module _ {X : Type 0} where
  used-compact :
      (t : ℕ) (es : List (Entry X)) (log : List Command)
      → used t (compact_removed es log).0 ≡ used t es
  used-compact t [] log = refl
  used-compact t (e ∷ es) log =
      let log' = if e.ev then frees e.id ∷ log else log in
      elim (Bool-cases e.removed) [
        | inl p ↦
            let ih = used-compact t es log' in
            let unused : uses t e ≡ false = ap (λ b. not b && names t e.task) p in
            subst
              (λ b.
                used t
                  (if b
                    then compact_removed es log'
                    else (e ∷ (compact_removed es log).0, (compact_removed es log).1)).0
                ≡ uses t e || used t es)
              (sym p) (ih ∙ ap (λ b. b || used t es) (sym unused))
        | inr p ↦
            subst
              (λ b.
                used t
                  (if b
                    then compact_removed es log'
                    else (e ∷ (compact_removed es log).0, (compact_removed es log).1)).0
                ≡ uses t e || used t es)
              (sym p) (ap (λ b. uses t e || b) (used-compact t es log))
      ]

  -- What the mark of a task makes of an item.
  marked : ℕ → Entry X → Entry X
  marked task e = if names task e.task then record e { removed = true; task = none } else e

  marked-unused : (t : ℕ) (e : Entry X) → uses t (marked t e) ≡ false
  unfolding marked
  marked-unused t e = elim (Bool-cases (names t e.task)) [
    | inl p ↦
        subst (λ b. uses t (if b then record e { removed = true; task = none } else e) ≡ false)
          (sym p) refl
    | inr p ↦
        subst (λ b. uses t (if b then record e { removed = true; task = none } else e) ≡ false)
          (sym p) (ap (λ b. not e.removed && b) p ∙ ground arith)
  ]

  marked-uses : (t task : ℕ) (e : Entry X) → t ≢ task → uses t (marked task e) ≡ uses t e
  unfolding marked
  marked-uses t task e ne = elim (Bool-cases (names task e.task)) [
    | inl p ↦
        subst (λ b. uses t (if b then record e { removed = true; task = none } else e) ≡ uses t e)
          (sym p) (ground arith ∙ sym (ap (λ b. not e.removed && b) (names_ne t task e.task ne p)))
    | inr p ↦
        subst (λ b. uses t (if b then record e { removed = true; task = none } else e) ≡ uses t e)
          (sym p) refl
  ]

  -- The mark of a task ends its use and no other.
  used-mark : (t : ℕ) (es : List (Entry X)) → used t (mark (λ e. names t e.task) es).1 ≡ false
  unfolding marked
  used-mark t [] = refl
  used-mark t (e ∷ es) = ap₂ ◌||◌ (marked-unused t e) (used-mark t es)

  used-mark_ne :
      (t task : ℕ) (es : List (Entry X))
      → t ≢ task
      → used t (mark (λ e. names task e.task) es).1 ≡ used t es
  unfolding marked
  used-mark_ne t task [] ne = refl
  used-mark_ne t task (e ∷ es) ne = ap₂ ◌||◌ (marked-uses t task e ne) (used-mark_ne t task es ne)

  used-found :
      (t : ℕ) (es : List (Entry X)) → used t es ≡ true → (mark (λ e. names t e.task) es).0 ≡ true
  used-found t [] h = ground arith
  used-found t (e ∷ es) h = let ih = used-found t es in ground arith

used_by-compact : (t : ℕ) (l : Loop) → used_by t (compact_removed_events l) ≡ used_by t l
unfolding compact_removed_events compact_all
used_by-compact t l =
    let log1 = (compact_removed l.periodic_events l.log).1 in
    let log2 = (compact_removed l.one_shot_events log1).1 in
    elim (l.callback_depth == 0)
      as (λ b. used_by t (if b then compact_all l else l) ≡ used_by t l) [
        | true ↦ ap₂ ◌||◌ (used-compact t l.fd_events log2) (
            ap₂ ◌||◌ (used-compact t l.one_shot_events log1)
              (used-compact t l.periodic_events l.log))
        | false ↦ refl
      ]

-- After a task is removed, in a callback or outside, no event polls it any more; the events of
-- every other task poll it as before; and the call reports it if the task was in use.
pub remove-unused :
    (task : ℕ) (l : Loop)
    → (used_by task (remove task l).1 ≡ false)
      × ((t : ℕ) → t ≢ task → used_by t (remove task l).1 ≡ used_by t l)
      × (used_by task l ≡ true → (remove task l).0 ≡ true)
unfolding remove
remove-unused task l = (
  used_by-compact task _
      ∙ ap₂ ◌||◌ (used-mark task l.fd_events)
          (ap₂ ◌||◌ (used-mark task l.one_shot_events) (used-mark task l.periodic_events)),
  λ t ne.
      used_by-compact t _
      ∙ ap₂ ◌||◌ (used-mark_ne t task l.fd_events ne) (
          ap₂ ◌||◌ (used-mark_ne t task l.one_shot_events ne)
            (used-mark_ne t task l.periodic_events ne)),
  λ h.
      let a = used-found task l.fd_events in
      let b = used-found task l.one_shot_events in
      let c = used-found task l.periodic_events in ground arith,
)
