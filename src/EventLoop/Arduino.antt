-- ===== src/EventLoop/Arduino.antt =====
-- The EventLoop over the cooperative scheduler, as native.hpp selects it on Arduino.
use pypilot_event_loop.Prelude.{
  ℕ, ◌≡◌, refl, sym, subst, ap, ◌∙◌, inl, inr, Bool, true, false, ◌||◌, some, List, [], ◌∷◌, ◌++◌,
  map, arith, Bool-cases, Option-cases,
}
use pypilot_event_loop.ArduinoLoop
use pypilot_event_loop.ArduinoLoop.{TaskSlot, ArduinoLoop, names, unlink}
use pypilot_event_loop.ArduinoLoop.Compact
use pypilot_event_loop.ArduinoLoop.Compact.{contents, keep_live}
use pypilot_event_loop.ArduinoLoop.Registry.{without, has, add_lem, remove-Removes}
use pypilot_event_loop.EventLoop.{
  EventHandle, assigned, EventLoop, Callable, Scheduler, plain, valid, allocate, first_free,
  register, release_registered, remove, on_repeat_us,
}
use pypilot_event_loop.EventLoop.Slots.{IsValid}
use pypilot_event_loop.EventLoop.Handles.{Gives}
use pypilot_event_loop.EventLoop.Registration.{register_lem}
use pypilot_event_loop.EventLoop.Removal.{remove_lem, Removes}

-- The operations of IScheduler on the tasks of the slots; the cooperative scheduler has no
-- descriptors.
abbrev pub arduino : ℕ → Scheduler ArduinoLoop
arduino now_us = record {
  add_periodic = λ i period_us l. ArduinoLoop.add_periodic now_us i period_us l;
  add_one_shot = λ i due_us l. ArduinoLoop.add_one_shot i due_us l;
  add_readable = λ i fd l. (false, l);
  remove = λ i l. ArduinoLoop.remove i l;
}

has-append :
    (t : ℕ) (ss : List TaskSlot) (s : TaskSlot)
    → has t (ss ++ s ∷ []) ≡ (has t ss || names t s.task)
has-append t [] s = ground (arith, Bool-cases (names t s.task))
has-append t (r ∷ ss) s = ground (arith, has-append t ss s, Bool-cases (names t r.task))

has-without : (t : ℕ) (ss : List TaskSlot) → has t (without t ss) ≡ false
has-without t [] = refl
has-without t (s ∷ ss) = elim (Bool-cases (names t s.task)) [
  | inl it ↦ ground (arith, it, has-without t ss)
  | inr other ↦ ground (arith, other, has-without t ss)
]

has-unlink : (t : ℕ) (ss : List TaskSlot) → has t (map (unlink t) ss) ≡ false
has-unlink t [] = refl
has-unlink t (s ∷ ss) = elim (Bool-cases (names t s.task)) [
  | inl it ↦ ground (arith, it, has-unlink t ss)
  | inr other ↦ ground (arith, other, has-unlink t ss)
]

module _ {C : Type 0} (max_tasks now_us : ℕ) where
  -- On a valid loop and scheduler, a removal by a valid handle whose task is scheduled succeeds, in
  -- a round of the scheduler as outside of one: the handle is no longer valid, and the scheduler has
  -- no entry of its task, so that it will not be called again.
  pub remove-unscheduled :
      (l : EventLoop ArduinoLoop C) (h : EventHandle)
      → IsValid l
      → Compact.IsValid max_tasks l.scheduler
      → valid l h ≡ true
      → has h.slot (contents l.scheduler) ≡ true
      → let (removed, l') = remove (arduino now_us) l h in
        (removed ≡ true) × (valid l' h ≡ false) × (has h.slot (contents l'.scheduler) ≡ false)
  unfolding Removes remove release_registered
  remove-unscheduled l h v k live scheduled =
      let (removed, l') = remove (arduino now_us) l h in
      let (k', f, e, r) = remove-Removes max_tasks h.slot l.scheduler k in
      let x : (removed ≡ true) × (l'.scheduler ≡ (ArduinoLoop.remove h.slot l.scheduler).1) =
        (let did : (ArduinoLoop.remove h.slot l.scheduler).0 ≡ true = f ∙ scheduled in
          ground (arith, live, did)) in
      let gone : has h.slot (contents (ArduinoLoop.remove h.slot l.scheduler).1) ≡ false =
        ap (has h.slot) e
        ∙ ground (
          arith,
          Bool-cases l.scheduler.running,
          has-unlink h.slot (contents l.scheduler),
          has-without h.slot (keep_live (contents l.scheduler)),
        ) in
      let dead : valid l' h ≡ false = elim (remove_lem (arduino now_us) l h v).1 [
        | inl (did, was, f') ↦ f'.gone
        | inr (kept, same) ↦ absurd (ground (arith, x.0, kept))
      ] in
      (x.0, dead, ap (λ s. has h.slot (contents s)) x.1 ∙ gone)

  allocate-scheduler :
      (callable : EventHandle → Callable C) (l : EventLoop ArduinoLoop C)
      → (allocate callable l).1.scheduler ≡ l.scheduler
  unfolding allocate
  allocate-scheduler callable l = elim (Option-cases (first_free 0 l.slots)) [
    | inl full ↦ ground (arith, full)
    | inr (i, found) ↦ ground (arith, found)
  ]

  -- On a valid loop and scheduler, a repeating callback that gets a handle has an entry of its task
  -- in the scheduler, and the handle is valid.
  pub on_repeat-scheduled :
      (period_us : ℕ) (c : C) (l : EventLoop ArduinoLoop C)
      → IsValid l
      → Compact.IsValid max_tasks l.scheduler
      → assigned (on_repeat_us (arduino now_us) period_us c l).0 ≡ true
      → let (h, l') = on_repeat_us (arduino now_us) period_us c l in
        (valid l' h ≡ true) × (has h.slot (contents l'.scheduler) ≡ true)
  unfolding on_repeat_us register Gives
  on_repeat-scheduled period_us c l v k named =
      let add : ℕ → ArduinoLoop → Bool × ArduinoLoop =
        λ i s. ArduinoLoop.add_periodic now_us i period_us s in
      let (h, l') = allocate {S = ArduinoLoop} (λ h'. plain c) l in
      let (added, s) = add h.slot l'.scheduler in
      let l'' = record l' { scheduler = s } in
      let k' = subst (Compact.IsValid max_tasks) (sym (allocate-scheduler (λ h'. plain c) l)) k in
      let (k'', room, entries, r) =
        (add_lem max_tasks now_us h.slot period_us 0 l'.scheduler k').0 in
      elim (Bool-cases (assigned h)) [
        | inr unassigned ↦ absurd (ground (arith, named, unassigned))
        | inl is_assigned ↦ elim (Bool-cases added) [
          | inr refused ↦ absurd (ground (arith, named, is_assigned, refused))
          | inl accepted ↦
              let e : on_repeat_us (arduino now_us) period_us c l ≡ (h, l'') =
                ground (arith, is_assigned, accepted) in
              let there : has h.slot (contents s) ≡ true = ground (
                arith,
                room,
                accepted,
                ap (has h.slot) entries,
                has-append h.slot (keep_live (contents l'.scheduler)) (record {
                  task = some h.slot;
                  period_us = period_us;
                  next_due_us = now_us;
                  periodic = true;
                  active = true;
                }),
                Bool-cases (has h.slot (keep_live (contents l'.scheduler))),
              ) in
              elim (register_lem add (λ h'. plain c) l v).1 [
                | inl a ↦ (a.names_it, ap (λ x. has x.0.slot (contents x.1.scheduler)) e ∙ there)
                | inr none_given ↦ absurd (ground (arith, named, none_given.nothing))
              ]
        ]
      ]
