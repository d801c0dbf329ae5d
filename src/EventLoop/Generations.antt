-- ===== src/EventLoop/Generations.antt =====
-- The generations of an EventLoop's slots: each step of the program raises them by one at most.
use pypilot_event_loop.Prelude.{
  ℕ, ◌+◌, ◌%◌, ◌^◌, ◌≤◌, ◌≡◌, refl, ap, ◌∙◌, inl, inr, Bool, true, false, ◌&&◌, arith,
  if◌then◌else◌, Option-cases, Bool-cases, length, set, get_or-set, ltb, ◌==◌,
}
use pypilot_event_loop.Task
use pypilot_event_loop.EventLoop.{
  EventHandle, no_handle, Slot, blank, slot_at, first_free, EventLoop, Callable, Scheduler,
  put_task, vacate, allocate, register, release_unregistered, release_registered, enable, disable,
  remove, on_repeat_us, on_delay_us, on_bytes_ready, on_pin_event, valid,
}
use pypilot_event_loop.EventLoop.Slots.{AllSlots, IsValid}
use pypilot_event_loop.EventLoop.Handles.{Gives, allocate-Gives}
use pypilot_event_loop.EventLoop.Running.{
  Call, enables, disables, removes, repeats, delays, readies, pins, Step, calls, starts, completes,
  ends, begin_poll, end_poll, call, step,
}

module _ {S C : Type 0} where
  abbrev pub generation_at : EventLoop S C → ℕ → ℕ
  generation_at l i = (slot_at l.slots i).generation

  -- No generation has gone up by more than one.
  unfoldable pub Advances : EventLoop S C → EventLoop S C → Type 0
  Advances l l' =
      (i : ℕ) → (k : ℕ) × (k ≤ 1) × (generation_at l' i ≡ (generation_at l i + k) % 2 ^ 16)

  Same : EventLoop S C → EventLoop S C → Type 0
  Same l l' = (i : ℕ) → generation_at l' i ≡ generation_at l i

  Same-Advances : (l l' : EventLoop S C) → IsValid l → Same l l' → Advances l l'
  unfolding Same Advances AllSlots
  Same-Advances l l' v e i = (0, omega arith, e i ∙ omega (arith, (v.slots i).small))

  written-Same :
      (l : EventLoop S C) (j : ℕ) (s : Slot C)
      → s.generation ≡ generation_at l j
      → Same l (record l { slots = set l.slots j s })
  unfolding Same
  written-Same l j s e i = elim (Bool-cases ((i == j) && ltb j (length l.slots))) [
    | inl here ↦
        ap (λ (x : Slot C). x.generation) (get_or-set l.slots j i s blank) ∙ ground (arith, here, e)
    | inr other ↦
        ap (λ (x : Slot C). x.generation) (get_or-set l.slots j i s blank) ∙ ground (arith, other)
  ]

  vacated-Advances :
      (l : EventLoop S C) (j : ℕ)
      → IsValid l
      → Advances l (record l { slots = set l.slots j (vacate (slot_at l.slots j)) })
  unfolding Advances AllSlots
  vacated-Advances l j v i =
      let s = vacate (slot_at l.slots j) in
      let e = ap (λ (x : Slot C). x.generation) (get_or-set l.slots j i s blank) in
      elim (Bool-cases ((i == j) && ltb j (length l.slots))) [
        | inl here ↦ (1, omega arith, e ∙ ground (arith, here))
        | inr other ↦ (0, omega arith, e ∙ ground (arith, other, (v.slots i).small))
      ]

  Advances-if :
      (b : Bool) (l x y : EventLoop S C)
      → Advances l x
      → Advances l y
      → Advances l (if b then x else y)
  Advances-if true l x y p q = p
  Advances-if false l x y p q = q

  Advances-branch :
      {X : Type 0} (b : Bool) (l : EventLoop S C) (x y : X × EventLoop S C)
      → Advances l x.1
      → Advances l y.1
      → Advances l (if b then x else y).1
  Advances-branch true l x y p q = p
  Advances-branch false l x y p q = q

  Same-then : (l l' l'' : EventLoop S C) → Same l l' → Advances l' l'' → Advances l l''
  unfolding Same Advances
  Same-then l l' l'' same a i =
      let (k, le, e) = a i in (k, le, e ∙ ap (λ g. (g + k) % 2 ^ 16) (same i))

  release_unregistered-Advances :
      (l : EventLoop S C) (h : EventHandle) → IsValid l → Advances l (release_unregistered l h)
  unfolding release_unregistered Same
  release_unregistered-Advances l h v =
      Advances-if _ l _ _ (vacated-Advances l h.slot v) (Same-Advances l l v (λ i. refl))

  release_registered-Advances :
      (l : EventLoop S C) (h : EventHandle) → IsValid l → Advances l (release_registered l h)
  unfolding release_registered Same
  release_registered-Advances l h v =
      Advances-if _ l _ _ (vacated-Advances l h.slot v) (Same-Advances l l v (λ i. refl))

  allocate-Same :
      (callable : EventHandle → Callable C) (l : EventLoop S C) → Same l (allocate callable l).1
  unfolding allocate Same
  allocate-Same callable l i = elim (Option-cases (first_free 0 l.slots)) [
    | inl full ↦ ground (arith, full)
    | inr (j, found) ↦
        let s = slot_at l.slots j in
        let h : EventHandle = record { slot = j % 2 ^ 16; generation = s.generation } in
        let (set_ok, t) = Task.set s.task (callable h) in
        elim (Bool-cases set_ok) [
          | inl ok ↦
              let e : (allocate callable l).1
                  ≡ record l { slots = set l.slots j (record s { task = t; used = true }) } =
                ground (arith, found, ok) in
              rw e (written-Same l j (record s { task = t; used = true }) refl i)
          | inr busy ↦
              let e : (allocate callable l).1 ≡ put_task l j t = ground (arith, found, busy) in
              rw e (written-Same l j (record s { task = t }) refl i)
        ]
  ]

  register-Advances :
      (add : ℕ → S → Bool × S) (callable : EventHandle → Callable C) (l : EventLoop S C)
      → IsValid l
      → Advances l (register add callable l).1
  unfolding register Gives Same
  register-Advances add callable l v =
      let (h, l') = allocate callable l in
      let same = allocate-Same callable l in
      let v' = (allocate-Gives callable l v).0 in
      let (added, s) = add h.slot l'.scheduler in
      let l'' = record l' { scheduler = s } in
      let v'' : IsValid l'' = record { slots = v'.slots; few = v'.few } in
      Advances-branch _ l _ _ (Same-Advances l l' v same) (
        Advances-branch added l (h, l'') (no_handle, release_unregistered l'' h)
          (Same-Advances l l'' v same)
          (Same-then l l'' _ same (release_unregistered-Advances l'' h v'')))

  put_task-Same :
      (l : EventLoop S C) (j : ℕ) (t : Task.CallbackTask (Callable C)) → Same l (put_task l j t)
  put_task-Same l j t = written-Same l j (record (slot_at l.slots j) { task = t }) refl

  module _ (scheduler : Scheduler S) where
    remove-Advances :
        (l : EventLoop S C) (h : EventHandle) → IsValid l → Advances l (remove scheduler l h).1
    unfolding remove Same
    remove-Advances l h v =
        let (removed, s) = scheduler.remove h.slot l.scheduler in
        let l' = record l { scheduler = s } in
        let v' : IsValid l' = record { slots = v.slots; few = v.few } in
        let stay = Same-Advances l l' v (λ i. refl) in
        Advances-branch (valid l h) l _ _
          (Advances-branch removed l (true, release_registered l' h) (false, l')
            (Same-then l l' _ (λ i. refl) (release_registered-Advances l' h v')) stay)
          (Same-Advances l l v (λ i. refl))

    call-Advances : (q : Call C) (l : EventLoop S C) → IsValid l → Advances l (call scheduler q l)
    unfolding call enable disable on_repeat_us on_delay_us on_bytes_ready on_pin_event Same
    call-Advances (enables h) l v =
        Advances-branch (valid l h) l (true, _) (false, l)
          (Same-Advances l _ v (put_task-Same l h.slot _)) (Same-Advances l l v (λ i. refl))
    call-Advances (disables h) l v =
        Advances-branch (valid l h) l (true, _) (false, l)
          (Same-Advances l _ v (put_task-Same l h.slot _)) (Same-Advances l l v (λ i. refl))
    call-Advances (removes h) l v = remove-Advances l h v
    call-Advances (repeats period_us c) l v = register-Advances _ _ l v
    call-Advances (delays now_us delay_us c) l v = register-Advances _ _ l v
    call-Advances (readies fd poll_us c) l v = register-Advances _ _ l v
    call-Advances (pins fd poll_us c) l v = register-Advances _ _ l v

    pub step-Advances :
        (x : Step C) (l : EventLoop S C) → IsValid l → Advances l (step scheduler x l)
    unfolding step begin_poll end_poll Same
    step-Advances (calls q) l v = call-Advances q l v
    step-Advances (starts i) l v = elim (Option-cases (Task.begin_poll (slot_at l.slots i).task)) [
      | inl idle ↦
          let e : step scheduler (starts i) l ≡ l = ground (arith, idle) in
          rw e (Same-Advances l l v (λ j. refl))
      | inr ((c, t), started) ↦
          let e : step scheduler (starts i) l ≡ put_task l i t = ground (arith, started) in
          rw e (Same-Advances l _ v (put_task-Same l i t))
    ]
    step-Advances (completes h) l v = release_registered-Advances l h v
    step-Advances (ends i) l v = Same-Advances l _ v (put_task-Same l i _)
