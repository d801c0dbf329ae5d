-- ===== src/EventLoop/Handles.antt =====
-- What registration and removal do to handles.
use pypilot_event_loop.Prelude.{
  ℕ, ◌%◌, ◌^◌, ◌<◌, ◌≡◌, ◌≢◌, refl, sym, subst, ap, ◌∙◌, ◌⊎◌, inl, inr, true, false, not, ◌&&◌,
  some, arith, ◌==◌, length, length-set, set, get_or-set, Bool-cases, Option-cases, ==_iff,
}
use pypilot_event_loop.Task
use pypilot_event_loop.EventLoop.{
  EventHandle, no_handle, assigned, Slot, blank, slot_at, first_free, EventLoop, Callable, valid,
  allocate,
}
use pypilot_event_loop.EventLoop.Slots.{SlotValid, AllSlots, IsValid, set-AllSlots, first_free-lem}

module _ {C : Type 0} where
  -- A free slot that is filled: only a running callable still in it prevents that.
  pub fill-SlotValid :
      (s : Slot C) (c : Callable C)
      → SlotValid s
      → s.used ≡ false
      → let (ok, t) = Task.set s.task c in
        SlotValid (record s { task = t; used = ok }) × (ok ≡ not s.task.invoking)
  unfolding Task.set Task.clear Task.destroy_now
  fill-SlotValid s c v free = ground (arith, v.task, v.in_use, free)

module _ {S C : Type 0} where
  -- A write to a slot changes at most the handles of that slot.
  pub valid-elsewhere :
      (l : EventLoop S C) (i : ℕ) (s : Slot C) (h : EventHandle)
      → h.slot ≢ i
      → valid (record l { slots = set l.slots i s }) h ≡ valid l h
  valid-elsewhere l i s h ne =
      let e : (h.slot == i) ≡ false = ground (arith, ne, ==_iff h.slot i) in
      rw (length-set l.slots i s, get_or-set l.slots i h.slot s blank, e) refl

  -- The handles of the slot written.
  pub valid-written :
      (l : EventLoop S C) (i : ℕ) (s : Slot C) (h : EventHandle)
      → h.slot ≡ i
      → i < length l.slots
      → valid (record l { slots = set l.slots i s }) h
        ≡ (assigned h && (s.used && (s.task.active && (s.generation == h.generation))))
  valid-written l i s h e lt =
      ground (arith, e, lt, length-set l.slots i s, get_or-set l.slots i h.slot s blank)

  -- The table after an allocation of the handle `h`, or after none.
  pub record Allocates (l l' : EventLoop S C) (h : EventHandle) : Type 0 where
    pub is_assigned : assigned h ≡ true
    pub was_free : valid l h ≡ false
    pub names_it : valid l' h ≡ true
    pub others : (h' : EventHandle) → h' ≢ h → valid l' h' ≡ valid l h'

  pub record Refuses (l l' : EventLoop S C) (h : EventHandle) : Type 0 where
    pub nothing : h ≡ no_handle
    pub all : (h' : EventHandle) → valid l' h' ≡ valid l h'

  pub set-IsValid :
      (l : EventLoop S C) (i : ℕ) (s : Slot C)
      → IsValid l
      → SlotValid s
      → IsValid (record l { slots = set l.slots i s })
  set-IsValid l i s v k = record {
    slots = set-AllSlots l.slots i s v.slots k;
    few = omega (arith, length-set l.slots i s, v.few);
  }

  unused-invalid :
      (l : EventLoop S C) (h : EventHandle)
      → (slot_at l.slots h.slot).used ≡ false
      → valid l h ≡ false
  unused-invalid l h free = ground (arith, free)

  written-Allocates :
      (l : EventLoop S C) (h : EventHandle) (s : Slot C)
      → IsValid l
      → h.slot < length l.slots
      → (slot_at l.slots h.slot).used ≡ false
      → s.used ≡ true
      → SlotValid s
      → s.generation ≡ h.generation
      → Allocates l (record l { slots = set l.slots h.slot s }) h
  written-Allocates l h s v lt free used k g = record {
    is_assigned = ground (arith, v.few, lt);
    was_free = unused-invalid l h free;
    names_it = valid-written l h.slot s h refl lt ∙ ground (arith, v.few, lt, used, g, k.in_use);
    others = λ h' ne. elim (Bool-cases (h'.slot == h.slot)) [
      | inl same ↦
          let e = (==_iff h'.slot h.slot).0 same in
          valid-written l h.slot s h' e lt ∙ ground (arith, e, free, ne, g)
      | inr other ↦ valid-elsewhere l h.slot s h' ground (arith, other)
    ];
  }

  written-Refuses :
      (l : EventLoop S C) (i : ℕ) (s : Slot C)
      → i < length l.slots
      → (slot_at l.slots i).used ≡ false
      → s.used ≡ false
      → Refuses l (record l { slots = set l.slots i s }) no_handle
  written-Refuses l i s lt free unused = record {
    nothing = refl;
    all = λ h'. elim (Bool-cases (h'.slot == i)) [
      | inl same ↦
          let e = (==_iff h'.slot i).0 same in
          valid-written l i s h' e lt ∙ ground (arith, e, free, unused)
      | inr other ↦ valid-elsewhere l i s h' ground (arith, other)
    ];
  }

  -- What an allocation or a registration gives: valid tables, and a handle or none.
  unfoldable pub Gives : EventLoop S C → EventHandle × EventLoop S C → Type 0
  Gives l (h, l') = IsValid l' × (Allocates l l' h ⊎ Refuses l l' h)

  allocate-found :
      (callable : EventHandle → Callable C) (l : EventLoop S C) (j : ℕ)
      → IsValid l
      → first_free 0 l.slots ≡ some j
      → j < length l.slots
      → (slot_at l.slots j).used ≡ false
      → Gives l (allocate callable l)
  unfolding allocate AllSlots Gives
  allocate-found callable l j v found lt free =
      let s = slot_at l.slots j in
      let h : EventHandle = record { slot = j; generation = s.generation } in
      let low : j % 2 ^ 16 ≡ j = omega (arith, lt, v.few) in
      let t = Task.set s.task (callable h) in
      let (k, idle) = fill-SlotValid s (callable h) (v.slots j) free in
      let s' = record s { task = t.1; used = t.0 } in
      let l' = record l { slots = set l.slots j s' } in
      elim (Bool-cases t.0) [
        | inl ok ↦
            let e : allocate callable l ≡ (h, l') = ground (arith, found, low, ok) in
            subst (Gives l) (sym e)
              (set-IsValid l j s' v k, inl (written-Allocates l h s' v lt free ok k refl))
        | inr busy ↦
            let e : allocate callable l ≡ (no_handle, l') =
              ground (arith, found, low, busy, free) in
            subst (Gives l) (sym e)
              (set-IsValid l j s' v k, inr (written-Refuses l j s' lt free busy))
      ]

  pub allocate-Gives :
      (callable : EventHandle → Callable C) (l : EventLoop S C)
      → IsValid l
      → Gives l (allocate callable l)
  unfolding allocate Gives
  allocate-Gives callable l v = elim (Option-cases (first_free 0 l.slots)) [
    | inl full ↦
        let e : allocate callable l ≡ (no_handle, l) = ground (arith, full) in
        subst (Gives l) (sym e) (v, inr (record { nothing = refl; all = λ h'. refl }))
    | inr (i, found) ↦
        let (j, e, lt, free) = first_free-lem 0 l.slots i found in
        allocate-found callable l j v (found ∙ ap some (omega (arith, e))) lt free
  ]
