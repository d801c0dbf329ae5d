-- ===== src/EventLoop/Removal.antt =====
-- Removal and switching of callbacks, by handle.
use pypilot_event_loop.Prelude.{
  ◌<◌, ◌≡◌, refl, sym, subst, ap, ◌∙◌, ◌⊎◌, inl, inr, Bool, true, false, arith, ◌==◌, length,
  get_or-set_self, Bool-cases, ==_iff,
}
use pypilot_event_loop.Task
use pypilot_event_loop.EventLoop.{
  EventHandle, Slot, blank, slot_at, EventLoop, Scheduler, put_task, valid, enable, disable, remove,
}
use pypilot_event_loop.EventLoop.Slots.{AllSlots, IsValid, set_enabled-SlotValid}
use pypilot_event_loop.EventLoop.Handles.{valid-elsewhere, valid-written, set-IsValid}
use pypilot_event_loop.EventLoop.Registration.{
  Frees, vacated, vacated-Frees, release_registered-vacated,
}

module _ {S C : Type 0} where
  -- A switch of a task: every handle stays what it was.
  switched :
      (l : EventLoop S C) (h : EventHandle) (b : Bool)
      → IsValid l
      → h.slot < length l.slots
      → let l' = put_task l h.slot (Task.set_enabled (slot_at l.slots h.slot).task b) in
        IsValid l' × ((h' : EventHandle) → valid l' h' ≡ valid l h')
  unfolding AllSlots Task.set_enabled
  switched l h b v lt =
      let s = record (slot_at l.slots h.slot) {
        task = Task.set_enabled (slot_at l.slots h.slot).task b;
      } in
      (
        set-IsValid l h.slot s v
            (set_enabled-SlotValid (slot_at l.slots h.slot) b (v.slots h.slot)),
        λ h'. elim (Bool-cases (h'.slot == h.slot)) [
          | inl same ↦
              let e = (==_iff h'.slot h.slot).0 same in
              valid-written l h.slot s h' e lt ∙ ground (arith, e, lt)
          | inr other ↦ valid-elsewhere l h.slot s h' (ground (arith, other))
        ],
      )

  -- The result `x` of a switch to `b` on the loop `l`, by the handle `h`.
  pub record Switches (b : Bool) (l : EventLoop S C) (h : EventHandle) (x : Bool × EventLoop S C)
      : Type 0 where
    pub answer : x.0 ≡ valid l h
    pub keeps : IsValid x.1
    pub handles : (h' : EventHandle) → valid x.1 h' ≡ valid l h'
    pub scheduler : x.1.scheduler ≡ l.scheduler
    pub live : valid l h ≡ true → (slot_at x.1.slots h.slot).task.enabled ≡ b
    pub dead : valid l h ≡ false → x.1 ≡ l

  live-Switches :
      (b : Bool) (l : EventLoop S C) (h : EventHandle)
      → IsValid l
      → valid l h ≡ true
      → Switches b l h (true, put_task l h.slot (Task.set_enabled (slot_at l.slots h.slot).task b))
  unfolding Task.set_enabled
  live-Switches b l h v live =
      let lt : h.slot < length l.slots = ground (arith, live) in
      let (k, same) = switched l h b v lt in
      let s = record (slot_at l.slots h.slot) {
        task = Task.set_enabled (slot_at l.slots h.slot).task b;
      } in
      record {
        answer = sym live;
        keeps = k;
        handles = same;
        scheduler = refl;
        live = λ e.
            ap (λ (x : Slot C). x.task.enabled) (get_or-set_self l.slots h.slot s blank lt)
            ∙ ground (arith, live);
        dead = λ e. absurd (ground (arith, live, e));
      }

  dead-Switches :
      (b : Bool) (l : EventLoop S C) (h : EventHandle)
      → IsValid l
      → valid l h ≡ false
      → Switches b l h (false, l)
  dead-Switches b l h v dead = record {
    answer = sym dead;
    keeps = v;
    handles = λ h'. refl;
    scheduler = refl;
    live = λ e. absurd (ground (arith, dead, e));
    dead = λ e. refl;
  }

  -- On a valid loop, `enable` and `disable` with a valid handle return true and set the task
  -- accordingly; with any other handle they return false and change nothing. In both cases the loop
  -- stays valid, and every handle keeps its validity.
  pub switch_lem :
      (l : EventLoop S C) (h : EventHandle)
      → IsValid l
      → Switches true l h (enable l h) × Switches false l h (disable l h)
  unfolding enable disable
  switch_lem l h v = elim (Bool-cases (valid l h)) [
    | inl live ↦ rw live (live-Switches true l h v live, live-Switches false l h v live)
    | inr dead ↦ rw dead (dead-Switches true l h v dead, dead-Switches false l h v dead)
  ]

  -- The result of a removal by the handle `h`.
  unfoldable pub Removes : EventLoop S C → EventHandle → Bool × EventLoop S C → Type 0
  Removes l h (removed, l') =
      IsValid l'
      × (((removed ≡ true) × (valid l h ≡ true) × Frees l l' h)
          ⊎ ((removed ≡ false) × ((h' : EventHandle) → valid l' h' ≡ valid l h')))

  -- On a valid loop a removal keeps it valid, whatever the scheduler answers. When it returns true
  -- the handle was valid, no longer is, and no other handle has changed its validity; when it
  -- returns false no handle has.
  pub remove_lem :
      (scheduler : Scheduler S) (l : EventLoop S C) (h : EventHandle)
      → IsValid l
      → Removes l h (remove scheduler l h)
  unfolding remove Removes
  remove_lem scheduler l h v = elim (Bool-cases (valid l h)) [
    | inr dead ↦
        let e : remove scheduler l h ≡ (false, l) = ground (arith, dead) in
        subst (Removes l h) (sym e) (v, inr (refl, λ h'. refl))
    | inl live ↦
        let (removed, s) = scheduler.remove h.slot l.scheduler in
        let l' = record l { scheduler = s } in
        let v' : IsValid l' = record { slots = v.slots; few = v.few } in
        let (v'', f) = vacated-Frees l' h v' live in
        let r = release_registered-vacated l' h live in
        elim (Bool-cases removed) [
          | inl did ↦
              let e : remove scheduler l h ≡ (true, vacated l' h) = ground (arith, live, did, r) in
              subst (Removes l h) (sym e)
                (v'', inl (refl, live, record { gone = f.gone; others = f.others }))
          | inr kept ↦
              let e : remove scheduler l h ≡ (false, l') = ground (arith, live, kept) in
              subst (Removes l h) (sym e) (v', inr (refl, λ h'. refl))
        ]
  ]
