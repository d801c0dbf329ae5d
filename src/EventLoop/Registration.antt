-- ===== src/EventLoop/Registration.antt =====
-- Registration of callbacks.
use pypilot_event_loop.Prelude.{
  ℕ, ◌<◌, ◌≡◌, ◌≢◌, refl, sym, subst, ◌∙◌, inl, inr, Bool, true, false, ◌&&◌, arith, ◌==◌, length,
  set, Bool-cases, ==_iff,
}
use pypilot_event_loop.EventLoop.{
  EventHandle, no_handle, slot_at, EventLoop, Callable, vacate, valid, allocate, register,
  release_registered, release_unregistered,
}
use pypilot_event_loop.EventLoop.Slots.{AllSlots, IsValid, vacate-SlotValid}
use pypilot_event_loop.EventLoop.Handles.{
  valid-elsewhere, valid-written, Allocates, Gives, allocate-Gives, set-IsValid,
}

module _ {S C : Type 0} where
  -- The handle `h` is no longer valid, and every other handle is what it was.
  pub record Frees (l l' : EventLoop S C) (h : EventHandle) : Type 0 where
    pub gone : valid l' h ≡ false
    pub others : (h' : EventHandle) → h' ≢ h → valid l' h' ≡ valid l h'

  unfoldable pub vacated : EventLoop S C → EventHandle → EventLoop S C
  vacated l h = record l { slots = set l.slots h.slot (vacate (slot_at l.slots h.slot)) }

  pub vacated-Frees :
      (l : EventLoop S C) (h : EventHandle)
      → IsValid l
      → valid l h ≡ true
      → IsValid (vacated l h) × Frees l (vacated l h) h
  unfolding vacated AllSlots
  vacated-Frees l h v live =
      let s = vacate (slot_at l.slots h.slot) in
      let lt : h.slot < length l.slots = ground (arith, live) in
      (
        set-IsValid l h.slot s v (vacate-SlotValid _ (v.slots h.slot)),
        record {
          gone = valid-written l h.slot s h refl lt ∙ ground arith;
          others = λ h' ne. elim (Bool-cases (h'.slot == h.slot)) [
            | inl same ↦
                let e = (==_iff h'.slot h.slot).0 same in
                valid-written l h.slot s h' e lt ∙ ground (arith, e, live, ne)
            | inr other ↦ valid-elsewhere l h.slot s h' (ground (arith, other))
          ];
        },
      )

  release_unregistered-vacated :
      (l : EventLoop S C) (h : EventHandle)
      → valid l h ≡ true
      → release_unregistered l h ≡ vacated l h
  unfolding release_unregistered vacated
  release_unregistered-vacated l h live = ground (arith, live)

  pub release_registered-vacated :
      (l : EventLoop S C) (h : EventHandle)
      → valid l h ≡ true
      → release_registered l h ≡ vacated l h
  unfolding release_registered vacated
  release_registered-vacated l h live = ground (arith, live)

  -- A registration given up leaves every handle as it was.
  given_up :
      (l l' : EventLoop S C) (h : EventHandle)
      → IsValid l'
      → Allocates l l' h
      → Gives l (no_handle, release_unregistered l' h)
  unfolding Gives
  given_up l l' h v a =
      let (k, f) = vacated-Frees l' h v a.names_it in
      subst (λ x. Gives l (no_handle, x)) (sym (release_unregistered-vacated l' h a.names_it))
        (
          k,
          inr (record {
            nothing = refl;
            all = λ h'. elim (Bool-cases ((h'.slot == h.slot) && (h'.generation == h.generation))) [
              | inl same ↦ ground (arith, same, f.gone, a.was_free)
              | inr other ↦
                  let ne : h' ≢ h = ground (arith, other) in f.others h' ne ∙ a.others h' ne
            ];
          }),
        )

  -- On a valid loop a registration keeps it valid, and either gives a handle that was not valid,
  -- is valid now, and is the only one whose validity changed, or gives no handle and changes the
  -- validity of none. This holds whatever the scheduler answers.
  pub register_lem :
      (add : ℕ → S → Bool × S) (callable : EventHandle → Callable C) (l : EventLoop S C)
      → IsValid l
      → Gives l (register add callable l)
  unfolding register Gives
  register_lem add callable l v =
      let (h, l') = allocate callable l in
      let (v', g) = allocate-Gives callable l v in
      elim g [
        | inr r ↦
            let e : register add callable l ≡ (no_handle, l') = ground (arith, r.nothing) in
            subst (Gives l) (sym e) (v', inr (record { nothing = refl; all = r.all }))
        | inl a ↦
            let (added, s) = add h.slot l'.scheduler in
            let l'' = record l' { scheduler = s } in
            let v'' : IsValid l'' = record { slots = v'.slots; few = v'.few } in
            let a'' : Allocates l l'' h = record {
              is_assigned = a.is_assigned;
              was_free = a.was_free;
              names_it = a.names_it;
              others = a.others;
            } in
            elim (Bool-cases added) [
              | inl taken ↦
                  let e : register add callable l ≡ (h, l'') =
                    ground (arith, a.is_assigned, taken) in
                  subst (Gives l) (sym e) (v'', inl a'')
              | inr not_added ↦
                  let e : register add callable l ≡ (no_handle, release_unregistered l'' h) =
                    ground (arith, a.is_assigned, not_added) in
                  subst (Gives l) (sym e) (given_up l l'' h v'' a'')
            ]
      ]
