-- ===== src/EventLoop/Occupied/Calls.antt =====
-- What the calls that a running callable makes of its loop do to its own slot.
use pypilot_event_loop.Prelude.{
  ℕ, ◌%◌, ◌^◌, ◌<◌, ◌≡◌, ◌≢◌, refl, ap, subst, inl, inr, Bool, true, false, ◌&&◌, List, [], ◌∷◌,
  arith, if◌then◌else◌, Option-cases, Bool-cases, length, set, get_or-set_self, get_or-beyond, ltb,
  ltb→lt, ltb→ge, ◌==◌, ==_iff,
}
use pypilot_event_loop.Task
use pypilot_event_loop.EventLoop.{
  EventHandle, no_handle, Slot, blank, slot_at, first_free, EventLoop, Callable, Scheduler,
  put_task, assigned, vacate, allocate, register, release_unregistered, release_registered, enable,
  disable, remove, on_repeat_us, on_delay_us, on_bytes_ready, on_pin_event, valid,
}
use pypilot_event_loop.EventLoop.Slots.{IsValid, first_free-lem}
use pypilot_event_loop.EventLoop.Running.{
  Call, enables, disables, removes, repeats, delays, readies, pins, call, calls_in_order,
  call-IsValid,
}
use pypilot_event_loop.EventLoop.Occupied.{
  RunsIn, set_enabled-RunsIn, vacate-RunsIn, set-RunsIn, elsewhere, written,
}

module _ {S C : Type 0} (c : Callable C) (log : List (Callable C)) (g i : ℕ) where
  -- The slot `i` of a loop.
  abbrev pub At : Bool → EventLoop S C → Type 0
  At gone l = RunsIn c log g gone (slot_at l.slots i)

  -- A slot that is not blank is in the table.
  pub At-within : (gone : Bool) (l : EventLoop S C) → At gone l → i < length l.slots
  At-within gone l r = elim (Bool-cases (ltb i (length l.slots))) [
    | inl inside ↦ ltb→lt _ _ inside
    | inr outside ↦
        let e = get_or-beyond l.slots i (blank {C = C}) (ltb→ge _ _ outside) in
        absurd (ground (arith, ap (λ (s : Slot C). s.task.callable) e, r.runs.holds))
  ]

  put_task-At :
      (gone b : Bool) (l : EventLoop S C) (j : ℕ)
      → At gone l
      → At gone (put_task l j (Task.set_enabled (slot_at l.slots j).task b))
  put_task-At gone b l j r =
      written c log g i gone l.slots j _ r (λ e. set_enabled-RunsIn c log g gone b _ (rw e r))

  At-branch :
      {X : Type 0} (b gone : Bool) (x y : X × EventLoop S C)
      → At gone x.1
      → At gone y.1
      → At gone (if b then x else y).1
  At-branch true gone x y p q = p
  At-branch false gone x y p q = q

  allocate-At :
      (gone : Bool) (callable : EventHandle → Callable C) (l : EventLoop S C)
      → IsValid l
      → At gone l
      → let (h, l') = allocate callable l in At gone l' × (assigned h ≡ true → h.slot ≢ i)
  unfolding allocate
  allocate-At gone callable l v r = elim (Option-cases (first_free 0 l.slots)) [
    | inl full ↦
        let e : allocate callable l ≡ (no_handle, l) = ground (arith, full) in
        rw e (r, ground arith)
    | inr (j, found) ↦
        let (j', e', lt, free') = first_free-lem 0 l.slots j found in
        let e'' : j ≡ j' = omega (arith, e') in
        let free : (slot_at l.slots j).used ≡ false = rw e'' free' in
        let s = slot_at l.slots j in
        let h : EventHandle = record { slot = j % 2 ^ 16; generation = s.generation } in
        let low : j % 2 ^ 16 ≡ j = omega (arith, lt, e'', v.few) in
        let (set_ok, t) = Task.set s.task (callable h) in
        elim (Bool-cases set_ok) [
          | inl ok ↦
              let ne : j ≢ i = λ e.
                absurd
                  (ground (arith, ok, (set-RunsIn c log g gone s (callable h) (rw e r) free).0)) in
              let s' = record s { task = t; used = true } in
              let e : allocate callable l ≡ (h, record l { slots = set l.slots j s' }) =
                ground (arith, found, ok) in
              rw e (elsewhere c log g i gone l.slots j s' ne r, λ q. rw low ne)
          | inr busy ↦
              let s' = record s { task = t } in
              let e : allocate callable l ≡ (no_handle, record l { slots = set l.slots j s' }) =
                ground (arith, found, busy) in
              rw e (
                written c log g i gone l.slots j s' r
                    (λ q. (set-RunsIn c log g gone s (callable h) (rw q r) free).1),
                ground arith,
              )
        ]
  ]

  release_unregistered-At :
      (gone : Bool) (l : EventLoop S C) (h : EventHandle)
      → h.slot ≢ i
      → At gone l
      → At gone (release_unregistered l h)
  unfolding release_unregistered
  release_unregistered-At gone l h ne r =
      elim (Bool-cases (assigned h && ltb h.slot (length l.slots))) [
        | inl names ↦
            rw (release_unregistered, names) (elsewhere c log g i gone l.slots h.slot _ ne r)
        | inr other ↦ rw (release_unregistered, other) r
      ]

  register-At :
      (gone : Bool) (add : ℕ → S → Bool × S) (callable : EventHandle → Callable C)
      (l : EventLoop S C)
      → IsValid l
      → At gone l
      → At gone (register add callable l).1
  unfolding register
  register-At gone add callable l v r =
      let (h, l') = allocate callable l in
      let (r', ne) = allocate-At gone callable l v r in
      let (added, s) = add h.slot l'.scheduler in
      let l'' = record l' { scheduler = s } in
      elim (Bool-cases (assigned h)) [
        | inr no_slot ↦
            let e : register add callable l ≡ (no_handle, l') = ground (arith, no_slot) in rw e r'
        | inl is_assigned ↦
            let e : register add callable l
                ≡ (if added then (h, l'') else (no_handle, release_unregistered l'' h)) =
              ground (arith, is_assigned) in
            rw e (
              At-branch added gone (h, l'') (no_handle, release_unregistered l'' h) r'
                (release_unregistered-At gone l'' h (ne is_assigned) r'))
      ]

  -- The slot after steps that may have released it.
  unfoldable pub After : Bool → EventLoop S C → Type 0
  After gone l = (gone' : Bool) × (gone ≡ true → gone' ≡ true) × At gone' l

  stays : (gone : Bool) (l : EventLoop S C) → At gone l → After gone l
  unfolding After
  stays gone l r = (gone, λ e. e, r)

  -- The released slot, when it was in use.
  release_registered-After :
      (gone : Bool) (l : EventLoop S C) (h : EventHandle)
      → At gone l
      → After gone (release_registered l h)
  unfolding release_registered After
  release_registered-After gone l h r =
      elim (Bool-cases (
        assigned h
        && (ltb h.slot (length l.slots)
            && ((slot_at l.slots h.slot).used
                && ((slot_at l.slots h.slot).generation == h.generation))))) [
                  | inr other ↦ rw (release_registered, other) (stays gone l r)
                  | inl names ↦
                      let s = vacate (slot_at l.slots h.slot) in
                      let e : release_registered l h ≡ record l { slots = set l.slots h.slot s } =
                        ground (arith, names) in
                      rw e (elim (Bool-cases (h.slot == i)) [
                        | inr far ↦
                            stays gone (record l { slots = set l.slots h.slot s })
                              (elsewhere c log g i gone l.slots h.slot s (ground (arith, far)) r)
                        | inl near ↦
                            let q : h.slot ≡ i = (==_iff h.slot i).0 near in
                            let lt : h.slot < length l.slots = ground (arith, names) in
                            let unreleased : gone ≡ false = ground (arith, names, q, r.used) in
                            let k = vacate-RunsIn c log g (slot_at l.slots h.slot) (
                              subst (λ (b : Bool). RunsIn c log g b (slot_at l.slots h.slot))
                                unreleased (rw q r)) in
                            (true, λ x. refl, rw (← q, get_or-set_self l.slots h.slot s blank lt) k)
                      ])
                ]

  module _ (scheduler : Scheduler S) where
    remove-After :
        (gone : Bool) (l : EventLoop S C) (h : EventHandle)
        → At gone l
        → After gone (remove scheduler l h).1
    unfolding remove After
    remove-After gone l h r =
        let (removed, s) = scheduler.remove h.slot l.scheduler in
        let l' = record l { scheduler = s } in
        elim (Bool-cases (valid l h)) [
          | inr dead ↦
              let e : remove scheduler l h ≡ (false, l) = ground (arith, dead) in
              rw e (stays gone l r)
          | inl live ↦ elim (Bool-cases removed) [
            | inl did ↦
                let e : remove scheduler l h ≡ (true, release_registered l' h) =
                  ground (arith, live, did) in
                rw e (release_registered-After gone l' h r)
            | inr kept ↦
                let e : remove scheduler l h ≡ (false, l') = ground (arith, live, kept) in
                rw e (stays gone l' r)
          ]
        ]

    call-After :
        (gone : Bool) (q : Call C) (l : EventLoop S C)
        → IsValid l
        → At gone l
        → After gone (call scheduler q l)
    unfolding call enable disable on_repeat_us on_delay_us on_bytes_ready on_pin_event
    call-After gone (enables h) l v r =
        stays gone _
          (At-branch (valid l h) gone (true, _) (false, l) (put_task-At gone true l h.slot r) r)
    call-After gone (disables h) l v r =
        stays gone _
          (At-branch (valid l h) gone (true, _) (false, l) (put_task-At gone false l h.slot r) r)
    call-After gone (removes h) l v r = remove-After gone l h r
    call-After gone (repeats period_us d) l v r = stays gone _ (register-At gone _ _ l v r)
    call-After gone (delays now_us delay_us d) l v r = stays gone _ (register-At gone _ _ l v r)
    call-After gone (readies fd poll_us d) l v r = stays gone _ (register-At gone _ _ l v r)
    call-After gone (pins fd poll_us d) l v r = stays gone _ (register-At gone _ _ l v r)

    pub calls-After :
        (gone : Bool) (qs : List (Call C)) (l : EventLoop S C)
        → IsValid l
        → At gone l
        → IsValid (calls_in_order scheduler qs l) × After gone (calls_in_order scheduler qs l)
    unfolding calls_in_order After
    calls-After gone [] l v r = (v, stays gone l r)
    calls-After gone (q ∷ qs) l v r =
        let (gone', keeps, r') = call-After gone q l v r in
        let (v'', (gone'', keeps', r'')) =
          calls-After gone' qs (call scheduler q l) (call-IsValid scheduler q l v) r' in
        (v'', (gone'', λ e. keeps' (keeps e), r''))
