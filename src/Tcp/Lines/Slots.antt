-- ===== src/Tcp/Lines/Slots.antt =====
-- The slots of TcpLineServerHandler, async_event_loop/tcp_line_protocol.hpp: which connection is
-- bound where.
use pypilot_event_loop.Prelude.{
  ℕ, zero, suc, ◌+◌, ◌≤◌, ◌≡◌, ◌≢◌, refl, sym, ap, ◌∙◌, subst, Bool, true, false, Option, none,
  some, List, [], ◌∷◌, if◌then◌else◌, get_elem?, arith, inl, inr, Bool-cases, ==_refl,
}
use pypilot_event_loop.Tcp.Lines.{
  Slot, is_bound_to, is_unbound, find_slot, update_slot, bind_slot, unbind_slot, acquire_new,
  acquire_at, acquire, release_at, release,
}
use pypilot_event_loop.Reader.Line.{LineReader}

-- How many slots are bound to a connection.
abbrev pub one : ℕ → Option ℕ → ℕ
one c o = if is_bound_to c o then 1 else 0

true≢false : true ≢ false
true≢false e = ground arith

unbound-one : (d : ℕ) (o : Option ℕ) → is_unbound o ≡ true → one d o ≡ 0
unbound-one d none h = refl
unbound-one d (some c) h = ground arith

bound-one : (c : ℕ) (o : Option ℕ) → is_bound_to c o ≡ true → one c o ≡ 1
bound-one c none h = ground arith
bound-one c (some d) h = ground arith

bound-other : (c d : ℕ) (o : Option ℕ) → is_bound_to c o ≡ true → d ≢ c → one d o ≡ 0
bound-other c d none h ne = refl
bound-other c d (some e) h ne = ground arith

module _ {W : Type 0} where
  abbrev pub times : ℕ → List (Slot W) → ℕ
  times c [] = 0
  times c (s ∷ ss) = one c s.connection + times c ss

  -- No connection has two slots.
  unfoldable pub IsUnique : List (Slot W) → Type 0
  IsUnique ss = (c : ℕ) → times c ss ≤ 1

  -- The slot at an index, and what a change of it does to the counts.
  pub record At (test : Option ℕ → Bool) (ss : List (Slot W)) (i : ℕ) : Type 0 where
    pub held : Slot W
    pub found : get_elem? ss i ≡ some held
    pub passes : test held.connection ≡ true
    pub updates : (f : Slot W → Slot W) → get_elem? (update_slot i f ss) i ≡ some (f held)
    pub counts :
        (f : Slot W → Slot W) (c : ℕ)
        → times c (update_slot i f ss) + one c held.connection
          ≡ times c ss + one c (f held).connection

  abbrev pub Found : (Option ℕ → Bool) → ℕ → List (Slot W) → Option ℕ → Type 0
  Found test k ss none =
      (c : ℕ) → ((o : Option ℕ) → is_bound_to c o ≡ true → test o ≡ true) → times c ss ≡ 0
  Found test k ss (some j) = (i : ℕ) × (j ≡ k + i) × At test ss i

  Found-cons :
      (test : Option ℕ → Bool) (k : ℕ) (s : Slot W) (ss : List (Slot W)) (o : Option ℕ)
      → test s.connection ≡ false
      → Found test (suc k) ss o
      → Found test k (s ∷ ss) o
  Found-cons test k s ss none h f = λ c imp. elim (Bool-cases (is_bound_to c s.connection)) [
    | inl p ↦ let x = imp s.connection p in absurd (true≢false (sym x ∙ h))
    | inr p ↦ let x = f c imp in ground arith
  ]
  Found-cons test k s ss (some j) h (i, e, a) = (
    suc i,
    e ∙ omega arith,
    record {
      held = a.held;
      found = a.found;
      passes = a.passes;
      updates = a.updates;
      counts = λ g c. let x = a.counts g c in omega arith;
    },
  )

  find_slot-Found :
      (test : Option ℕ → Bool) (k : ℕ) (ss : List (Slot W)) → Found test k ss (find_slot test k ss)
  find_slot-Found test k [] = λ c imp. refl
  find_slot-Found test k (s ∷ ss) =
      let rest = find_slot test (suc k) ss in
      elim (Bool-cases (test s.connection)) [
        | inl p ↦
            subst (λ b. Found test k (s ∷ ss) (if b then some k else rest)) (sym p)
              (
                0,
                omega arith,
                record {
                  held = s;
                  found = refl;
                  passes = p;
                  updates = λ f. refl;
                  counts = λ g c. omega arith;
                },
              )
        | inr p ↦
            subst (λ b. Found test k (s ∷ ss) (if b then some k else rest)) (sym p)
              (Found-cons test k s ss rest p (find_slot-Found test (suc k) ss))
      ]

  -- What `find` finds from the start.
  abbrev pub FoundFirst : (Option ℕ → Bool) → List (Slot W) → Option ℕ → Type 0
  FoundFirst test ss none =
      (c : ℕ) → ((o : Option ℕ) → is_bound_to c o ≡ true → test o ≡ true) → times c ss ≡ 0
  FoundFirst test ss (some i) = At test ss i

  find_slot-FoundFirst :
      (test : Option ℕ → Bool) (ss : List (Slot W)) → FoundFirst test ss (find_slot test 0 ss)
  find_slot-FoundFirst test ss = from_zero (find_slot test 0 ss) (find_slot-Found test 0 ss)
    where
      from_zero : (o : Option ℕ) → Found test 0 ss o → FoundFirst test ss o
      from_zero none f = f
      from_zero (some j) (i, e, a) = subst (At test ss) (sym (e ∙ omega arith)) a

  -- The readers of the slots, whatever is bound to them.
  abbrev pub readers : List (Slot W) → List (LineReader W)
  readers [] = []
  readers (s ∷ ss) = s.reader ∷ readers ss

  pub update_slot-readers :
      (i : ℕ) (f : Slot W → Slot W) (ss : List (Slot W))
      → ((s : Slot W) → (f s).reader ≡ s.reader)
      → readers (update_slot i f ss) ≡ readers ss
  update_slot-readers i f [] h = refl
  update_slot-readers zero f (s ∷ ss) h = ap (λ r. r ∷ readers ss) (h s)
  update_slot-readers (suc i) f (s ∷ ss) h = ap (◌∷◌ s.reader) (update_slot-readers i f ss h)

  -- `acquire` on slots without doubles: the slot that the connection has, or the first free one;
  -- it fails for a connection without a slot only.
  abbrev pub Acquires : ℕ → List (Slot W) → Option (ℕ × List (Slot W)) → Type 0
  Acquires c ss none = (times c ss ≡ 0)
  Acquires c ss (some (i, ss')) =
      (times c ss' ≡ 1)
      × ((d : ℕ) → d ≢ c → times d ss' ≡ times d ss)
      × (readers ss' ≡ readers ss)
      × ((s : Slot W) × (get_elem? ss' i ≡ some s) × (is_bound_to c s.connection ≡ true))

  acquire_new-Acquires :
      (c : ℕ) (ss : List (Slot W)) (o : Option ℕ)
      → times c ss ≡ 0
      → FoundFirst is_unbound ss o
      → Acquires c ss (acquire_new c o ss)
  acquire_new-Acquires c ss none z f = z
  acquire_new-Acquires c ss (some i) z a = (
    let x = a.counts (bind_slot c) c in
        let y = unbound-one c a.held.connection a.passes in
        let w = bound-one c (some c) (==_refl c) in omega arith,
    λ d ne.
        let x = a.counts (bind_slot c) d in
        let y = unbound-one d a.held.connection a.passes in
        let w = bound-other c d (some c) (==_refl c) ne in omega arith,
    update_slot-readers i (bind_slot c) ss (λ s. refl),
    (bind_slot c a.held, a.updates (bind_slot c), ==_refl c),
  )

  acquire_at-Acquires :
      (c : ℕ) (ss : List (Slot W)) (o : Option ℕ)
      → IsUnique ss
      → FoundFirst (is_bound_to c) ss o
      → Acquires c ss (acquire_at c o ss)
  unfolding IsUnique
  acquire_at-Acquires c ss none u f =
      acquire_new-Acquires c ss (find_slot is_unbound 0 ss) (f c (λ o h. h))
        (find_slot-FoundFirst is_unbound ss)
  acquire_at-Acquires c ss (some i) u a = (
    let x = a.counts unbind_slot c in
        let y = bound-one c a.held.connection a.passes in let w = u c in omega arith,
    λ d ne. refl,
    refl,
    (a.held, a.found, a.passes),
  )

  pub acquire-Acquires : (c : ℕ) (ss : List (Slot W)) → IsUnique ss → Acquires c ss (acquire c ss)
  unfolding acquire
  acquire-Acquires c ss u =
      acquire_at-Acquires c ss (find_slot (is_bound_to c) 0 ss) u
        (find_slot-FoundFirst (is_bound_to c) ss)

  -- `release` on slots without doubles unbinds the connection and no other.
  abbrev pub Releases : ℕ → List (Slot W) → List (Slot W) → Type 0
  Releases c ss ss' =
      (times c ss' ≡ 0) × ((d : ℕ) → d ≢ c → times d ss' ≡ times d ss) × (readers ss' ≡ readers ss)

  release_at-Releases :
      (c : ℕ) (ss : List (Slot W)) (o : Option ℕ)
      → IsUnique ss
      → FoundFirst (is_bound_to c) ss o
      → Releases c ss (release_at o ss)
  unfolding IsUnique
  release_at-Releases c ss none u f = (f c (λ o h. h), λ d ne. refl, refl)
  release_at-Releases c ss (some i) u a = (
    let x = a.counts unbind_slot c in
        let y = bound-one c a.held.connection a.passes in let w = u c in omega arith,
    λ d ne.
        let x = a.counts unbind_slot d in
        let y = bound-other c d a.held.connection a.passes ne in omega arith,
    update_slot-readers i unbind_slot ss (λ s. refl),
  )

  pub release-Releases : (c : ℕ) (ss : List (Slot W)) → IsUnique ss → Releases c ss (release c ss)
  unfolding release
  release-Releases c ss u =
      release_at-Releases c ss (find_slot (is_bound_to c) 0 ss) u
        (find_slot-FoundFirst (is_bound_to c) ss)
