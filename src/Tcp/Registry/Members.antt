-- ===== src/Tcp/Registry/Members.antt =====
-- The registry as a set of connections, with its size.
use pypilot_event_loop.Prelude.{
  ℕ, zero, suc, ◌+◌, ◌≤◌, ◌<◌, ◌≡◌, refl, inl, inr, Bool, ◌&&◌, ◌||◌, Option, none, some, List, [],
  ◌∷◌, arith, ltb, ◌==◌, if◌then◌else◌, length, length-set, get_or, set, Bool-cases, Option-cases,
  ==_iff,
}
use pypilot_event_loop.Tcp.Registry.{
  TcpConnectionRegistry, is, is_null, index_of, null_from, decrement, add, remove, prune,
  prune_invalid,
}

-- How often a connection is in the table, and how many pointers are not null.
abbrev pub times : ℕ → List (Option ℕ) → ℕ
times c [] = 0
times c (x ∷ xs) = (if is c x then 1 else 0) + times c xs

abbrev pub occupied : List (Option ℕ) → ℕ
occupied [] = 0
occupied (x ∷ xs) = (if is_null x then 0 else 1) + occupied xs

-- The count is the number of pointers, and no connection is there twice.
pub record IsValid (r : TcpConnectionRegistry) : Type 0 where
  pub counted : r.count ≡ occupied r.connections
  pub once : (c : ℕ) → times c r.connections ≤ 1

times-set :
    (c : ℕ) (xs : List (Option ℕ)) (i : ℕ) (x : Option ℕ)
    → i < length xs
    → times c (set xs i x) + (if is c (get_or xs i none) then 1 else 0)
      ≡ times c xs + (if is c x then 1 else 0)
times-set c [] i x h = elim h [ ]
times-set c (y ∷ xs) zero x h = omega arith
times-set c (y ∷ xs) (suc i) x h = omega (arith, times-set c xs i x (omega arith))

occupied-set :
    (xs : List (Option ℕ)) (i : ℕ) (x : Option ℕ)
    → i < length xs
    → occupied (set xs i x) + (if is_null (get_or xs i none) then 0 else 1)
      ≡ occupied xs + (if is_null x then 0 else 1)
occupied-set [] i x h = elim h [ ]
occupied-set (y ∷ xs) zero x h = omega arith
occupied-set (y ∷ xs) (suc i) x h = omega (arith, occupied-set xs i x (omega arith))

index_of-some :
    (c k : ℕ) (xs : List (Option ℕ)) (i : ℕ)
    → index_of c k xs ≡ some i
    → (j : ℕ) × (i ≡ k + j) × (j < length xs) × (get_or xs j none ≡ some c)
index_of-some c k [] i h = ground (arith, h)
index_of-some c k (none ∷ xs) i h =
    let (j, e, lt, at) = index_of-some c (suc k) xs i h in
    (suc j, omega (arith, e), omega (arith, lt), at)
index_of-some c k (some d ∷ xs) i h = elim (Bool-cases (c == d)) [
  | inl same ↦ (0, ground (arith, same, h), omega arith, ground (arith, same))
  | inr other ↦
      let (j, e, lt, at) = index_of-some c (suc k) xs i (ground (arith, other, h)) in
      (suc j, omega (arith, e), omega (arith, lt), at)
]

index_of-none : (c k : ℕ) (xs : List (Option ℕ)) → index_of c k xs ≡ none → times c xs ≡ 0
index_of-none c k [] h = refl
index_of-none c k (x ∷ xs) h = elim (Bool-cases (is c x)) [
  | inl same ↦ absurd (ground (arith, same, h))
  | inr other ↦
      let e = index_of-none c (suc k) xs (ground (arith, other, h)) in ground (arith, other, e)
]

null_from-some :
    (k : ℕ) (xs : List (Option ℕ)) (i : ℕ)
    → null_from k xs ≡ some i
    → (j : ℕ) × (i ≡ k + j) × (j < length xs) × (get_or xs j none ≡ none)
null_from-some k [] i h = ground (arith, h)
null_from-some k (none ∷ xs) i h = (0, ground (arith, h), omega arith, refl)
null_from-some k (some d ∷ xs) i h =
    let (j, e, lt, at) = null_from-some (suc k) xs i h in
    (suc j, omega (arith, e), omega (arith, lt), at)

null_from-none : (k : ℕ) (xs : List (Option ℕ)) → null_from k xs ≡ none → occupied xs ≡ length xs
null_from-none k [] h = refl
null_from-none k (none ∷ xs) h = absurd (ground (arith, h))
null_from-none k (some d ∷ xs) h = omega (arith, null_from-none (suc k) xs h)

times-at : (c : ℕ) (xs : List (Option ℕ)) (j : ℕ) → get_or xs j none ≡ some c → 1 ≤ times c xs
times-at c [] j h = absurd (ground (arith, h))
times-at c (x ∷ xs) zero h = ground (arith, h)
times-at c (x ∷ xs) (suc j) h = omega (arith, times-at c xs j h)

occupied-le : (xs : List (Option ℕ)) → occupied xs ≤ length xs
occupied-le [] = omega arith
occupied-le (none ∷ xs) = omega (arith, occupied-le xs)
occupied-le (some d ∷ xs) = omega (arith, occupied-le xs)

-- Adding a connection: it is accepted if it is there already, or if there is room; then it is there,
-- once. The registry stays valid, and every other connection is there as before.
pub add-times :
    (c : ℕ) (r : TcpConnectionRegistry)
    → IsValid r
    → let (added, r') = add c r in
      IsValid r'
      × (added ≡ (ltb 0 (times c r.connections) || ltb r.count (length r.connections)))
      × ((d : ℕ)
          → times d r'.connections ≡ (if (d == c) && added then 1 else times d r.connections))
unfolding add
add-times c r v = elim (Option-cases (index_of c 0 r.connections)) [
  | inr (i, found) ↦
      let (j, e, lt, at) = index_of-some c 0 r.connections i found in
      let there : times c r.connections ≡ 1 =
        omega (arith, times-at c r.connections j at, v.once c) in
      rw (add, found)
        (v, ground (arith, there), λ d. ground (arith, there, Bool-cases (d == c), ==_iff d c))
  | inl missing ↦
      let absent = index_of-none c 0 r.connections missing in
      elim (Option-cases (null_from 0 r.connections)) [
        | inl no_room ↦
            let e = null_from-none 0 r.connections no_room in
            rw (add, missing, no_room)
              (v, ground (arith, absent, e, v.counted), λ d. ground (arith, Bool-cases (d == c)))
        | inr (i, free) ↦
            let (j, e, lt, at) = null_from-some 0 r.connections i free in
            let here : i ≡ j = omega (arith, e) in
            let xs = set r.connections i (some c) in
            let room : occupied xs ≡ occupied r.connections + 1 =
              ground (arith, here, at, occupied-set r.connections j (some c) lt) in
            let same : (d : ℕ) → times d xs ≡ (if d == c then 1 else times d r.connections) = λ d.
              ground
                (arith, here, at, absent, times-set d r.connections j (some c) lt, ==_iff d c) in
            rw (add, missing, free)
              (
                record {
                  counted = omega (arith, room, v.counted);
                  once = λ d. ground (arith, same d, v.once d);
                },
                ground (
                  arith,
                  absent,
                  room,
                  v.counted,
                  occupied-le xs,
                  length-set r.connections i (some c),
                ),
                λ d. ground (arith, same d),
              )
      ]
]

-- Removing a connection: it succeeds if it is there; then it no longer is. The registry stays valid,
-- and every other connection is there as before.
pub remove-times :
    (c : ℕ) (r : TcpConnectionRegistry)
    → IsValid r
    → let (removed, r') = remove c r in
      IsValid r'
      × (removed ≡ ltb 0 (times c r.connections))
      × ((d : ℕ) → times d r'.connections ≡ (if d == c then 0 else times d r.connections))
unfolding remove
remove-times c r v = elim (Option-cases (index_of c 0 r.connections)) [
  | inl missing ↦
      let absent = index_of-none c 0 r.connections missing in
      rw (remove, missing) (v, ground (arith, absent), λ d. ground (arith, absent, ==_iff d c))
  | inr (i, found) ↦
      let (j, e, lt, at) = index_of-some c 0 r.connections i found in
      let here : i ≡ j = omega (arith, e) in
      let there = times-at c r.connections j at in
      let xs = set r.connections i none in
      let less : occupied xs + 1 ≡ occupied r.connections =
        ground (arith, here, at, occupied-set r.connections j none lt) in
      let same : (d : ℕ) → times d xs ≡ (if d == c then 0 else times d r.connections) =
        λ d. ground (arith, here, at, v.once d, times-set d r.connections j none lt, ==_iff d c) in
      rw (remove, found)
        (
          record {
            counted = ground (arith, less, v.counted);
            once = λ d. ground (arith, same d, v.once d);
          },
          ground (arith, there),
          λ d. same d,
        )
]

prune-lem :
    (valid : ℕ → Bool) (xs : List (Option ℕ)) (n : ℕ)
    → occupied xs ≤ n
    → let (ys, m) = prune valid xs n in
      (m + occupied xs ≡ n + occupied ys)
      × (occupied ys ≤ m)
      × ((d : ℕ) → times d ys ≡ (if valid d then times d xs else 0))
unfolding prune
prune-lem valid [] n h = (omega arith, h, λ d. ground (arith, Bool-cases (valid d)))
prune-lem valid (none ∷ xs) n h =
    let (m, le, t) = prune-lem valid xs n (omega (arith, h)) in
    (omega (arith, m), omega (arith, le), λ d. ground (arith, t d, Bool-cases (valid d)))
prune-lem valid (some c ∷ xs) n h = elim (Bool-cases (valid c)) [
  | inl kept ↦
      let (m, le, t) = prune-lem valid xs n (omega (arith, h)) in
      rw kept (
        omega (arith, m),
        omega (arith, le, m),
        λ d. ground (arith, t d, kept, Bool-cases (valid d), ==_iff d c),
      )
  | inr dropped ↦
      let (m, le, t) = prune-lem valid xs (decrement n) (ground (arith, h)) in
      rw dropped (
        ground (arith, m, h),
        ground (arith, le, m, h),
        λ d. ground (arith, t d, dropped, Bool-cases (valid d), ==_iff d c),
      )
]

-- `prune_invalid` keeps exactly the connections that are valid, and the registry stays valid.
pub prune_invalid-times :
    (valid : ℕ → Bool) (r : TcpConnectionRegistry)
    → IsValid r
    → IsValid (prune_invalid valid r)
      × ((d : ℕ)
          → times d (prune_invalid valid r).connections
            ≡ (if valid d then times d r.connections else 0))
unfolding prune_invalid
prune_invalid-times valid r v =
    let (m, le, t) = prune-lem valid r.connections r.count (omega (arith, v.counted)) in
    (
      record {
        counted = omega (arith, m, v.counted);
        once = λ d. ground (arith, t d, v.once d, Bool-cases (valid d));
      },
      t,
    )
