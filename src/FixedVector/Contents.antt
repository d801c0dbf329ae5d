-- ===== src/FixedVector/Contents.antt =====
-- A FixedVector refines a list of at most `capacity` elements.
use native.Mathlib.Nat.{sub-zero, suc-sub-suc}
use pypilot_event_loop.Prelude.{
  ℕ, zero, suc, ◌+◌, ◌-◌, ◌≤◌, ◌<◌, ◌≡◌, refl, ap, ◌∙◌, List, [], ◌∷◌, ◌++◌, arith, length,
  length-set, take, take-set, set, get_or, ltb, if◌then◌else◌,
}
use pypilot_event_loop.FixedVector.{FixedVector, push_back, erase, pop_back, shift}

module _ {T : Type 0} where
  abbrev pub contents : FixedVector T → List T
  contents v = take v.size v.items

  abbrev pub remove_at : ℕ → List T → List T
  remove_at i [] = []
  remove_at zero (x ∷ xs) = xs
  remove_at (suc i) (x ∷ xs) = x ∷ remove_at i xs

  abbrev pub init : List T → List T
  init [] = []
  init (x ∷ []) = []
  init (x ∷ y ∷ xs) = x ∷ init (y ∷ xs)

  pub record IsValid (capacity : ℕ) (v : FixedVector T) : Type 0 where
    pub storage : length v.items ≡ capacity
    pub within : v.size ≤ capacity

  shift-cons :
      (b : T) (n j : ℕ) (x : T) (xs : List T) → shift b n (suc j) (x ∷ xs) ≡ x ∷ shift b n j xs
  unfolding shift
  shift-cons b zero j x xs = refl
  shift-cons b (suc n) j x xs = shift-cons b n (suc j) x (set xs j (get_or xs (suc j) b))

  pub length-shift : (b : T) (n j : ℕ) (xs : List T) → length (shift b n j xs) ≡ length xs
  unfolding shift
  length-shift b zero j xs = refl
  length-shift b (suc n) j xs = omega (
    arith,
    length-shift b n (suc j) (set xs j (get_or xs (suc j) b)),
    length-set xs j (get_or xs (suc j) b),
  )

  shift_front :
      (b : T) (n : ℕ) (x : T) (xs : List T)
      → n ≤ length xs
      → take n (shift b n 0 (x ∷ xs)) ≡ take n xs
  unfolding shift
  shift_front b zero x xs h = refl
  shift_front b (suc n) x [] h = elim h [ ]
  shift_front b (suc n) x (y ∷ xs) h =
      ap (take (suc n)) (shift-cons b n 0 y (y ∷ xs))
      ∙ ap (◌∷◌ y) (shift_front b n y xs (omega arith))

  -- The loop of `erase` leaves the elements before `index`, and those behind it one place lower.
  pub take-shift :
      (b : T) (index rest : ℕ) (xs : List T)
      → index ≤ rest
      → rest < length xs
      → take rest (shift b (rest - index) index xs) ≡ remove_at index (take (suc rest) xs)
  take-shift b index rest [] h k = elim k [ ]
  take-shift b zero rest (x ∷ xs) h k = rw sub-zero (shift_front b rest x xs (omega arith))
  take-shift b (suc index) zero (x ∷ xs) h k = elim h [ ]
  take-shift b (suc index) (suc rest) (x ∷ xs) h k =
      ap (take (suc rest)) (shift-cons b (suc rest - suc index) index x xs)
      ∙ ap (◌∷◌ x) (rw suc-sub-suc (take-shift b index rest xs (omega arith) (omega arith)))

  take-init : (n : ℕ) (xs : List T) → n < length xs → take n xs ≡ init (take (suc n) xs)
  take-init n [] h = elim h [ ]
  take-init zero (x ∷ xs) h = refl
  take-init (suc n) (x ∷ []) h = absurd (omega arith)
  take-init (suc n) (x ∷ y ∷ xs) h = ap (◌∷◌ x) (take-init n (y ∷ xs) (omega arith))

  module _ (capacity : ℕ) (b : T) where
    -- `push_back` appends to the list that a valid vector stands for, exactly if there is room:
    -- otherwise it returns false and changes nothing. The vector stays valid.
    pub push_back_lem :
        (v : FixedVector T) (x : T)
        → IsValid capacity v
        → IsValid capacity (push_back capacity b v x).1
          × ((push_back capacity b v x).0 ≡ ltb v.size capacity)
          × (contents (push_back capacity b v x).1
              ≡ (if ltb v.size capacity then contents v ++ x ∷ [] else contents v))
    unfolding push_back
    push_back_lem v x h = ground (arith, length-set v.items v.size x, take-set v.items v.size x)

    -- `erase` removes the element at an index within the size and keeps the order of the others;
    -- at any other index it returns false and changes nothing. The vector stays valid.
    pub erase_lem :
        (v : FixedVector T) (index : ℕ)
        → IsValid capacity v
        → IsValid capacity (erase b v index).1
          × ((erase b v index).0 ≡ ltb index v.size)
          × (contents (erase b v index).1
              ≡ (if ltb index v.size then remove_at index (contents v) else contents v))
    unfolding erase
    erase_lem v index h = ground (
      arith,
      length-shift b (v.size - (index + 1)) index v.items,
      take-shift b index (v.size - 1) v.items,
    )

    -- `pop_back` drops the last element of a vector that has one, and otherwise returns false.
    pub pop_back_lem :
        (v : FixedVector T)
        → IsValid capacity v
        → IsValid capacity (pop_back v).1
          × ((pop_back v).0 ≡ ltb 0 v.size)
          × (contents (pop_back v).1 ≡ init (contents v))
    unfolding pop_back
    pop_back_lem v h = ground (arith, take-init (v.size - 1) v.items)
