-- ===== src/FixedVector.antt =====
-- FixedVector of async_event_loop/fixed_vector.hpp.
pub mod Contents
mod Tests
use pypilot_event_loop.Prelude.{
  ℕ, zero, suc, ◌+◌, ◌-◌, Bool, true, false, List, ltb, leb, ◌==◌, if◌then◌else◌, get_or, set,
  replicate,
}

-- `items` is the whole array `items_[Capacity]`.
pub record FixedVector {ℓ} (T : Type ℓ) : Type ℓ where
  pub items : List T
  pub size : ℕ

-- `capacity` is the template's parameter, `blank` the value-initialised `T{}`.
module _ {ℓ} {T : Type ℓ} (capacity : ℕ) (blank : T) where
  pub fresh : FixedVector T
  fresh = record { items = replicate capacity blank; size = 0 }

  pub push_back : FixedVector T → T → Bool × FixedVector T
  push_back v value =
      if leb capacity v.size
      then (false, v)
      else (true, record v { items = set v.items v.size value; size = v.size + 1 })

  pub full : FixedVector T → Bool
  full v = leb capacity v.size

-- `for (i = j + 1; ...; ++i) items_[i - 1] = items_[i];` for `n` rounds.
unfoldable pub shift {ℓ} : {T : Type ℓ} → T → ℕ → ℕ → List T → List T
shift blank zero j items = items
shift blank (suc n) j items = shift blank n (suc j) (set items j (get_or items (suc j) blank))

module _ {ℓ} {T : Type ℓ} (blank : T) where
  pub erase : FixedVector T → ℕ → Bool × FixedVector T
  unfolding shift
  erase v index = if leb v.size index then (false, v) else (
    true,
    record v { items = shift blank (v.size - (index + 1)) index v.items; size = v.size - 1 },
  )

module _ {ℓ} {T : Type ℓ} where
  pub pop_back : FixedVector T → Bool × FixedVector T
  pop_back v = if v.size == 0 then (false, v) else (true, record v { size = v.size - 1 })

  pub clear : FixedVector T → FixedVector T
  clear v = record v { size = 0 }
