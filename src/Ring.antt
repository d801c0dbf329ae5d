-- ===== src/Ring.antt =====
-- The circular buffer that async_event_loop/memory_stream.hpp and memory_pin_event_source.hpp
-- share: an array, the index to read, the index to write, and the number of elements.
pub mod Queue
use pypilot_event_loop.Prelude.{
  ℕ, ◌+◌, ◌-◌, ◌%◌, Bool, true, false, Option, none, some, List, get_or, set, replicate, leb, ltb,
  ◌==◌, if◌then◌else◌,
}

pub record Ring {ℓ} (A : Type ℓ) : Type ℓ where
  pub buffer : List A
  pub head : ℕ
  pub tail : ℕ
  pub count : ℕ

-- `capacity` is the template's parameter, `blank` the value-initialised element.
module _ {ℓ} {A : Type ℓ} (capacity : ℕ) (blank : A) where
  unfoldable pub fresh : Ring A
  fresh = record { buffer = replicate capacity blank; head = 0; tail = 0; count = 0 }

  unfoldable pub push : Ring A → A → Bool × Ring A
  push r value = if leb capacity r.count then (false, r) else (
    true,
    record r {
      buffer = set r.buffer r.tail value;
      tail = (r.tail + 1) % capacity;
      count = r.count + 1;
    },
  )

  unfoldable pub pop : Ring A → Option (A × Ring A)
  pop r =
      if r.count == 0
      then none
      else some (
        get_or r.buffer r.head blank,
        record r { head = (r.head + 1) % capacity; count = r.count - 1 },
      )

  unfoldable pub available_for_write : Ring A → ℕ
  available_for_write r = capacity - r.count

unfoldable pub clear {ℓ} : {A : Type ℓ} → Ring A → Ring A
clear r = record r { head = 0; tail = 0; count = 0 }
