-- ===== src/Clock.antt =====
-- async_event_loop/micros32_extender.hpp: the 64-bit extension of a 32-bit microsecond counter.
pub mod Monotonic
mod Tests
use pypilot_event_loop.Prelude.{ℕ, Bool, true, false, List, [], ◌∷◌, add64, sub32}

pub record Micros32Extender : Type 0 where
  pub extended_us : ℕ
  pub last_raw_us : ℕ
  pub initialized : Bool

-- The member initialisers.
abbrev pub fresh : Micros32Extender
fresh = record { extended_us = 0; last_raw_us = 0; initialized = false }

update_from : Bool → Micros32Extender → ℕ → ℕ × Micros32Extender
update_from false e raw_us =
    (raw_us, record { extended_us = raw_us; last_raw_us = raw_us; initialized = true })
update_from true e raw_us =
    let delta = sub32 raw_us e.last_raw_us in
    let extended = add64 e.extended_us delta in
    (extended, record e { extended_us = extended; last_raw_us = raw_us })

-- `update`: the result, and the extender after it.
pub update : Micros32Extender → ℕ → ℕ × Micros32Extender
unfolding update_from
update e raw_us = update_from e.initialized e raw_us

pub reset : Micros32Extender → ℕ → Micros32Extender
reset e raw_us = record { extended_us = raw_us; last_raw_us = raw_us; initialized = true }

-- The results of successive samples.
pub sample : Micros32Extender → List ℕ → List ℕ
sample e [] = []
sample e (raw ∷ raws) = let (us, e') = update e raw in us ∷ sample e' raws
