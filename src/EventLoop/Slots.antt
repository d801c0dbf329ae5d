-- ===== src/EventLoop/Slots.antt =====
-- The table of an EventLoop: what holds of every slot.
use pypilot_event_loop.Prelude.{
  ℕ, zero, suc, ◌+◌, ◌-◌, ◌^◌, ◌<◌, ◌≡◌, refl, inl, inr, Bool, false, ◌&&◌, some, List, [], ◌∷◌,
  arith, ltb, ◌==◌, length, set, get_or-set, replicate, Bool-cases,
}
use pypilot_event_loop.Task.{CallbackTask, fresh}
use pypilot_event_loop.Task
use pypilot_event_loop.Task.Lifecycle
use pypilot_event_loop.EventLoop.{Slot, blank, slot_at, first_free, EventLoop, Callable, vacate}

module _ {C : Type 0} where
  -- A slot is in use exactly while its task is active.
  pub record SlotValid (s : Slot C) : Type 0 where
    pub task : Lifecycle.IsValid s.task
    pub in_use : s.used ≡ s.task.active
    pub small : s.generation < 2 ^ 16

  unfoldable pub AllSlots : List (Slot C) → Type 0
  AllSlots slots = (i : ℕ) → SlotValid (slot_at slots i)

  fresh-IsValid : Lifecycle.IsValid {C = Callable C} fresh
  fresh-IsValid = ground arith

  blank-SlotValid : SlotValid (blank {C = C})
  blank-SlotValid = record { task = fresh-IsValid; in_use = refl; small = omega arith }

  pub set-AllSlots :
      (slots : List (Slot C)) (i : ℕ) (s : Slot C)
      → AllSlots slots
      → SlotValid s
      → AllSlots (set slots i s)
  unfolding AllSlots
  set-AllSlots slots i s v k j = elim (Bool-cases ((j == i) && ltb i (length slots))) [
    | inl e ↦ rw (get_or-set slots i j s blank, e) k
    | inr e ↦ rw (get_or-set slots i j s blank, e) (v j)
  ]

  -- The search finds a free entry.
  pub first_free-lem :
      (k : ℕ) (slots : List (Slot C)) (i : ℕ)
      → first_free k slots ≡ some i
      → (j : ℕ) × (i ≡ k + j) × (j < length slots) × ((slot_at slots j).used ≡ false)
  first_free-lem k [] i h = ground arith
  first_free-lem k (s ∷ ss) i h = elim (Bool-cases s.used) [
    | inl used ↦
        let (j, e, lt, free) = first_free-lem (suc k) ss i (ground (arith, used, h)) in
        (suc j, omega (arith, e), omega (arith, lt), free)
    | inr free ↦ (0, ground (arith, free, h), omega arith, free)
  ]

  -- What the operations write into a slot is valid again.
  pub vacate-SlotValid : (s : Slot C) → SlotValid s → SlotValid (vacate s)
  unfolding Task.clear Task.destroy_now
  vacate-SlotValid s v = ground (arith, v.task)

  pub set_enabled-SlotValid :
      (s : Slot C) (b : Bool)
      → SlotValid s
      → SlotValid (record s { task = Task.set_enabled s.task b })
  unfolding Task.set_enabled
  set_enabled-SlotValid s b v = ground (arith, v.task)

pub replicate-AllSlots : (C : Type 0) (n : ℕ) → AllSlots (replicate n (blank {C = C}))
unfolding AllSlots
replicate-AllSlots C zero i = blank-SlotValid
replicate-AllSlots C (suc n) zero = blank-SlotValid
replicate-AllSlots C (suc n) (suc i) = replicate-AllSlots C n i

-- A loop's table is valid, and not larger than `EventLoop()` allows.
pub record IsValid {S C : Type 0} (l : EventLoop S C) : Type 0 where
  pub slots : AllSlots l.slots
  pub few : length l.slots < 2 ^ 16 - 1
