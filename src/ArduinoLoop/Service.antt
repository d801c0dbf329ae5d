-- ===== src/ArduinoLoop/Service.antt =====
-- What a round of the cooperative scheduler is to do to its entries.
use pypilot_event_loop.Prelude.{
  ℕ, zero, suc, ◌+◌, ◌^◌, ◌≤◌, ◌<◌, ◌≡◌, refl, ap, true, false, some, List, [], ◌∷◌, ◌++◌, length,
  take, set,
}
use pypilot_event_loop.Timer.Periodic.Deadline.{IsNext}
use pypilot_event_loop.ArduinoLoop.{TaskSlot, live}

pub take-set_inside :
    (n i : ℕ) (xs : List TaskSlot) (s : TaskSlot) → take n (set xs i s) ≡ set (take n xs) i s
take-set_inside zero i xs s = refl
take-set_inside (suc n) i [] s = refl
take-set_inside (suc n) zero (x ∷ xs) s = refl
take-set_inside (suc n) (suc i) (x ∷ xs) s = ap (◌∷◌ x) (take-set_inside n i xs s)

pub set-middle :
    (pre rest : List TaskSlot) (s s' : TaskSlot)
    → set (pre ++ s ∷ rest) (length pre) s' ≡ pre ++ s' ∷ rest
set-middle [] rest s s' = refl
set-middle (p ∷ pre) rest s s' = ap (◌∷◌ p) (set-middle pre rest s s')

-- A live entry, at the time `now`: a periodic one has a period, and is not at the end of the clock.
pub record Sound (now : ℕ) (s : TaskSlot) : Type 0 where
  pub is_live : live s ≡ true
  pub period : s.periodic ≡ true → 0 < s.period_us
  pub room : s.periodic ≡ true → now + s.period_us < 2 ^ 64

abbrev pub AllSound : ℕ → List TaskSlot → Type 0
AllSound now [] = Unit {0}
AllSound now (s ∷ ss) = Sound now s × AllSound now ss

-- A round at the time `now` over the entries of the first list, in order: what is left of them, and
-- the state of the tasks before and after. An entry that is not due waits; one that is due has its
-- task run, and a periodic one then moves to its first deadline in the future, any other is dropped.
pub data Serves {U : Type 0} (work : ℕ → ℕ → U → U) (now : ℕ)
    : List TaskSlot → U → List TaskSlot → U → Type 0 where
  done : {u : U} → Serves work now [] u [] u
  waits :
      {s : TaskSlot} {ss ss' : List TaskSlot} {u u' : U}
      → now < s.next_due_us
      → Serves work now ss u ss' u'
      → Serves work now (s ∷ ss) u (s ∷ ss') u'
  repeats :
      {s : TaskSlot} {ss ss' : List TaskSlot} {u u' : U} {t r : ℕ}
      → s.task ≡ some t
      → s.next_due_us ≤ now
      → s.periodic ≡ true
      → IsNext s.period_us now s.next_due_us r
      → Serves work now ss (work t now u) ss' u'
      → Serves work now (s ∷ ss) u (record s { next_due_us = r } ∷ ss') u'
  fires :
      {s : TaskSlot} {ss ss' : List TaskSlot} {u u' : U} {t : ℕ}
      → s.task ≡ some t
      → s.next_due_us ≤ now
      → s.periodic ≡ false
      → Serves work now ss (work t now u) ss' u'
      → Serves work now (s ∷ ss) u ss' u'
