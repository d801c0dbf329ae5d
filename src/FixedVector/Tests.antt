-- ===== src/FixedVector/Tests.antt =====
-- Runs of the vector at capacity 4.
use pypilot_event_loop.Prelude.{ℕ, ◌≡◌, true, [], ◌∷◌, arith}
use pypilot_event_loop.FixedVector.{FixedVector, pop_back}
use pypilot_event_loop.FixedVector.Contents.{IsValid, contents, pop_back_lem}

abbrev three : FixedVector ℕ
three = record { items = 5 ∷ 6 ∷ 7 ∷ 0 ∷ []; size = 3 }

three-IsValid : IsValid 4 three
three-IsValid = omega arith

pop_back_lem_example :
    IsValid 4 (pop_back three).1
    × ((pop_back three).0 ≡ true)
    × (contents (pop_back three).1 ≡ 5 ∷ 6 ∷ [])
pop_back_lem_example = pop_back_lem 4 0 three three-IsValid
