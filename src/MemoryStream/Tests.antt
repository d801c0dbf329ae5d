-- ===== src/MemoryStream/Tests.antt =====
-- Runs of a memory stream of four bytes, as in tests/test_memory_stream.cpp.
use pypilot_event_loop.Prelude.{ℕ, ◌≡◌, refl, some, [], ◌∷◌, arith}
use pypilot_event_loop.Ring.{Ring, push}
use pypilot_event_loop.Ring.Queue.{IsValid}
use pypilot_event_loop.MemoryStream.{write}

-- 8 and 9, round the end of the array.
abbrev wrapped : Ring ℕ
wrapped = record { buffer = 9 ∷ 0 ∷ 0 ∷ 8 ∷ []; head = 3; tail = 1; count = 2 }

wrapped-IsValid : IsValid 4 0 wrapped
wrapped-IsValid = omega arith

abbrev idle : Ring ℕ
idle = record { buffer = 0 ∷ 0 ∷ 0 ∷ 0 ∷ []; head = 3; tail = 3; count = 0 }

write_wraps : (write 4 (some (1 ∷ 2 ∷ 3 ∷ [])) wrapped).0 ≡ 2
unfolding write push
write_wraps = refl
