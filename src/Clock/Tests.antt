-- ===== src/Clock/Tests.antt =====
-- Runs of the extender, as in tests/test_micros32_extender.cpp.
use pypilot_event_loop.Prelude.{◌≡◌, refl, [], ◌∷◌, map, arith}
use pypilot_event_loop.Clock.{fresh, update, sample}
use pypilot_event_loop.Clock.Monotonic.{raw, sample_exact}

rollover : sample fresh (0xfffffff0 ∷ 0x10 ∷ []) ≡ 0xfffffff0 ∷ 0x100000010 ∷ []
unfolding sample update
rollover = refl

sample_exact_example :
    sample fresh (map raw (0x2fffffff0 ∷ 0x300000010 ∷ 0x3f0000000 ∷ []))
    ≡ 0xfffffff0 ∷ 0x100000010 ∷ 0x1f0000000 ∷ []
sample_exact_example =
    sample_exact 0x2fffffff0 (0x300000010 ∷ 0x3f0000000 ∷ []) (omega arith) (omega arith)
