-- ===== src/Timer/OneShot/Tests.antt =====
-- Runs of the one-shot timer, as in tests/test_timer.cpp.
use pypilot_event_loop.Prelude.{◌≡◌, refl, true, false, [], ◌∷◌}
use pypilot_event_loop.Timer.OneShot.{fresh, arm, ready, polls}
use pypilot_event_loop.Timer.OneShot.Once.{polls-arm}

once : (polls (arm fresh 200) (199 ∷ 200 ∷ 201 ∷ [])).0 ≡ false ∷ true ∷ false ∷ []
unfolding polls arm ready
once = refl

polls-arm_example :
    ((polls (arm fresh 200) (199 ∷ 200 ∷ 201 ∷ [])).0 ≡ false ∷ true ∷ false ∷ [])
    × ((polls (arm fresh 200) (199 ∷ 200 ∷ 201 ∷ [])).1.fired ≡ true)
polls-arm_example = polls-arm fresh 200 (199 ∷ 200 ∷ 201 ∷ [])
