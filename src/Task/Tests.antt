-- ===== src/Task/Tests.antt =====
-- Runs of a callback task, as in tests/test_callback_task.cpp; callables are named by numbers.
use pypilot_event_loop.Prelude.{ℕ, ◌≡◌, refl, true, false, some, [], ◌∷◌, arith}
use pypilot_event_loop.Task.{
  CallbackTask, fresh, set, poll, request, requests, enables, clears, sets,
}
use pypilot_event_loop.Task.Lifecycle.{IsValid, After, poll_defers}

abbrev seven : CallbackTask ℕ
seven = record {
  callable = some 7;
  active = true;
  enabled = true;
  invoking = false;
  clear_requested = false;
  destroyed = [];
}

stored_seven : set fresh 7 ≡ (true, seven)
unfolding set
stored_seven = refl

seven-IsValid : IsValid seven
seven-IsValid = ground arith

self_removal : (poll (λ c t. requests t (clears ∷ sets 9 ∷ [])) seven).destroyed ≡ 7 ∷ []
unfolding poll requests request
self_removal = refl

poll_defers_example :
    let running = record seven { invoking = true } in
    ((requests running (clears ∷ [])).callable ≡ some 7)
    × ((requests running (clears ∷ [])).destroyed ≡ [])
    × After 7 [] true (poll (λ _ u. requests (requests u (clears ∷ [])) (enables true ∷ [])) seven)
poll_defers_example =
    poll_defers seven 7 (clears ∷ []) (enables true ∷ []) seven-IsValid refl refl refl
