-- ===== src/Libevent/Tests.antt =====
-- LinuxLibeventLoop of async_event_loop_linux/libevent_loop.hpp on concrete calls.
use pypilot_event_loop.Prelude.{ℕ, true, false, [], ◌∷◌, some, ◌≡◌, refl, arith, ◌⊎◌, ◌≤◌, ◌≢◌}
use pypilot_event_loop.Libevent.{
  Loop, new, remove, destroy, compact_all, compact_removed_events, add_periodic, add_fd,
  timeval_from_us, makes, arms, frees, watches,
}
use pypilot_event_loop.Libevent.Ledger.{IsAlive, made, freed, IsSound}
use pypilot_event_loop.Libevent.Calls.{
  adds_periodic, adds_fd, removes, call, timer_callback, fd_callback,
}
use pypilot_event_loop.Libevent.Reachable.{Reaches, starts, calls, callback-Ends, destroy-freed}
use pypilot_event_loop.Libevent.Callbacks.{Ends}
use pypilot_event_loop.Libevent.Removal.{used_by, remove-unused}
use pypilot_event_loop.Libevent.Rate.{fires, ideal, fires-ideal}

-- The task 7 every 5 µs, the task 8 on the descriptor 3, and an event that libevent refuses.
abbrev some_calls : Loop
some_calls =
    call (adds_fd true false (some 4) 9)
      (call (adds_fd true true (some 3) 8) (call (adds_periodic true true 100 7 5) (new true)))

some_calls-Reaches : Reaches some_calls
some_calls-Reaches = calls (adds_fd true false (some 4) 9) _ (
    calls (adds_fd true true (some 3) 8) _
      (calls (adds_periodic true true 100 7 5) _ (starts true)))

first-IsAlive : IsAlive 0 some_calls.log
unfolding add_periodic add_fd compact_removed_events compact_all
first-IsAlive = refl

refused :
    some_calls.log
    ≡ frees 2 ∷ makes 2 ∷ watches 1 3 ∷ makes 1 ∷ arms 0 (timeval_from_us 5) ∷ makes 0 ∷ []
unfolding add_periodic add_fd compact_removed_events compact_all
refused = refl

-- The task removes itself.
callback-Ends_example :
    Ends 0 (timer_callback 0 105 (removes 7 ∷ []) some_calls)
    ⊎ Ends 0 (fd_callback 0 (removes 7 ∷ []) some_calls)
callback-Ends_example =
    callback-Ends some_calls some_calls-Reaches 0 first-IsAlive 105 (removes 7 ∷ [])

destroy-freed_example :
    IsSound (destroy some_calls).log
    × ((id : ℕ)
        → (freed id (destroy some_calls).log ≡ made id (destroy some_calls).log)
          × (made id (destroy some_calls).log ≤ 1))
destroy-freed_example = destroy-freed some_calls some_calls-Reaches

remove-unused_example :
    (used_by 7 (remove 7 some_calls).1 ≡ false)
    × ((t : ℕ) → t ≢ 7 → used_by t (remove 7 some_calls).1 ≡ used_by t some_calls)
    × (used_by 7 some_calls ≡ true → (remove 7 some_calls).0 ≡ true)
remove-unused_example = remove-unused 7 some_calls

-- The second callback is late by more than a period.
fires-ideal_example : fires 10 20 (21 ∷ 47 ∷ 48 ∷ []) ≡ (50, ideal 10 20 (21 ∷ 47 ∷ 48 ∷ []))
fires-ideal_example =
    fires-ideal 10 20 (21 ∷ 47 ∷ 48 ∷ []) (omega arith, (omega arith, (omega arith, tt)))
      (omega arith)
