-- ===== src/LinuxTcp/Tests.antt =====
-- A LinuxTcpServer of async_event_loop_linux/linux_tcp_server.hpp with a limit of two connections.
use pypilot_event_loop.LinuxTcp.Ledger.{accounted, times, close_server-accounted}
use pypilot_event_loop.Prelude.{
  ℕ, ◌+◌, ltb, ◌≤◌, ◌≡◌, refl, true, false, none, [], ◌∷◌, if◌then◌else◌,
}
use pypilot_event_loop.LinuxTcp.{
  Server, new, listen, removes, shuts, accept_callback, transfer_callback, event_callback,
  connection_count, sweep_closed, close_connection, close_server, remove, Flags,
}
use pypilot_event_loop.LinuxTcp.Limit.{IsValid, IsSwept}
use pypilot_event_loop.LinuxTcp.Events.{
  Reaches, starts, listens, accepted, OnSome, callbacks-IsSwept,
}

-- The connections 0 and 1; a third one is turned away.
abbrev two_connections : Server
two_connections =
    accept_callback true []
      (accept_callback true [] (accept_callback true [] (listen true true 20220 (new 2)).1))

two_connections-Reaches : Reaches two_connections
two_connections-Reaches =
    accepted true [] _
      (accepted true [] _ (accepted true [] _ (listens true true 20220 (new 2) (starts 2))))

two_held : connection_count two_connections ≡ 2
unfolding connection_count accept_callback sweep_closed listen close_server
two_held = refl

abbrev hung_up : Flags
hung_up = record { timeout = false; error = false; eof = true }

callbacks-IsSwept_example :
    (connection_count two_connections ≤ two_connections.max_connections)
    × (two_connections.handler ≡ true → IsSwept (accept_callback true (shuts ∷ []) two_connections))
    × OnSome (λ s. IsValid s × IsSwept s) (transfer_callback 0 (shuts ∷ []) two_connections)
    × OnSome (λ s. IsValid s × IsSwept s) (event_callback hung_up 0 (shuts ∷ []) two_connections)
callbacks-IsSwept_example =
    callbacks-IsSwept two_connections two_connections-Reaches 0 hung_up true (shuts ∷ [])

-- The handler has the connection removed that hung up.
removed_in_close : event_callback hung_up 0 (removes 0 ∷ []) two_connections ≡ none
unfolding event_callback connection_count accept_callback sweep_closed listen close_server remove
    close_connection
removed_in_close = refl

-- Two connections, and one turned away.
close_server-accounted_example :
    let s' = close_server two_connections in
    ((n : ℕ) → accounted n two_connections ≡ (if ltb n two_connections.next_id then 1 else 0))
    × ((n : ℕ)
        → times n s'.refused + times n s'.freed ≡ (if ltb n two_connections.next_id then 1 else 0))
    × (s'.listeners_made ≡ s'.listeners_freed)
close_server-accounted_example = close_server-accounted two_connections two_connections-Reaches
