-- ===== src/LinuxTcp/Client/Tests.antt =====
-- A LinuxTcpClient of async_event_loop_linux/linux_tcp_client.hpp whose handler connects again when it is
-- told of a close.
use pypilot_event_loop.Prelude.{refl, true, false, some, none, [], ◌∷◌}
use pypilot_event_loop.LinuxTcp.Client
use pypilot_event_loop.LinuxTcp.Client.{
  Client, Handler, Attempt, refuses, connects, in_progress, connect, poll, end_of_file, fails,
  close_client, close_connection,
}
use pypilot_event_loop.LinuxTcp.Descriptors.{IsBalanced, Keeps, calls-IsBalanced}

abbrev silent : Handler
silent = record { on_connect = λ s. s; on_data = λ s. s; on_close = λ s. s; on_error = λ s. s }

abbrev reconnects : Handler
reconnects = record silent { on_close = λ s. (connect silent (some (in_progress 6 ∷ [])) true s).1 }

silent-Keeps : Keeps silent
silent-Keeps = record {
  on_connect = λ s b. b;
  on_data = λ s b. b;
  on_close = λ s b. b;
  on_error = λ s b. b;
}

new-IsBalanced : IsBalanced Client.new
unfolding IsBalanced
new-IsBalanced fd = (refl, refl)

reconnects-Keeps : Keeps reconnects
reconnects-Keeps = record {
  on_connect = λ s b. b;
  on_data = λ s b. b;
  on_close = λ s b.
      (calls-IsBalanced silent silent-Keeps (some (in_progress 6 ∷ [])) true false fails s b).0;
  on_error = λ s b. b;
}

-- The first address refuses, and the second takes the connection at once.
abbrev connected_client : Client
connected_client = (connect reconnects (some (refuses 4 ∷ connects 5 ∷ [])) true Client.new).1

connected_client-IsBalanced : IsBalanced connected_client
connected_client-IsBalanced =
    (calls-IsBalanced reconnects reconnects-Keeps (some (refuses 4 ∷ connects 5 ∷ [])) true false
      fails Client.new new-IsBalanced).0

calls-IsBalanced_example :
    IsBalanced (connect reconnects none true connected_client).1
    × IsBalanced (poll reconnects end_of_file false true connected_client)
    × IsBalanced (close_client connected_client)
    × IsBalanced (close_connection connected_client)
calls-IsBalanced_example =
    calls-IsBalanced reconnects reconnects-Keeps none true false end_of_file connected_client
      connected_client-IsBalanced
