-- ===== src/Tcp/Tests.antt =====
-- Runs of the backpressure monitor and the connection registry.
use pypilot_event_loop.Prelude.{ℕ, ◌≡◌, refl, true, false, ◌≤◌, none, some, [], ◌∷◌, arith}
use pypilot_event_loop.Tcp.Monitor.{
  TcpBackpressureMonitor, Connection, embedded_default, reset, checks,
}
use pypilot_event_loop.Tcp.Monitor.Report.{reports_once}
use pypilot_event_loop.Tcp.Registry.{TcpConnectionRegistry}
use pypilot_event_loop.Tcp.Registry.Members.{IsValid, times}

abbrev sending : ℕ → Connection
sending n = record { valid = true; output_size = n }

abbrev monitor : TcpBackpressureMonitor
monitor = record { options = embedded_default; over_high_polls = 2; reported = true }

reports_once_example :
    (checks (reset monitor) (sending 800 ∷ sending 900 ∷ sending 300 ∷ sending 1000 ∷ [])).0
    ≡ false ∷ true ∷ false ∷ false ∷ []
reports_once_example =
    reports_once monitor (sending 800 ∷ []) (sending 900) (sending 300 ∷ sending 1000 ∷ []) refl
      refl (omega arith) ((refl, omega arith), ground arith) (refl, omega arith) (ground arith)

-- Connections 7 and 9, and room for one more.
abbrev registry : TcpConnectionRegistry
registry = record { connections = some 7 ∷ none ∷ some 9 ∷ []; count = 2 }

times_once : (c : ℕ) → times c registry.connections ≤ 1
times_once c = ground arith

registry-IsValid : IsValid registry
registry-IsValid = record { counted = refl; once = times_once }
