-- ===== src/Tcp/Lines/Client.antt =====
-- TcpLineClientHandler of async_event_loop/tcp_line_protocol.hpp.
use pypilot_event_loop.Prelude.{ℕ, Option, none, some, List, if◌then◌else◌}
use pypilot_event_loop.Reader.Line
use pypilot_event_loop.Reader.Line.{LineReader, default_options}
use pypilot_event_loop.Tcp.Lines.{Connections, bound_stream}

-- ITcpLineClientHandler.
pub record LineClientHandler (W : Type 0) : Type 0 where
  pub on_connect : ℕ → W → W
  pub on_line : ℕ → List ℕ → W → W
  pub on_close : ℕ → W → W
  pub on_error : ℕ → W → W

pub record LineClient (W : Type 0) : Type 0 where
  pub connection : Option ℕ
  pub reader : LineReader W

module _ {W : Type 0} (net : Connections W) (handler : LineClientHandler W) (buffer_size : ℕ) where
  abbrev pub new : LineClient W
  new = record { connection = none; reader = Line.new buffer_size default_options none }

  abbrev pub handle_line : Option ℕ → List ℕ → W → W
  handle_line none line w = w
  handle_line (some c) line w = if net.valid c w then handler.on_line c line w else w

  unfoldable pub on_connect : ℕ → LineClient W → W → LineClient W × W
  on_connect c s w = (record s { connection = some c }, handler.on_connect c w)

  -- `none`: the poll of the reader goes on when the fuel is used up.
  unfoldable pub on_data : ℕ → LineClient W → W → Option (LineClient W × W)
  on_data fuel s w =
      elim (Line.poll buffer_size (bound_stream net s.connection) fuel
        (record s.reader { callback = some (handle_line s.connection) }) w) [
          | none ↦ none
          | some (r, w') ↦ some (record s { reader = r }, w')
        ]

  unfoldable pub on_close : ℕ → LineClient W → W → LineClient W × W
  on_close c s w = (record s { connection = none }, handler.on_close c w)

  unfoldable pub on_error : ℕ → LineClient W → W → LineClient W × W
  on_error code s w = (record s { connection = none }, handler.on_error code w)
