-- ===== src/Tcp/Lines.antt =====
-- TcpLineServerHandler and TcpLineClientHandler of async_event_loop/tcp_line_protocol.hpp, and the
-- TcpConnectionByteStream of async_event_loop/tcp.hpp under them. Connections are named by numbers;
-- `W` is the state that they and the user's handler share.
pub mod Server
pub mod Client
pub mod Slots
pub mod Binding
pub mod Delivery
mod Tests
use pypilot_event_loop.Prelude.{
  ℕ, zero, suc, ◌+◌, Bool, true, false, not, ◌&&◌, ◌||◌, Option, none, some, List, [], ◌∷◌, ltb,
  leb, ◌==◌, if◌then◌else◌, length, get_elem?, get_or, set, replicate, take,
}
use pypilot_event_loop.Stream.{ByteStream}
use pypilot_event_loop.Reader.Line
use pypilot_event_loop.Reader.Line.{LineReader, default_options}
use pypilot_event_loop.Tcp.Monitor
use pypilot_event_loop.Tcp.Monitor.{
  TcpBackpressureOptions, TcpBackpressureInfo, TcpBackpressureMonitor, disabled, check, configure,
}

-- What the handlers use of the connections; `write` returns `none` for a negative result.
pub record Connections (W : Type 0) : Type 0 where
  pub stream : ℕ → ByteStream W
  pub valid : ℕ → W → Bool
  pub output_size : ℕ → W → ℕ
  pub write : ℕ → List ℕ → W → Option ℕ × W
  pub close : ℕ → W → W

-- ITcpLineServerHandler.
pub record LineServerHandler (W : Type 0) : Type 0 where
  pub on_accept : ℕ → W → W
  pub on_line : ℕ → List ℕ → W → W
  pub on_close : ℕ → W → W
  pub on_error : ℕ → ℕ → W → W
  pub on_too_many_connections : ℕ → W → W
  pub on_backpressure : ℕ → TcpBackpressureInfo → W → W

-- The bytes of a text are given without their final zero.
abbrev pub same_bytes : List ℕ → List ℕ → Bool
same_bytes [] [] = true
same_bytes [] (b ∷ bs) = false
same_bytes (a ∷ xs) [] = false
same_bytes (a ∷ xs) (b ∷ bs) = (a == b) && same_bytes xs bs

abbrev pub line_equals : List ℕ → Option (List ℕ) → Bool
line_equals line none = length line == 0
line_equals line (some text) = same_bytes line text

-- The text in `dst`, an array of `capacity` bytes.
abbrev pub line_to_cstr : List ℕ → ℕ → List ℕ
line_to_cstr line zero = []
line_to_cstr line (suc n) = take (if leb (suc n) (length line) then n else length line) line

module _ {W : Type 0} (net : Connections W) where
  abbrev pub tcp_write_newline : ℕ → W → Option ℕ × W
  tcp_write_newline c w = net.write c (b'\n' ∷ []) w

  abbrev pub is_one : Option ℕ → Bool
  is_one none = false
  is_one (some n) = n == 1

  -- `tcp_write_line` of a view.
  unfoldable pub tcp_write_line : ℕ → List ℕ → W → Bool × W
  tcp_write_line c [] w = let (n, w') = tcp_write_newline c w in (is_one n, w')
  tcp_write_line c (b ∷ bs) w =
      let (body, w') = net.write c (b ∷ bs) w in
      elim body [
        | none ↦ (false, w')
        | some n ↦
            let (k, w'') = tcp_write_newline c w' in
            if n == length (b ∷ bs) then (is_one k, w'') else (false, w')
      ]

  -- TcpConnectionByteStream, for the connection that it is bound to.
  abbrev pub bound_stream : Option ℕ → ByteStream W
  bound_stream none = record { readable = λ w. false; read_byte = λ w. (none, w) }
  bound_stream (some c) = net.stream c

  abbrev pub bound_write : Option ℕ → List ℕ → W → Option ℕ × W
  bound_write none src w = (some 0, w)
  bound_write (some c) src w = net.write c src w

  abbrev pub bound_valid : Option ℕ → W → Bool
  bound_valid none w = false
  bound_valid (some c) w = net.valid c w

-- `reader` carries no callback between polls: its callback is `handle_line` of the slot.
pub record Slot (W : Type 0) : Type 0 where
  pub connection : Option ℕ
  pub backpressure : TcpBackpressureMonitor
  pub reader : LineReader W

abbrev pub is_bound_to : ℕ → Option ℕ → Bool
is_bound_to c none = false
is_bound_to c (some d) = d == c

abbrev pub is_unbound : Option ℕ → Bool
is_unbound none = true
is_unbound (some d) = false

module _ {W : Type 0} where
  -- `find` of the first slot that passes a test, the index counted from `i`.
  abbrev pub find_slot : (Option ℕ → Bool) → ℕ → List (Slot W) → Option ℕ
  find_slot test i [] = none
  find_slot test i (s ∷ ss) = if test s.connection then some i else find_slot test (suc i) ss

  abbrev pub update_slot : ℕ → (Slot W → Slot W) → List (Slot W) → List (Slot W)
  update_slot i f [] = []
  update_slot zero f (s ∷ ss) = f s ∷ ss
  update_slot (suc i) f (s ∷ ss) = s ∷ update_slot i f ss

  abbrev pub reset_slot : Slot W → Slot W
  reset_slot s = record s { backpressure = Monitor.reset s.backpressure }

  abbrev pub bind_slot : ℕ → Slot W → Slot W
  bind_slot c s = record (reset_slot s) { connection = some c }

  abbrev pub unbind_slot : Slot W → Slot W
  unbind_slot s = record (reset_slot s) { connection = none }

  abbrev pub acquire_new : ℕ → Option ℕ → List (Slot W) → Option (ℕ × List (Slot W))
  acquire_new c none ss = none
  acquire_new c (some i) ss = some (i, update_slot i (bind_slot c) ss)

  abbrev pub acquire_at : ℕ → Option ℕ → List (Slot W) → Option (ℕ × List (Slot W))
  acquire_at c (some i) ss = some (i, ss)
  acquire_at c none ss = acquire_new c (find_slot is_unbound 0 ss) ss

  unfoldable pub acquire : ℕ → List (Slot W) → Option (ℕ × List (Slot W))
  acquire c ss = acquire_at c (find_slot (is_bound_to c) 0 ss) ss

  abbrev pub release_at : Option ℕ → List (Slot W) → List (Slot W)
  release_at none ss = ss
  release_at (some i) ss = update_slot i unbind_slot ss

  unfoldable pub release : ℕ → List (Slot W) → List (Slot W)
  release c ss = release_at (find_slot (is_bound_to c) 0 ss) ss

  unfoldable pub active_connections : List (Slot W) → ℕ
  active_connections [] = 0
  active_connections (s ∷ ss) =
      if is_unbound s.connection then active_connections ss else suc (active_connections ss)
