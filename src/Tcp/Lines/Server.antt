-- ===== src/Tcp/Lines/Server.antt =====
-- The operations of TcpLineServerHandler, async_event_loop/tcp_line_protocol.hpp. Each takes the
-- slots and the shared state, and returns what it leaves of them.
use pypilot_event_loop.Prelude.{
  ℕ, not, ◌&&◌, Option, none, some, List, [], ◌∷◌, replicate, get_elem?, if◌then◌else◌,
}
use pypilot_event_loop.Reader.Line
use pypilot_event_loop.Reader.Line.{LineReader, default_options}
use pypilot_event_loop.Tcp.Monitor
use pypilot_event_loop.Tcp.Monitor.{
  TcpBackpressureOptions, TcpBackpressureInfo, TcpBackpressureMonitor, disabled, check, configure,
}
use pypilot_event_loop.Tcp.Lines.{
  Connections, LineServerHandler, Slot, bound_stream, is_bound_to, find_slot, update_slot,
  reset_slot, unbind_slot, acquire, release,
}

module _ {W : Type 0} where
  unfoldable pub new_slots : ℕ → ℕ → TcpBackpressureOptions → List (Slot W)
  new_slots buffer_size max_connections options = replicate max_connections (record {
    connection = none;
    backpressure = configure options (Monitor.new disabled);
    reader = Line.new buffer_size default_options none;
  })

  abbrev pub set_reader : LineReader W → Slot W → Slot W
  set_reader r s = record s { reader = r }

module _ {W : Type 0} (net : Connections W) (handler : LineServerHandler W)
    (options : TcpBackpressureOptions) (buffer_size : ℕ) where
  abbrev pub handle_line : ℕ → List ℕ → W → W
  handle_line c line w = if net.valid c w then handler.on_line c line w else w

  -- The reader of a slot with its callback in place.
  abbrev pub armed_reader : Option ℕ → LineReader W → LineReader W
  armed_reader none r = r
  armed_reader (some c) r = record r { callback = some (handle_line c) }

  -- The reports of `check_backpressure` for a monitor that asks for one.
  abbrev pub report : ℕ → TcpBackpressureInfo → W → W
  report c info w =
      let w' = handler.on_backpressure c info w in
      if options.close_on_limit && net.valid c w' then net.close c w' else w'

  abbrev pub check_bound : Option ℕ → Slot W → W → Slot W × W
  check_bound none s w = (s, w)
  check_bound (some c) s w =
      let (reports, info, m) =
        check (record { valid = net.valid c w; output_size = net.output_size c w })
          s.backpressure in
      let w' = report c info w in
      let s' = record s { backpressure = m } in
      if not (net.valid c w)
      then (s, w)
      else if not reports
      then (s', w)
      else if not (net.valid c w')
      then (unbind_slot s', w')
      else (s', w')

  unfoldable pub check_backpressure : Slot W → W → Slot W × W
  check_backpressure s w = check_bound s.connection s w

  unfoldable pub check_all_backpressure : List (Slot W) → W → List (Slot W) × W
  check_all_backpressure [] w = ([], w)
  check_all_backpressure (s ∷ ss) w =
      let (s', w') = check_backpressure s w in
      let (ss', w'') = check_all_backpressure ss w' in (s' ∷ ss', w'')

  abbrev pub accept_at : ℕ → Option (ℕ × List (Slot W)) → List (Slot W) → W → List (Slot W) × W
  accept_at c none ss w = (ss, handler.on_too_many_connections c w)
  accept_at c (some (i, ss')) ss w = (update_slot i reset_slot ss', handler.on_accept c w)

  unfoldable pub on_accept : ℕ → List (Slot W) → W → List (Slot W) × W
  on_accept c ss w = accept_at c (acquire c ss) ss w

  -- `on_data` behind the poll of the reader of the slot `i`.
  abbrev pub poll_done : ℕ → List (Slot W) → Option (LineReader W × W) → Option (List (Slot W) × W)
  poll_done i ss none = none
  poll_done i ss (some (r, w)) = some (check_all_backpressure (update_slot i (set_reader r) ss) w)

  abbrev pub poll_bound : ℕ → ℕ → Option ℕ → Slot W → List (Slot W) → W → Option (List (Slot W) × W)
  poll_bound fuel i o s ss w =
      poll_done i ss (Line.poll buffer_size (bound_stream net o) fuel (armed_reader o s.reader) w)

  -- `on_data` behind the acquisition of the slot `i`.
  abbrev pub poll_slot : ℕ → ℕ → Option (Slot W) → List (Slot W) → W → Option (List (Slot W) × W)
  poll_slot fuel i none ss w = some (check_all_backpressure ss w)
  poll_slot fuel i (some s) ss w = poll_bound fuel i s.connection s ss w

  abbrev pub data_at :
      ℕ → ℕ → Option (ℕ × List (Slot W)) → List (Slot W) → W → Option (List (Slot W) × W)
  data_at fuel c none ss w = some (ss, handler.on_too_many_connections c w)
  data_at fuel c (some (i, ss')) ss w = poll_slot fuel i (get_elem? ss' i) ss' w

  -- `none`: the poll of the reader goes on when the fuel is used up.
  unfoldable pub on_data : ℕ → ℕ → List (Slot W) → W → Option (List (Slot W) × W)
  on_data fuel c ss w = data_at fuel c (acquire c ss) ss w

  abbrev pub check_at : ℕ → Option (Slot W) → List (Slot W) → W → List (Slot W) × W
  check_at i none ss w = (ss, w)
  check_at i (some s) ss w =
      let (s', w') = check_backpressure s w in (update_slot i (λ x. s') ss, w')

  abbrev pub write_ready_at : Option ℕ → List (Slot W) → W → List (Slot W) × W
  write_ready_at none ss w = (ss, w)
  write_ready_at (some i) ss w = check_at i (get_elem? ss i) ss w

  unfoldable pub on_write_ready : ℕ → List (Slot W) → W → List (Slot W) × W
  on_write_ready c ss w = write_ready_at (find_slot (is_bound_to c) 0 ss) ss w

  unfoldable pub on_close : ℕ → List (Slot W) → W → List (Slot W) × W
  on_close c ss w = (release c ss, handler.on_close c w)

  unfoldable pub on_error : ℕ → ℕ → List (Slot W) → W → List (Slot W) × W
  on_error c code ss w = (release c ss, handler.on_error c code w)

-- The calls of an ITcpServerHandler, `data_arrives` with the fuel for the poll.
pub data Event : Type 0 where
  accepts : ℕ → Event
  data_arrives : ℕ → ℕ → Event
  write_ready : ℕ → Event
  closes : ℕ → Event
  fails : ℕ → ℕ → Event

module _ {W : Type 0} (net : Connections W) (handler : LineServerHandler W)
    (options : TcpBackpressureOptions) (buffer_size : ℕ) where
  abbrev pub handle : Event → List (Slot W) → W → Option (List (Slot W) × W)
  handle (accepts c) ss w = some (on_accept net handler options buffer_size c ss w)
  handle (data_arrives fuel c) ss w = on_data net handler options buffer_size fuel c ss w
  handle (write_ready c) ss w = some (on_write_ready net handler options buffer_size c ss w)
  handle (closes c) ss w = some (on_close net handler options buffer_size c ss w)
  handle (fails c code) ss w = some (on_error net handler options buffer_size c code ss w)
