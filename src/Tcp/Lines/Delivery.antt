-- ===== src/Tcp/Lines/Delivery.antt =====
-- `on_data` of TcpLineServerHandler, async_event_loop/tcp_line_protocol.hpp, over the line reader of
-- the connection's slot.
use pypilot_event_loop.Prelude.{ℕ, ◌<◌, ◌≡◌, ap, ◌∙◌, some, List, [], length, get_elem?}
use pypilot_event_loop.Stream.Device.{Device, run}
use pypilot_event_loop.Reader.Framing.{cut}
use pypilot_event_loop.Reader.Line.{default_options}
use pypilot_event_loop.Reader.Line.Spec.{next}
use pypilot_event_loop.Reader.Line.Framing.{Holds}
use pypilot_event_loop.Reader.Line.Poll.{Polled, poll_refines}
use pypilot_event_loop.Tcp.Monitor.{TcpBackpressureOptions}
use pypilot_event_loop.Tcp.Lines.{Connections, LineServerHandler, Slot, update_slot, acquire}
use pypilot_event_loop.Tcp.Lines.Server.{
  handle_line, armed_reader, check_all_backpressure, poll_bound, poll_done, poll_slot, data_at,
  on_data, set_reader,
}

module _ {W : Type 0} (net : Connections W) (handler : LineServerHandler W)
    (options : TcpBackpressureOptions) (buffer_size : ℕ) where
  -- Data of a connection, once a slot is acquired for it, is read to the end: with more fuel than
  -- bytes at hand the call returns, the handler has received exactly the lines that the line
  -- machine cuts from the bytes, behind what the reader of the slot held, and then the
  -- backpressure of every slot is checked.
  pub on_data-Polled :
      (c : ℕ) (d : Device (net.stream c) (handle_line net handler options buffer_size c))
      (fuel start seen i : ℕ) (line : List ℕ) (s : Slot W) (ss ss' : List (Slot W)) (w : W)
      → (okay : d.Ok w) → (enough : length (d.queue w) < fuel) → acquire c ss ≡ some (i, ss')
      → get_elem? ss' i ≡ some s
      → s.connection ≡ some c
      → let r = armed_reader net handler options buffer_size (some c) s.reader in
        Holds buffer_size default_options
          (some (handle_line net handler options buffer_size c))
          line
          start
          seen
          r
        → let m = run (cut (next buffer_size default_options)) ([], line) (d.queue w) in
          (x : Polled buffer_size default_options d fuel start seen r w okay enough m.0 m.1)
          × (on_data net handler options buffer_size fuel c ss w
              ≡ some (
                  check_all_backpressure net handler options buffer_size
                    (update_slot i (set_reader x.reader) ss')
                    x.world))
  unfolding on_data
  on_data-Polled c d fuel start seen i line s ss ss' w okay enough a g b h =
      let r = armed_reader net handler options buffer_size (some c) s.reader in
      let x = poll_refines buffer_size default_options d fuel start seen r w okay enough line h in
      (
        x,
        ap (λ o. data_at net handler options buffer_size fuel c o ss w) a
            ∙ ap (λ o. poll_slot net handler options buffer_size fuel i o ss' w) g
            ∙ ap (λ o. poll_bound net handler options buffer_size fuel i o s ss' w) b
            ∙ ap (poll_done net handler options buffer_size i ss') x.returns,
      )
