-- ===== src/Tcp/Lines/Tests.antt =====
-- A TcpLineServerHandler of async_event_loop/tcp_line_protocol.hpp with two slots, over connections
-- that all read one memory stream, and a handler that records the lines.
use pypilot_event_loop.Prelude.{
  ℕ, ◌≡◌, refl, true, Option, none, some, List, [], ◌∷◌, length, arith,
}
use pypilot_event_loop.Ring.{pop}
use pypilot_event_loop.MemoryStream.{read}
use pypilot_event_loop.Stream.{poll_loop}
use pypilot_event_loop.Stream.Memory.{Recorder, record_message, memory_stream, memory_device}
use pypilot_event_loop.Reader.Line
use pypilot_event_loop.Reader.Line.{default_options}
use pypilot_event_loop.Reader.Line.Framing.{new-Holds}
use pypilot_event_loop.Reader.Line.Poll.{Polled}
use pypilot_event_loop.Ring.Queue.{IsValid}
use pypilot_event_loop.Tcp.Monitor
use pypilot_event_loop.Tcp.Monitor.{disabled}
use pypilot_event_loop.Tcp.Lines.{
  Connections, LineServerHandler, Slot, acquire, release, update_slot,
}
use pypilot_event_loop.Tcp.Lines.Server.{
  new_slots, set_reader, check_all_backpressure, check_backpressure, on_accept, on_data, on_close,
  on_error, accepts, handle,
}
use pypilot_event_loop.Tcp.Lines.Slots.{IsUnique}
use pypilot_event_loop.Tcp.Lines.Binding.{Ordered, handle-Ordered}
use pypilot_event_loop.Tcp.Lines.Delivery.{on_data-Polled}

abbrev net : Connections Recorder
net = record {
  stream = λ c. memory_stream 8;
  valid = λ c w. true;
  output_size = λ c w. 0;
  write = λ c bs w. (some (length bs), w);
  close = λ c w. w;
}

abbrev records : LineServerHandler Recorder
records = record {
  on_accept = λ c w. w;
  on_line = λ c line w. record_message line w;
  on_close = λ c w. w;
  on_error = λ c code w. w;
  on_too_many_connections = λ c w. w;
  on_backpressure = λ c info w. w;
}

abbrev two_slots : List (Slot Recorder)
two_slots = new_slots 4 2 disabled

two_slots-IsUnique : IsUnique two_slots
unfolding IsUnique new_slots
two_slots-IsUnique c = omega arith

-- "ab" without a line feed, and "c" with one.
abbrev begun : Recorder
begun = (
  record { buffer = b'a' ∷ b'b' ∷ 0 ∷ 0 ∷ 0 ∷ 0 ∷ 0 ∷ 0 ∷ []; head = 0; tail = 2; count = 2 },
  [],
)

abbrev ended : Recorder
ended = (
  record { buffer = b'c' ∷ b'\n' ∷ 0 ∷ 0 ∷ 0 ∷ 0 ∷ 0 ∷ 0 ∷ []; head = 0; tail = 2; count = 2 },
  [],
)

abbrev slots_of : Option (List (Slot Recorder) × Recorder) → List (Slot Recorder)
slots_of none = []
slots_of (some (ss, w)) = ss

abbrev log_of : Option (List (Slot Recorder) × Recorder) → List (List ℕ)
log_of none = []
log_of (some (ss, w)) = w.1

-- The slots when the connection 1 has sent "ab" and closed, and the connection 2 has come.
abbrev reused : List (Slot Recorder)
reused =
    (on_accept net records disabled 4 2
      (on_close net records disabled 4 1
        (slots_of (on_data net records disabled 4 3 1 two_slots begun)) begun).0
      begun).0

leftover : log_of (on_data net records disabled 4 3 2 reused ended) ≡ (b'a' ∷ b'b' ∷ b'c' ∷ []) ∷ []
unfolding new_slots on_data on_accept on_close acquire release check_all_backpressure
    check_backpressure Line.poll poll_loop Line.take_byte Line.consume Line.new read pop
    Monitor.check Monitor.reset Monitor.configure
leftover = refl

handle-Ordered_example :
    Ordered net records disabled 4 (handle net records disabled 4 (accepts 1) two_slots begun)
handle-Ordered_example =
    handle-Ordered net records disabled 4 (accepts 1) two_slots begun two_slots-IsUnique

-- The connection 1 in its slot.
abbrev one_accepted : List (Slot Recorder)
one_accepted = (on_accept net records disabled 4 1 two_slots begun).0

one_accepted-IsUnique : IsUnique one_accepted
one_accepted-IsUnique =
    handle-Ordered net records disabled 4 (accepts 1) two_slots begun two_slots-IsUnique

begun-IsValid : IsValid 8 0 begun.0
begun-IsValid = omega arith

on_data-Polled_example :
    (x : Polled 4 default_options
      (memory_device 8)
      3
      0
      0
      (Line.new 4 default_options (some record_message))
      begun
      begun-IsValid
      (omega arith)
      []
      (b'a' ∷ b'b' ∷ []))
    × (on_data net records disabled 4 3 1 one_accepted begun
        ≡ some (
            check_all_backpressure net records disabled 4
              (update_slot 0 (set_reader x.reader) one_accepted)
              x.world))
unfolding new_slots on_accept acquire Line.new Monitor.configure Monitor.reset
on_data-Polled_example =
    on_data-Polled net records disabled 4 1 (memory_device 8) 3 0 0 0 []
      (record {
        connection = some 1;
        backpressure = Monitor.configure disabled (Monitor.new disabled);
        reader = Line.new 4 default_options none;
      })
      one_accepted one_accepted begun begun-IsValid (omega arith) refl refl refl
      (new-Holds 4 default_options (some record_message))
