-- ===== src/Reader/HeaderPayload/Tests.antt =====
-- Runs of the header+payload reader over a memory stream, with the payload's size in the last byte
-- of the header, as in tests/test_protocol_readers.cpp.
use pypilot_event_loop.Prelude.{ℕ, ◌≡◌, refl, Option, none, some, List, [], ◌∷◌, arith, get_or}
use pypilot_event_loop.Ring.{pop}
use pypilot_event_loop.MemoryStream.{read}
use pypilot_event_loop.Ring.Queue
use pypilot_event_loop.Stream.{poll_loop}
use pypilot_event_loop.Stream.Memory.{Recorder, record_message, memory_stream, memory_device}
use pypilot_event_loop.Reader.HeaderPayload.{
  HeaderPayloadProtocolOptions, HeaderPayloadReader, new, append, read_header, emit_frame, try_emit,
  take_byte, valid_options, move_down, poll,
}
use pypilot_event_loop.Reader.HeaderPayload.Framing.{IsValid, new-Holds}
use pypilot_event_loop.Reader.HeaderPayload.Packets.{Polled, packet_poll_refines, poll_packets}

abbrev last_byte : List ℕ → ℕ
last_byte header = get_or header 1 0

abbrev options : HeaderPayloadProtocolOptions
options = record {
  header_size = 2;
  max_payload_size = 3;
  payload_size_from_header = some last_byte;
}

options-IsValid : IsValid 6 options last_byte
options-IsValid = record {
  known = refl;
  positive = omega arith;
  fits = omega arith;
  machine = omega arith;
}

-- A packet of two bytes of payload, an empty one, and a header.
abbrev bytes : Recorder
bytes = (
  record { buffer = 7 ∷ 2 ∷ 10 ∷ 11 ∷ 8 ∷ 0 ∷ 9 ∷ 1 ∷ 0 ∷ []; head = 0; tail = 8; count = 8 },
  [],
)

abbrev reader : HeaderPayloadReader Recorder
reader = new 6 options (some record_message)

abbrev log_of : Option (HeaderPayloadReader Recorder × Recorder) → List (List ℕ)
log_of none = []
log_of (some (r, w)) = w.1

delivered :
    log_of (poll 6 (memory_stream 9) 9 reader bytes) ≡ (7 ∷ 2 ∷ 10 ∷ 11 ∷ []) ∷ (8 ∷ 0 ∷ []) ∷ []
unfolding poll poll_loop take_byte try_emit read_header emit_frame move_down append valid_options
    new read pop
delivered = refl

bytes-IsValid : Queue.IsValid 9 0 bytes.0
bytes-IsValid = omega arith

packet_poll_refines_example :
    Polled 6 options last_byte options-IsValid
      (memory_device 9)
      9
      0
      0
      reader
      bytes
      ((7 ∷ 2 ∷ 10 ∷ 11 ∷ []) ∷ (8 ∷ 0 ∷ []) ∷ [], (9 ∷ 1 ∷ [], 0))
packet_poll_refines_example =
    packet_poll_refines 6 options last_byte options-IsValid (memory_device 9) 9 0 0 reader bytes
      ([], 0) bytes-IsValid (omega arith)
      (new-Holds 6 options last_byte (some record_message) (omega arith))

poll_packets_example :
    Polled 6 options last_byte options-IsValid
      (memory_device 9)
      9
      0
      0
      reader
      bytes
      ((7 ∷ 2 ∷ 10 ∷ 11 ∷ []) ∷ (8 ∷ 0 ∷ []) ∷ [], (9 ∷ 1 ∷ [], 0))
poll_packets_example =
    poll_packets 6 options last_byte options-IsValid (memory_device 9) 9 0 0 reader bytes
      ((7 ∷ 2 ∷ 10 ∷ 11 ∷ []) ∷ (8 ∷ 0 ∷ []) ∷ []) (9 ∷ 1 ∷ []) bytes-IsValid (omega arith)
      (new-Holds 6 options last_byte (some record_message) (omega arith)) refl
      (
        record { header = omega arith; whole = refl; small = omega arith },
        (record { header = omega arith; whole = refl; small = omega arith }, ground arith),
      )
      (ground arith)
