-- ===== src/Reader/Line/Tests.antt =====
-- Runs of the line reader over a memory stream, as in tests/test_protocol_readers.cpp.
use pypilot_event_loop.Prelude.{ℕ, ◌≡◌, refl, some, List, [], ◌∷◌, Option, arith}
use pypilot_event_loop.Ring.{pop}
use pypilot_event_loop.MemoryStream.{read}
use pypilot_event_loop.Ring.Queue.{IsValid}
use pypilot_event_loop.Stream.{poll_loop}
use pypilot_event_loop.Stream.Memory.{Recorder, record_message, memory_stream, memory_device}
use pypilot_event_loop.Reader.Line.{LineReader, default_options, new, take_byte, consume, poll}
use pypilot_event_loop.Reader.Line.Framing.{new-Holds}
use pypilot_event_loop.Reader.Line.Poll.{Polled, poll_refines, poll_lines}

-- "ab", CR, LF, "c", LF in a stream of eight bytes.
abbrev two_lines : Recorder
two_lines = (
  record {
    buffer = b'a' ∷ b'b' ∷ b'\r' ∷ b'\n' ∷ b'c' ∷ b'\n' ∷ 0 ∷ 0 ∷ [];
    head = 0;
    tail = 6;
    count = 6;
  },
  [],
)

abbrev reader : LineReader Recorder
reader = new 4 default_options (some record_message)

abbrev log_of : Option (LineReader Recorder × Recorder) → List (List ℕ)
log_of Option.none = []
log_of (some (r, w)) = w.1

delivered :
    log_of (poll 4 (memory_stream 8) 7 reader two_lines) ≡ (b'a' ∷ b'b' ∷ []) ∷ (b'c' ∷ []) ∷ []
unfolding poll poll_loop take_byte consume new read pop
delivered = refl

two_lines-IsValid : IsValid 8 0 two_lines.0
two_lines-IsValid = omega arith

poll_refines_example :
    Polled 4 default_options
      (memory_device 8)
      7
      0
      0
      reader
      two_lines
      two_lines-IsValid
      (omega arith)
      ((b'a' ∷ b'b' ∷ []) ∷ (b'c' ∷ []) ∷ [])
      []
poll_refines_example =
    poll_refines 4 default_options (memory_device 8) 7 0 0 reader two_lines two_lines-IsValid
      (omega arith) [] (new-Holds 4 default_options (some record_message))

poll_lines_example :
    Polled 4 default_options
      (memory_device 8)
      7
      0
      0
      reader
      two_lines
      two_lines-IsValid
      (omega arith)
      ((b'a' ∷ b'b' ∷ []) ∷ (b'c' ∷ []) ∷ [])
      []
poll_lines_example =
    poll_lines 4 default_options (memory_device 8) 7 0 0 reader two_lines two_lines-IsValid
      (omega arith) ((b'a' ∷ b'b' ∷ b'\r' ∷ []) ∷ (b'c' ∷ []) ∷ [])
      (new-Holds 4 default_options (some record_message)) refl (ground arith)
