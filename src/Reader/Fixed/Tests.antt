-- ===== src/Reader/Fixed/Tests.antt =====
-- A run of the fixed-size frame reader over a memory stream.
use pypilot_event_loop.Prelude.{refl, some, [], ◌∷◌, arith}
use pypilot_event_loop.Ring.Queue.{IsValid}
use pypilot_event_loop.Stream.Memory.{Recorder, record_message, memory_device}
use pypilot_event_loop.Reader.Fixed.{FixedReader, new}
use pypilot_event_loop.Reader.Fixed.Frames.{Polled, poll_frames, new-Holds}

-- Two frames of two bytes and the beginning of a third.
abbrev five_bytes : Recorder
five_bytes = (record { buffer = 1 ∷ 2 ∷ 3 ∷ 4 ∷ 5 ∷ 0 ∷ []; head = 0; tail = 5; count = 5 }, [])

abbrev reader : FixedReader Recorder
reader = new 4 2 (some record_message)

five_bytes-IsValid : IsValid 6 0 five_bytes.0
five_bytes-IsValid = omega arith

poll_frames_example :
    Polled 4 2 record_message
      (omega arith)
      (omega arith)
      (memory_device 6)
      6
      0
      0
      reader
      five_bytes
      ((1 ∷ 2 ∷ []) ∷ (3 ∷ 4 ∷ []) ∷ [])
      (5 ∷ [])
poll_frames_example =
    poll_frames 4 2 record_message (omega arith) (omega arith) (memory_device 6) 6 0 0 reader
      five_bytes ((1 ∷ 2 ∷ []) ∷ (3 ∷ 4 ∷ []) ∷ []) (5 ∷ []) five_bytes-IsValid (omega arith)
      (new-Holds 4 2 (some record_message) (omega arith)) refl (ground arith) (omega arith)
