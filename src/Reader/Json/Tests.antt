-- ===== src/Reader/Json/Tests.antt =====
-- Runs of the JSON reader over a memory stream, as in tests/test_protocol_readers.cpp.
use pypilot_event_loop.Prelude.{ℕ, ◌≡◌, refl, true, some, List, [], ◌∷◌, Option, arith, length}
use pypilot_event_loop.Ring.{pop}
use pypilot_event_loop.Ring.Queue.{IsValid}
use pypilot_event_loop.Stream.Device.{run}
use pypilot_event_loop.Reader.Json.Spec.{step}
use pypilot_event_loop.Reader.Json.Poll.{Polled, start, json_poll_refines, new-Good}
use pypilot_event_loop.MemoryStream.{read}
use pypilot_event_loop.Stream.{poll_loop}
use pypilot_event_loop.Stream.Memory.{Recorder, record_message, memory_stream, memory_device}
use pypilot_event_loop.Reader.Json.Bytes.{
  is_nonzero_digit, skip_digits, sign_part, integer_part, digits_from, fraction_part, exponent_part,
  number_end, valid_number, is_ws, is_digit, is_number_byte,
}
use pypilot_event_loop.Reader.Json.Defs.{
  JsonReader, new, poll, take_byte, consume_within, consume_idle, consume_container,
  consume_string_value, consume_number_value, consume_literal_value, append, push_container,
  pop_container, emit_json, start_literal, open_container, open_value, inside_string,
  close_container,
}

abbrev stream_of : List ℕ → Recorder
stream_of bs = (record { buffer = bs; head = 0; tail = 0; count = length bs }, [])

abbrev log_of : Option (JsonReader Recorder × Recorder) → List (List ℕ)
log_of Option.none = []
log_of (some (r, w)) = w.1

abbrev reader : JsonReader Recorder
reader = new 16 true (some record_message)

-- {"a":[1,"]"]} null -2.5 [
abbrev text : List ℕ
text =
    b'{' ∷ b'"' ∷ b'a' ∷ b'"' ∷ b':' ∷ b'[' ∷ b'1' ∷ b',' ∷ b'"' ∷ b']' ∷ b'"' ∷ b']' ∷ b'}' ∷ b' '
    ∷ b'n' ∷ b'u' ∷ b'l' ∷ b'l' ∷ b'-' ∷ b'2' ∷ b'.' ∷ b'5' ∷ b' ' ∷ b'[' ∷ []

framed :
    log_of (poll 16 (memory_stream 24) 25 reader (stream_of text))
    ≡ (b'{' ∷ b'"' ∷ b'a' ∷ b'"' ∷ b':' ∷ b'[' ∷ b'1' ∷ b',' ∷ b'"' ∷ b']' ∷ b'"' ∷ b']' ∷ b'}'
        ∷ [])
      ∷ (b'n' ∷ b'u' ∷ b'l' ∷ b'l' ∷ [])
      ∷ (b'-' ∷ b'2' ∷ b'.' ∷ b'5' ∷ [])
      ∷ []
unfolding poll poll_loop take_byte consume_within consume_idle consume_container
    consume_string_value consume_number_value consume_literal_value append push_container
    pop_container emit_json start_literal open_container open_value inside_string close_container
    new read pop valid_number is_ws is_digit is_number_byte is_nonzero_digit skip_digits sign_part
    integer_part digits_from fraction_part exponent_part number_end
framed = refl

one_value-IsValid : IsValid 24 0 (stream_of text).0
one_value-IsValid = omega arith

-- The machine frames three messages and is left behind an open bracket.
json_poll_refines_example :
    Polled true 16 (memory_device 24) 25 reader (stream_of text) (run (step true 16) start text)
json_poll_refines_example =
    json_poll_refines true 16 (memory_device 24) 25 start reader (stream_of text) one_value-IsValid
      (omega arith) (new-Good true 16 (memory_device 24) (stream_of text) one_value-IsValid)
