-- ===== src/Reader/HeaderPayload/Framing.antt =====
-- What a header+payload reader holds between two bytes.
use pypilot_event_loop.Prelude.{
  ℕ, ◌+◌, ◌%◌, ◌^◌, ◌≤◌, ◌<◌, ◌≡◌, some, List, [], arith, leb, if◌then◌else◌, take, length,
  length-replicate,
}
use pypilot_event_loop.Reader.{Callback}
use pypilot_event_loop.Reader.HeaderPayload.{HeaderPayloadProtocolOptions, HeaderPayloadReader, new}
use pypilot_event_loop.Reader.HeaderPayload.Spec.{Part, IsPart, frame_size}

-- What the options must be: a nonempty header, a known function for the payload's size, and frames
-- that fit the buffer.
pub record IsValid (buffer_size : ℕ) (options : HeaderPayloadProtocolOptions)
    (payload_of : List ℕ → ℕ) : Type 0 where
  pub known : options.payload_size_from_header ≡ some payload_of
  pub positive : 0 < options.header_size
  pub fits : options.header_size + options.max_payload_size ≤ buffer_size
  pub machine : buffer_size < 2 ^ 64

module _ {W : Type 0} (buffer_size : ℕ) (options : HeaderPayloadProtocolOptions)
    (payload_of : List ℕ → ℕ) (callback : Callback W) where
  -- What holds of the reader whenever it is not at work on a byte.
  pub record Keeps (part : List ℕ) (rejected sent seen : ℕ) (r : HeaderPayloadReader W)
      : Type 0 where
    pub same_options : r.options ≡ options
    pub same_callback : r.callback ≡ callback
    pub storage : length r.buffer ≡ buffer_size
    pub size : r.size ≡ length part
    pub held : take r.size r.buffer ≡ part
    pub messages : r.stats.messages ≡ sent % 2 ^ 32
    pub bytes : r.stats.bytes ≡ seen % 2 ^ 32
    pub errors : r.stats.protocol_errors ≡ rejected % 2 ^ 32
    pub overflows : r.stats.overflows ≡ 0

  -- The reader holds the part `part.0` of a frame, has rejected `part.1` headers, delivered `sent`
  -- messages and read `seen` bytes.
  pub record Holds (part : Part options.header_size options.max_payload_size payload_of)
      (sent seen : ℕ) (r : HeaderPayloadReader W) : Type 0 where
    pub keeps : Keeps part.0 part.1 sent seen r
    pub is_part : IsPart options.header_size options.max_payload_size payload_of part.0
    pub knows : r.have_expected_size ≡ leb options.header_size (length part.0)
    pub expected : r.expected_size ≡ (
        if leb options.header_size (length part.0)
        then frame_size options.header_size options.max_payload_size payload_of part.0
        else 0)

  -- A new reader holds nothing.
  pub new-Holds : 0 < options.header_size → Holds ([], 0) 0 0 (new buffer_size options callback)
  unfolding new
  new-Holds h = ground (arith, h, length-replicate {A = ℕ} buffer_size 0)
