-- ===== src/Reader/HeaderPayload.antt =====
-- HeaderPayloadProtocolReader of async_event_loop/protocol_reader.hpp.
pub mod Spec
pub mod Framing
pub mod Steps
pub mod Packets
mod Tests
use pypilot_event_loop.Prelude.{
  ℕ, zero, suc, ◌+◌, ◌-◌, Bool, true, false, not, ◌&&◌, ◌||◌, Option, none, some, List, ltb, leb,
  ◌==◌, if◌then◌else◌, take, set, get_or, replicate, add64,
}
use pypilot_event_loop.Stream.{ByteStream, poll_loop}
use pypilot_event_loop.Reader.{
  ProtocolReaderStats, no_stats, count_message, count_byte, count_overflow, count_error, Callback,
  invoke,
}

-- `payload_size_from_header` is given the header's bytes; `none` is the null pointer.
pub record HeaderPayloadProtocolOptions : Type 0 where
  pub header_size : ℕ
  pub max_payload_size : ℕ
  pub payload_size_from_header : Option (List ℕ → ℕ)

-- `buffer` is the whole array `buffer_[BufferSize]`.
pub record HeaderPayloadReader (W : Type 0) : Type 0 where
  pub options : HeaderPayloadProtocolOptions
  pub buffer : List ℕ
  pub size : ℕ
  pub expected_size : ℕ
  pub have_expected_size : Bool
  pub stats : ProtocolReaderStats
  pub callback : Callback W

-- The loop that moves the `count` bytes at `offset + i`, and what follows them, to `i`.
unfoldable pub move_down : ℕ → ℕ → ℕ → List ℕ → List ℕ
move_down zero offset i buffer = buffer
move_down (suc count) offset i buffer =
    move_down count offset (i + 1) (set buffer i (get_or buffer (offset + i) 0))

module _ {W : Type 0} where
  pub new : ℕ → HeaderPayloadProtocolOptions → Callback W → HeaderPayloadReader W
  new buffer_size options callback = record {
    options = options;
    buffer = replicate buffer_size 0;
    size = 0;
    expected_size = 0;
    have_expected_size = false;
    stats = no_stats;
    callback = callback;
  }

  reset : HeaderPayloadReader W → HeaderPayloadReader W
  reset r = record r { size = 0; expected_size = 0; have_expected_size = false }

  -- The delivery of a complete frame, and what `try_emit` does to the buffer behind it.
  unfoldable pub emit_frame : HeaderPayloadReader W → W → HeaderPayloadReader W × W
  emit_frame r w =
      let remaining = r.size - r.expected_size in
      (
        record r {
          stats = count_message r.stats;
          buffer = move_down remaining r.expected_size 0 r.buffer;
          size = remaining;
          expected_size = 0;
          have_expected_size = false;
        },
        invoke r.callback (take r.expected_size r.buffer) w,
      )

  module _ (buffer_size : ℕ) where
    unfoldable pub valid_options : HeaderPayloadReader W → Bool
    valid_options r = elim r.options.payload_size_from_header [
      | none ↦ false
      | some f ↦
          not (r.options.header_size == 0)
          && (leb r.options.header_size buffer_size
              && (leb r.options.max_payload_size buffer_size
                  && leb (add64 r.options.header_size r.options.max_payload_size) buffer_size))
    ]

    unfoldable pub append : ℕ → HeaderPayloadReader W → Bool × HeaderPayloadReader W
    unfolding reset
    append b r =
        if leb buffer_size r.size
        then (false, reset (record r { stats = count_overflow r.stats }))
        else (true, record r { buffer = set r.buffer r.size b; size = r.size + 1 })

    -- The part of `try_emit` that reads the header, and whether it goes on. (A call through the
    -- null pointer is undefined; `poll` excludes it.)
    unfoldable pub read_header : HeaderPayloadReader W → Bool × HeaderPayloadReader W
    unfolding reset
    read_header r =
        if r.have_expected_size then (true, r) else elim r.options.payload_size_from_header [
          | none ↦ (false, r)
          | some f ↦
              let payload = f (take r.options.header_size r.buffer) in
              let expected = add64 r.options.header_size payload in
              if ltb r.options.max_payload_size payload || ltb buffer_size expected
              then (false, reset (record r { stats = count_error r.stats }))
              else (true, record r { expected_size = expected; have_expected_size = true })
        ]

    -- `try_emit`, on fuel for its calls of itself.
    unfoldable pub try_emit : ℕ → HeaderPayloadReader W → W → HeaderPayloadReader W × W
    try_emit zero r w = (r, w)
    try_emit (suc fuel) r w =
        if ltb r.size r.options.header_size
        then (r, w)
        else let (goes, r') = read_header r in
          if not goes || ltb r'.size r'.expected_size
          then (r', w)
          else let (r'', w') = emit_frame r' w in
            let rest = try_emit fuel r'' w' in
            if leb r''.options.header_size r''.size then rest else (r'', w')

    -- One round of the loop of `poll` behind the read. A frame takes a byte at least, so that the
    -- number of the bytes held is enough fuel.
    unfoldable pub take_byte : ℕ → HeaderPayloadReader W → W → HeaderPayloadReader W × W
    take_byte b r w =
        let (fits, r') = append b (record r { stats = count_byte r.stats }) in
        if fits then try_emit r'.size r' w else (r', w)

    unfoldable pub poll :
        ByteStream W → ℕ → HeaderPayloadReader W → W → Option (HeaderPayloadReader W × W)
    poll stream fuel r w =
        if valid_options r
        then poll_loop stream take_byte fuel r w
        else some (record r { stats = count_error r.stats }, w)
