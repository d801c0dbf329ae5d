-- ===== src/Reader/Fixed.antt =====
-- FixedFrameProtocolReader of async_event_loop/protocol_reader.hpp.
pub mod Frames
mod Tests
use pypilot_event_loop.Prelude.{
  ℕ, suc, ◌+◌, Bool, true, false, ◌||◌, Option, none, some, List, ltb, ◌==◌, if◌then◌else◌, take,
  set, replicate,
}
use pypilot_event_loop.Stream.{ByteStream, poll_loop}
use pypilot_event_loop.Reader.{
  ProtocolReaderStats, no_stats, count_message, count_byte, count_error, Callback, invoke,
}

-- `frame_size` is the only option; `buffer` is the whole array `buffer_[BufferSize]`.
pub record FixedReader (W : Type 0) : Type 0 where
  pub frame_size : ℕ
  pub buffer : List ℕ
  pub size : ℕ
  pub stats : ProtocolReaderStats
  pub callback : Callback W

module _ {W : Type 0} where
  pub new : ℕ → ℕ → Callback W → FixedReader W
  new buffer_size frame_size callback = record {
    frame_size = frame_size;
    buffer = replicate buffer_size 0;
    size = 0;
    stats = no_stats;
    callback = callback;
  }

  -- One round of the loop of `poll` behind the read.
  unfoldable pub take_byte : ℕ → FixedReader W → W → FixedReader W × W
  take_byte b r w =
      let r' = record r {
        stats = count_byte r.stats;
        buffer = set r.buffer r.size b;
        size = r.size + 1;
      } in
      if r'.size == r'.frame_size
      then (
        record r' { stats = count_message r'.stats; size = 0 },
        invoke r'.callback (take r'.size r'.buffer) w,
      )
      else (r', w)

  unfoldable pub poll : ℕ → ByteStream W → ℕ → FixedReader W → W → Option (FixedReader W × W)
  poll buffer_size stream fuel r w =
      if (r.frame_size == 0) || ltb buffer_size r.frame_size
      then some (record r { stats = count_error r.stats }, w)
      else poll_loop stream take_byte fuel r w
