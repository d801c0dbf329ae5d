-- ===== src/Reader/Line.antt =====
-- LineProtocolReader of async_event_loop/protocol_reader.hpp.
pub mod Spec
pub mod Framing
pub mod Poll
mod Tests
use pypilot_event_loop.Prelude.{
  ℕ, suc, ◌+◌, ◌-◌, Bool, true, false, ◌&&◌, Option, none, some, List, ltb, leb, ◌==◌,
  if◌then◌else◌, take, set, get_or, replicate,
}
use pypilot_event_loop.Stream.{ByteStream, poll_loop}
use pypilot_event_loop.Reader.{
  ProtocolReaderStats, no_stats, count_message, count_byte, count_overflow, Callback, invoke,
}

pub record LineProtocolOptions : Type 0 where
  pub delimiter : ℕ
  pub strip_cr : Bool
  pub drop_overflow : Bool

abbrev pub default_options : LineProtocolOptions
default_options = record { delimiter = b'\n'; strip_cr = true; drop_overflow = true }

-- `buffer` is the whole array `buffer_[BufferSize]`.
pub record LineReader (W : Type 0) : Type 0 where
  pub options : LineProtocolOptions
  pub buffer : List ℕ
  pub size : ℕ
  pub stats : ProtocolReaderStats
  pub callback : Callback W

-- The length of the line without a trailing CR, if the options strip it.
abbrev pub trimmed : Bool → List ℕ → ℕ → ℕ
trimmed strip_cr buffer size =
    if strip_cr && (ltb 0 size && (get_or buffer (size - 1) 0 == b'\r')) then size - 1 else size

module _ {W : Type 0} where
  unfoldable pub new : ℕ → LineProtocolOptions → Callback W → LineReader W
  new buffer_size options callback = record {
    options = options;
    buffer = replicate buffer_size 0;
    size = 0;
    stats = no_stats;
    callback = callback;
  }

  pub on_data_ready : LineReader W → (List ℕ → W → W) → LineReader W
  on_data_ready r callable = record r { callback = some callable }

  emit_line : LineReader W → W → LineReader W × W
  emit_line r w = (
    record r { stats = count_message r.stats; size = 0 },
    invoke r.callback (take (trimmed r.options.strip_cr r.buffer r.size) r.buffer) w,
  )

  module _ (buffer_size : ℕ) where
    unfoldable pub consume : ℕ → LineReader W → W → LineReader W × W
    unfolding emit_line
    consume c r w =
        if c == r.options.delimiter
        then emit_line r w
        else if leb buffer_size r.size
        then (
          record r {
            stats = count_overflow r.stats;
            size = if r.options.drop_overflow then 0 else r.size;
          },
          w,
        )
        else (record r { buffer = set r.buffer r.size c; size = r.size + 1 }, w)

    -- One round of the loop of `poll` behind the read.
    unfoldable pub take_byte : ℕ → LineReader W → W → LineReader W × W
    take_byte b r w = consume b (record r { stats = count_byte r.stats }) w

    unfoldable pub poll : ByteStream W → ℕ → LineReader W → W → Option (LineReader W × W)
    poll stream fuel r w = poll_loop stream take_byte fuel r w
