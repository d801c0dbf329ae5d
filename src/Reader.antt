-- ===== src/Reader.antt =====
-- What the protocol readers of async_event_loop/protocol_reader.hpp share: the counters and the
-- callback that receives the messages.
pub mod Framing
pub mod Line
pub mod Json
pub mod Fixed
pub mod HeaderPayload
use pypilot_event_loop.Prelude.{ℕ, Bool, true, false, Option, none, some, List, [], ◌∷◌, add32}

pub record ProtocolReaderStats : Type 0 where
  pub messages : ℕ
  pub bytes : ℕ
  pub overflows : ℕ
  pub protocol_errors : ℕ

abbrev pub no_stats : ProtocolReaderStats
no_stats = record { messages = 0; bytes = 0; overflows = 0; protocol_errors = 0 }

abbrev pub count_message : ProtocolReaderStats → ProtocolReaderStats
count_message s = record s { messages = add32 s.messages 1 }

abbrev pub count_byte : ProtocolReaderStats → ProtocolReaderStats
count_byte s = record s { bytes = add32 s.bytes 1 }

abbrev pub count_overflow : ProtocolReaderStats → ProtocolReaderStats
count_overflow s = record s { overflows = add32 s.overflows 1 }

abbrev pub count_error : ProtocolReaderStats → ProtocolReaderStats
count_error s = record s { protocol_errors = add32 s.protocol_errors 1 }

-- ProtocolCallbackStorage: the installed callable, `none` while inactive. A view is the list of
-- the bytes that it shows.
abbrev pub Callback : Type 0 → Type 0
Callback W = Option (List ℕ → W → W)

module _ {W : Type 0} where
  abbrev pub invoke : Callback W → List ℕ → W → W
  invoke none view w = w
  invoke (some call) view w = call view w

  -- The calls for a sequence of messages.
  abbrev pub deliver : Callback W → List (List ℕ) → W → W
  deliver callback [] w = w
  deliver callback (m ∷ ms) w = deliver callback ms (invoke callback m w)
