-- ===== src/Stream.antt =====
-- IByteStream of async_event_loop/event_loop.hpp as the protocol readers use it, and the loop of
-- their `poll`. `W` is the state that the stream and the user's callbacks share; a callback does
-- not call the reader that calls it.
pub mod Device
pub mod Memory
use pypilot_event_loop.Prelude.{ℕ, zero, suc, Bool, true, false, Option, none, some, List}

pub record ByteStream (W : Type 0) : Type 0 where
  pub readable : W → Bool
  -- `read(&byte, 1)`: the byte, or `none` for a result of at most 0.
  pub read_byte : W → Option ℕ × W

module _ {R W : Type 0} where
  -- `while (stream_.readable()) { if (stream_.read(&byte, 1) <= 0) break; ... }`; `none`: the loop
  -- goes on when the fuel is used up.
  unfoldable pub poll_loop : ByteStream W → (ℕ → R → W → R × W) → ℕ → R → W → Option (R × W)
  poll_loop stream consume zero r w = none
  poll_loop stream consume (suc fuel) r w = elim (stream.readable w) [
    | false ↦ some (r, w)
    | true ↦
        let (got, w') = stream.read_byte w in
        elim got [
          | none ↦ some (r, w')
          | some b ↦ let (r', w'') = consume b r w' in poll_loop stream consume fuel r' w''
        ]
  ]
