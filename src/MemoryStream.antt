-- ===== src/MemoryStream.antt =====
-- MemoryByteStream of async_event_loop/memory_stream.hpp. The results of `read` and `write` are
-- counts up to `capacity`; the cast of a count to `int` is exact for a capacity below 2^31.
pub mod Transfer
mod Tests
use pypilot_event_loop.Prelude.{
  ℕ, zero, suc, ◌+◌, Bool, true, false, Option, none, some, List, [], ◌∷◌, ltb, ◌==◌, if◌then◌else◌,
}
use pypilot_event_loop.Ring.{Ring, push, pop}

module _ (capacity : ℕ) where
  abbrev pub readable : Ring ℕ → Bool
  readable s = ltb 0 s.count

  abbrev pub writable : Ring ℕ → Bool
  writable s = ltb s.count capacity

  -- `while (n < max_len && readable()) { dst[n++] = buffer_[head_]; ... }`: the bytes that reach
  -- `dst`, with `left` the rounds that `max_len` leaves.
  unfoldable pub read_loop : ℕ → Ring ℕ → List ℕ × Ring ℕ
  read_loop zero s = ([], s)
  read_loop (suc left) s = elim (pop capacity 0 s) [
    | none ↦ ([], s)
    | some (b, s') ↦ let (bs, s'') = read_loop left s' in (b ∷ bs, s'')
  ]

  -- `read`; `given` is false for a null `dst`.
  unfoldable pub read : Bool → ℕ → Ring ℕ → List ℕ × Ring ℕ
  unfolding read_loop
  read given max_len s =
      if given then (if max_len == 0 then ([], s) else read_loop max_len s) else ([], s)

  -- `while (n < len && count_ < Capacity) { buffer_[tail_] = src[n++]; ... }`.
  unfoldable pub write_loop : List ℕ → ℕ → Ring ℕ → ℕ × Ring ℕ
  write_loop [] n s = (n, s)
  write_loop (b ∷ bs) n s =
      let (done, s') = push capacity 0 s b in
      elim done [ true ↦ write_loop bs (n + 1) s' | false ↦ (n, s) ]

  -- `write`; `none` is a null `src`.
  unfoldable pub write : Option (List ℕ) → Ring ℕ → ℕ × Ring ℕ
  unfolding write_loop
  write none s = (0, s)
  write (some []) s = (0, s)
  write (some (b ∷ bs)) s = write_loop (b ∷ bs) 0 s
