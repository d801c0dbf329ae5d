-- ===== src/LinuxTcp/Client/Transfer.antt =====
-- The transfers of LinuxTcpClientConnection, async_event_loop_linux/linux_tcp_client.hpp, over the
-- calls of the system. The caller's array is not null; with a null one a transfer returns at once.
pub mod Same
mod Tests
use pypilot_event_loop.Prelude.{
  ℕ, zero, suc, ◌+◌, ◌-◌, Bool, true, false, not, ◌&&◌, Option, none, some, List, [], ◌∷◌, length,
  take, get_or, set, ltb, ◌==◌, if◌then◌else◌,
}
use pypilot_event_loop.LinuxTcp.Transfer.{exactly}

-- What `read` and `send` make of a call: bytes, or their number; EAGAIN, EWOULDBLOCK or EINTR; or
-- another error.
pub data Outcome (X : Type 0) : Type 0 where
  moved : X → Outcome X
  retry : Outcome X
  fails : Outcome X

-- The calls on a descriptor. `waiting` is the FIONREAD of ioctl, `none` where that fails;
-- `recv_peek` is a `recv` with MSG_PEEK, `none` where it fails.
pub record Socket (S : Type 0) : Type 0 where
  pub waiting : S → Option ℕ
  pub recv : ℕ → S → Outcome (List ℕ) × S
  pub recv_peek : ℕ → S → Option (List ℕ)
  pub send : List ℕ → S → Outcome ℕ × S

abbrev pub line_capacity : ℕ
line_capacity = 256

-- `socket` is the descriptor, `none` for -1; `line` is the whole array `line_`.
pub record Stream (S : Type 0) : Type 0 where
  pub socket : Option S
  pub line : List ℕ
  pub line_size : ℕ

-- `close` and `attach`; what they do to the descriptors is in the log of LinuxTcp.Client.
unfoldable pub close : {S : Type 0} → Stream S → Stream S
close c = record c { socket = none; line_size = 0 }

unfoldable pub attach : {S : Type 0} → Option S → Stream S → Stream S
unfolding close
attach socket c = record (close c) { socket = socket }

-- The number that `read` and `write` return: `none` for -1.
abbrev pub result : {X : Type 0} → X → Outcome X → Option X
result nothing (moved x) = some x
result nothing retry = some nothing
result nothing fails = none

module _ {S : Type 0} (api : Socket S) where
  unfoldable pub waiting_at : Option S → ℕ
  waiting_at none = 0
  waiting_at (some s) = elim (api.waiting s) [ none ↦ 0 | some n ↦ n ]

  unfoldable pub input_size : Stream S → ℕ
  unfolding waiting_at
  input_size c = waiting_at c.socket

  unfoldable pub read_at : ℕ → Stream S → Option S → Option (List ℕ) × Stream S
  read_at max_len c none = (some [], c)
  read_at max_len c (some s) =
      let (got, s') = api.recv max_len s in
      if max_len == 0 then (some [], c) else (result [] got, record c { socket = some s' })

  unfoldable pub read : ℕ → Stream S → Option (List ℕ) × Stream S
  unfolding read_at
  read max_len c = read_at max_len c c.socket

  unfoldable pub write_at : List ℕ → Stream S → Option S → Option ℕ × Stream S
  write_at src c none = (some 0, c)
  write_at src c (some s) =
      let (sent, s') = api.send src s in
      if length src == 0 then (some 0, c) else (result 0 sent, record c { socket = some s' })

  unfoldable pub write : List ℕ → Stream S → Option ℕ × Stream S
  unfolding write_at
  write src c = write_at src c c.socket

  unfoldable pub peek_at : ℕ → Option S → Option (List ℕ)
  peek_at len none = none
  peek_at len (some s) = if len == 0 then none else exactly len (api.recv_peek len s)

  unfoldable pub peek : ℕ → Stream S → Option (List ℕ)
  unfolding peek_at
  peek len c = peek_at len c.socket

  unfoldable pub read_exact : ℕ → Stream S → Option (List ℕ) × Stream S
  unfolding input_size read
  read_exact len c =
      let (bytes, c') = read len c in
      if ltb (input_size c) len then (none, c) else (exactly len bytes, c')

  -- `read_line` at a line feed: the bytes copied to `dst`, and the connection.
  abbrev pub end_line : ℕ → Bool → Stream S → List ℕ × Stream S
  end_line max_len strip_cr c =
      let len =
        if strip_cr && (ltb 0 c.line_size && (get_or c.line (c.line_size - 1) 0 == b'\r'))
        then c.line_size - 1
        else c.line_size in
      let copy = if ltb len (max_len - 1) then len else max_len - 1 in
      (take copy c.line, record c { line_size = 0 })

  abbrev pub store_byte : ℕ → Stream S → Stream S
  store_byte b c =
      if ltb c.line_size line_capacity
      then record c { line = set c.line c.line_size b; line_size = c.line_size + 1 }
      else record c { line_size = 0 }

  -- The byte of a result above 0.
  abbrev pub one_byte : Option (List ℕ) → Option ℕ
  one_byte none = none
  one_byte (some []) = none
  one_byte (some (b ∷ bs)) = some b

  -- A round of the loop of `read_line`, for the byte of the read; `rest` are the other rounds.
  abbrev pub line_round :
      (Stream S → Option (Option (List ℕ) × Stream S))
      → ℕ
      → Bool
      → Option ℕ
      → Stream S
      → Option (Option (List ℕ) × Stream S)
  line_round rest max_len strip_cr none c = some (none, c)
  line_round rest max_len strip_cr (some b) c =
      let (line, ended) = end_line max_len strip_cr c in
      if b == b'\n' then some (some line, ended) else rest (store_byte b c)

  -- The outer `none` says that the fuel ran out, the inner one that the call returns false.
  unfoldable pub line_loop : ℕ → ℕ → Bool → Stream S → Option (Option (List ℕ) × Stream S)
  unfolding read
  line_loop zero max_len strip_cr c = none
  line_loop (suc fuel) max_len strip_cr c =
      let (got, c') = read 1 c in
      line_round (λ x. line_loop fuel max_len strip_cr x) max_len strip_cr (one_byte got) c'

  unfoldable pub read_line : ℕ → ℕ → Bool → Stream S → Option (Option (List ℕ) × Stream S)
  unfolding line_loop
  read_line fuel max_len strip_cr c =
      if max_len == 0 then some (none, c) else line_loop fuel max_len strip_cr c
