-- ===== src/Wifi.antt =====
-- ArduinoWiFiTcpConnection of async_event_loop_arduino/arduino_wifi_tcp.hpp. The Arduino library is a
-- parameter: `C` is the state of a WiFiClient, and `Client` what the connection calls of it.
pub mod Output
pub mod Transmission
pub mod Join
pub mod Lines
pub mod Server
pub mod Service
pub mod Endpoint
mod Tests
use pypilot_event_loop.Prelude.{
  ℕ, zero, suc, ◌+◌, ◌-◌, ◌%◌, Bool, true, false, not, ◌&&◌, ◌||◌, Option, none, some, List, [],
  ◌∷◌, ltb, leb, ◌==◌, if◌then◌else◌, length, get_or, set, take, drop, tabulate, replicate,
}

-- `read` and `peek` return `none` for a negative result; `write` returns the bytes that it took.
pub record Client (C : Type 0) : Type 0 where
  pub truthy : C → Bool
  pub connected : C → Bool
  pub available : C → ℕ
  pub read : C → Option ℕ × C
  pub peek : C → Option ℕ
  pub write : List ℕ → C → ℕ × C
  pub available_for_write : C → ℕ
  pub stop : C → C
  pub remote_ip : C → List ℕ

abbrev pub tx_capacity : ℕ
tx_capacity = 1024

abbrev pub tx_flush_chunk : ℕ
tx_flush_chunk = 64

abbrev pub line_capacity : ℕ
line_capacity = 256

-- `peer` is the address, `line` the whole array `line_`, `tx` the whole array `tx_`.
pub record Connection (C : Type 0) : Type 0 where
  pub client : C
  pub active : Bool
  pub peer : List ℕ
  pub line : List ℕ
  pub line_size : ℕ
  pub tx : List ℕ
  pub tx_head : ℕ
  pub tx_size : ℕ

-- `memcpy` to an array from the index `i` on, and from it.
abbrev pub copy_into : List ℕ → ℕ → List ℕ → List ℕ
copy_into buffer i [] = buffer
copy_into buffer i (b ∷ bs) = copy_into (set buffer i b) (i + 1) bs

abbrev pub slice : List ℕ → ℕ → ℕ → List ℕ
slice buffer i n = tabulate n (λ k. get_or buffer (i + k) 0)

abbrev pub at_most : ℕ → ℕ → ℕ
at_most limit n = if ltb limit n then limit else n

module _ {C : Type 0} where
  unfoldable pub tx_tail : Connection C → ℕ
  tx_tail c = (c.tx_head + c.tx_size) % tx_capacity

  unfoldable pub tx_free : Connection C → ℕ
  tx_free c = tx_capacity - c.tx_size

  unfoldable pub contiguous_output_size : Connection C → ℕ
  contiguous_output_size c =
      if c.tx_size == 0
      then 0
      else let until_end = tx_capacity - c.tx_head in
        if ltb c.tx_size until_end then c.tx_size else until_end

  -- The number of bytes of one round of `push_output`, and the state behind it.
  unfoldable pub push_size : List ℕ → Connection C → ℕ
  unfolding tx_tail tx_free
  push_size src c = at_most (at_most (tx_free c) (tx_capacity - tx_tail c)) (length src)

  unfoldable pub push_chunk : List ℕ → Connection C → Connection C
  unfolding tx_tail push_size
  push_chunk src c =
      let n = push_size src c in
      record c { tx = copy_into c.tx (tx_tail c) (take n src); tx_size = c.tx_size + n }

  -- The loop of `push_output`, on the rest of the bytes; each round takes at least one.
  unfoldable pub push_loop : ℕ → ℕ → List ℕ → Connection C → ℕ × Connection C
  unfolding tx_free
  push_loop zero pushed src c = (pushed, c)
  push_loop (suc fuel) pushed src c =
      let n = push_size src c in
      let rest = push_loop fuel (pushed + n) (drop n src) (push_chunk src c) in
      if ltb 0 (length src) && ltb 0 (tx_free c) then rest else (pushed, c)

  unfoldable pub push_output : List ℕ → Connection C → ℕ × Connection C
  push_output src c = push_loop (length src) 0 src c

  unfoldable pub pop_output : ℕ → Connection C → Connection C
  pop_output len c =
      let n = at_most c.tx_size len in
      let size = c.tx_size - n in
      record c { tx_head = if size == 0 then 0 else (c.tx_head + n) % tx_capacity; tx_size = size }

  module _ (api : Client C) (esp : Bool) where
    unfoldable pub valid : Connection C → Bool
    valid c = c.active && api.truthy c.client

    unfoldable pub closed_by_peer : Connection C → Bool
    closed_by_peer c = c.active && (not (api.connected c.client) && api.available c.client == 0)

    unfoldable pub close : Connection C → Connection C
    close c = record c {
      client = if c.active then api.stop c.client else c.client;
      active = false;
      line_size = 0;
      tx_head = 0;
      tx_size = 0;
    }

    unfoldable pub attach : C → Connection C → Bool × Connection C
    unfolding close valid
    attach client c =
        let c' = record (close c) {
          client = client;
          active = true;
          tx_head = 0;
          tx_size = 0;
          peer = api.remote_ip client;
        } in
        (valid c', c')

    unfoldable pub input_size : Connection C → ℕ
    input_size c = if c.active then api.available c.client else 0

    -- The size of one write of `flush_output`; `esp` tells the ESP32 and ESP8266 builds.
    unfoldable pub flush_size : Connection C → ℕ
    flush_size c =
        let n = contiguous_output_size c in
        if esp then at_most (api.available_for_write c.client) n else at_most tx_flush_chunk n

    -- The loop of `flush_output`; a round that goes on has written at least one byte.
    unfoldable pub flush_loop : ℕ → ℕ → Connection C → ℕ × Connection C
    flush_loop zero flushed c = (flushed, c)
    flush_loop (suc fuel) flushed c =
        let n = flush_size c in
        let (written, client) = api.write (slice c.tx c.tx_head n) c.client in
        let c' = pop_output written (record c { client = client }) in
        let rest = flush_loop fuel (flushed + written) c' in
        if not (ltb 0 c.tx_size && api.connected c.client)
        then (flushed, c)
        else if n == 0
        then (flushed, c)
        else if written == 0
        then (flushed, record c { client = client })
        else if ltb written n
        then (flushed + written, c')
        else rest

    unfoldable pub flush_output : Connection C → ℕ × Connection C
    flush_output c = if not c.active || c.tx_size == 0 then (0, c) else flush_loop c.tx_size 0 c

    -- `src`: `none` for a null pointer.
    unfoldable pub write : Option (List ℕ) → Connection C → ℕ × Connection C
    unfolding flush_output push_output
    write none c = (0, c)
    write (some src) c =
        if not c.active || length src == 0 then (0, c) else push_output src (flush_output c).1

    -- The loop of `read`, with room for `left` bytes.
    unfoldable pub read_loop : ℕ → C → List ℕ × C
    read_loop zero client = ([], client)
    read_loop (suc left) client =
        let (byte, client') = api.read client in
        let rest = read_loop left client' in
        if not (ltb 0 (api.available client))
        then ([], client)
        else elim byte [ none ↦ ([], client') | some b ↦ (b ∷ rest.0, rest.1) ]

    unfoldable pub read : ℕ → Connection C → List ℕ × Connection C
    unfolding read_loop
    read max_len c =
        let (bytes, client) = read_loop max_len c.client in
        if not c.active || max_len == 0 then ([], c) else (bytes, record c { client = client })

    -- `peek` of `len` bytes.
    unfoldable pub peek : ℕ → Connection C → Option ℕ
    peek len c =
        if not c.active || (len == 0 || ltb (api.available c.client) len)
        then none
        else if not (len == 1)
        then none
        else api.peek c.client

    unfoldable pub read_exact : ℕ → Connection C → Option (List ℕ) × Connection C
    unfolding read input_size
    read_exact len c =
        let (bytes, c') = read len c in
        if ltb (input_size c) len
        then (none, c)
        else if length bytes == len
        then (some bytes, c')
        else (none, c')

    -- `read_line` at a line feed: the bytes copied to `dst`, and the connection.
    abbrev pub end_line : ℕ → Bool → Connection C → List ℕ × Connection C
    end_line max_len strip_cr c =
        let len =
          if strip_cr && (ltb 0 c.line_size && (get_or c.line (c.line_size - 1) 0 == b'\r'))
          then c.line_size - 1
          else c.line_size in
        let copy = if ltb len (max_len - 1) then len else max_len - 1 in
        (take copy c.line, record c { line_size = 0 })

    -- A byte that is not a line feed.
    abbrev pub store_byte : ℕ → Connection C → Connection C
    store_byte b c =
        if ltb c.line_size line_capacity
        then record c { line = set c.line c.line_size b; line_size = c.line_size + 1 }
        else record c { line_size = 0 }

    -- The loop of `read_line`: the outer `none` says that the fuel ran out, the inner one that the
    -- call returns false.
    unfoldable pub line_loop : ℕ → ℕ → Bool → Connection C → Option (Option (List ℕ) × Connection C)
    line_loop zero max_len strip_cr c = none
    line_loop (suc fuel) max_len strip_cr c =
        let (byte, client) = api.read c.client in
        let c' = record c { client = client } in
        if not (ltb 0 (api.available c.client)) then some (none, c) else elim byte [
          | none ↦ some (none, c')
          | some b ↦
              let rest = line_loop fuel max_len strip_cr (store_byte b c') in
              let (line, ended) = end_line max_len strip_cr c' in
              if b == b'\n' then some (some line, ended) else rest
        ]

    unfoldable pub read_line : ℕ → ℕ → Bool → Connection C → Option (Option (List ℕ) × Connection C)
    unfolding line_loop
    read_line fuel max_len strip_cr c =
        if max_len == 0 then some (none, c) else line_loop fuel max_len strip_cr c
