-- ===== src/Wifi/Transmission.antt =====
-- `write` and `flush_output` of ArduinoWiFiTcpConnection, arduino_wifi_tcp.hpp of
-- async_event_loop_arduino, over a WiFiClient that sends in order what it takes.
use pypilot_event_loop.Prelude.{
  branch, ℕ, zero, suc, ◌+◌, ◌-◌, ◌≤◌, ◌<◌, min, ◌≡◌, refl, sym, ap, ap₂, ◌∙◌, Bool, true, false,
  not, ◌&&◌, ◌||◌, some, List, ◌++◌, append-nil, append_assoc, arith, length, length-tabulate, take,
  drop, take-drop, ltb, ◌==◌, if◌then◌else◌, take-take, take-min,
}
use pypilot_event_loop.Wifi.{
  Client, Connection, slice, contiguous_output_size, tx_free, flush_size, flush_loop, flush_output,
  push_output, push_loop, pop_output, write, tx_capacity,
}
use pypilot_event_loop.Wifi.Output.{queue, TxIsValid, pop_output_lem, slice-take, push_loop_lem}

-- What the code relies on of `WiFiClient::write`: it takes a prefix of the bytes, as long as it
-- says, and sends it behind what it has sent.
pub record Sends {C : Type 0} (api : Client C) : Type 0 where
  pub sent : C → List ℕ
  pub takes : (bs : List ℕ) (x : C) → (api.write bs x).0 ≤ length bs
  pub sends : (bs : List ℕ) (x : C) → sent (api.write bs x).1 ≡ sent x ++ take (api.write bs x).0 bs

-- The four tests of a round of `flush_output`.
branches :
    {A : Type 0} (P : A → Type 0) (a b d e : Bool) (x y z w : A)
    → P x
    → (d ≡ true → P y)
    → P z
    → P w
    → P (if a then x else if b then x else if d then y else if e then z else w)
branches P true b d e x y z w p q r t = p
branches P false true d e x y z w p q r t = p
branches P false false true e x y z w p q r t = q refl
branches P false false false true x y z w p q r t = r
branches P false false false false x y z w p q r t = t

same_branches :
    {A : Type 0} (a b d e : Bool) (x y z w w' : A)
    → (a ≡ true → d ≡ false → w ≡ w')
    → (if not a then x else if b then x else if d then y else if e then z else w)
      ≡ (if not a then x else if b then x else if d then y else if e then z else w')
same_branches false b d e x y z w w' h = refl
same_branches true true d e x y z w w' h = refl
same_branches true false true e x y z w w' h = refl
same_branches true false false true x y z w w' h = refl
same_branches true false false false x y z w w' h = h refl refl

module _ {C : Type 0} (api : Client C) (esp : Bool) where
  -- The bytes sent and those that wait, in their order.
  abbrev pub stream : Sends api → Connection C → List ℕ
  stream s c = s.sent c.client ++ queue c

  flush_size-le : (c : Connection C) → flush_size api esp c ≤ contiguous_output_size c
  unfolding flush_size
  flush_size-le c = ground arith

  contiguous-le : (c : Connection C) → contiguous_output_size c ≤ c.tx_size
  unfolding contiguous_output_size
  contiguous-le c = ground arith

  -- What a flush keeps.
  abbrev Kept : Sends api → ℕ → Connection C → ℕ × Connection C → Type 0
  Kept s flushed c out =
      (stream s out.1 ≡ stream s c)
      × TxIsValid out.1
      × (out.0 + out.1.tx_size ≡ flushed + c.tx_size)

  -- One write of a block.
  abbrev sent_block : Connection C → Connection C
  sent_block c =
      let (written, client) = api.write (slice c.tx c.tx_head (flush_size api esp c)) c.client in
      pop_output written (record c { client = client })

  abbrev block_written : Connection C → ℕ
  block_written c = (api.write (slice c.tx c.tx_head (flush_size api esp c)) c.client).0

  pop_output-size :
      (n : ℕ) (c : Connection C) → n ≤ c.tx_size → n + (pop_output n c).tx_size ≡ c.tx_size
  unfolding pop_output
  pop_output-size n c h = ground arith

  pop_output-client : (n : ℕ) (c : Connection C) → (pop_output n c).client ≡ c.client
  unfolding pop_output
  pop_output-client n c = refl

  sent_block-Kept :
      (s : Sends api) (flushed : ℕ) (c : Connection C)
      → TxIsValid c
      → Kept s flushed c (flushed + block_written c, sent_block c)
  sent_block-Kept s flushed c v =
      let n = flush_size api esp c in
      let bs = slice c.tx c.tx_head n in
      let (written, client) = api.write bs c.client in
      let c1 : Connection C = record c { client = client } in
      let l : length bs ≡ n = length-tabulate n _ in
      let le = s.takes bs c.client in
      let small = flush_size-le c in
      let few = contiguous-le c in
      let fits : written ≤ c.tx_size = omega arith in
      let (v', q) = pop_output_lem written c1 v fits in
      let size = pop_output-size written c1 fits in
      let front : take written bs ≡ take written (queue c) =
        ap (take written) (slice-take n c v small) ∙ take-take written n (queue c) (omega arith) in
      (
        ap₂ ◌++◌ (ap s.sent (pop_output-client written c1) ∙ s.sends bs c.client) q
            ∙ append_assoc (s.sent c.client) (take written bs) (drop written (queue c))
            ∙ ap (λ xs. s.sent c.client ++ xs)
                (ap (λ xs. xs ++ drop written (queue c)) front ∙ take-drop written (queue c)),
        v',
        omega arith,
      )

  -- A write that takes nothing.
  refused-Kept :
      (s : Sends api) (flushed : ℕ) (c : Connection C)
      → TxIsValid c
      → (block_written c == 0) ≡ true
      → Kept s flushed c (
        flushed,
        record c { client = (api.write (slice c.tx c.tx_head (flush_size api esp c)) c.client).1 },
      )
  refused-Kept s flushed c v z =
      let bs = slice c.tx c.tx_head (flush_size api esp c) in
      let zero_written : block_written c ≡ 0 = ground arith in
      (
        ap (λ xs. xs ++ queue c)
            (s.sends bs c.client
              ∙ ap (λ k. s.sent c.client ++ take k bs) zero_written
              ∙ append-nil _),
        v,
        refl,
      )

  flush_loop-Kept :
      (s : Sends api) (fuel flushed : ℕ) (c : Connection C)
      → TxIsValid c
      → Kept s flushed c (flush_loop api esp fuel flushed c)
  unfolding flush_loop
  flush_loop-Kept s zero flushed c v = (refl, v, refl)
  flush_loop-Kept s (suc fuel) flushed c v =
      let k = sent_block-Kept s flushed c v in
      let r = flush_loop-Kept s fuel (flushed + block_written c) (sent_block c) k.1 in
      let stay : Kept s flushed c (flushed, c) = (refl, v, refl) in
      let n = flush_size api esp c in
      let written = block_written c in
      branches (Kept s flushed c) (not (ltb 0 c.tx_size && api.connected c.client)) (n == 0)
        (written == 0) (ltb written n) (flushed, c)
        (flushed, record c { client = (api.write (slice c.tx c.tx_head n) c.client).1 })
        (flushed + written, sent_block c)
        (flush_loop api esp fuel (flushed + written) (sent_block c)) stay
        (λ z. refused-Kept s flushed c v z) k (r.0 ∙ k.0, r.1, r.2 ∙ k.2)

  -- `flush_output` loses, repeats and reorders no byte: what has been sent and what waits to be sent
  -- stays the same sequence, and the result is the number of bytes that went from one to the other.
  pub flush_output-Kept :
      (s : Sends api) (c : Connection C)
      → TxIsValid c
      → (stream s (flush_output api esp c).1 ≡ stream s c)
        × TxIsValid (flush_output api esp c).1
        × ((flush_output api esp c).0 + (flush_output api esp c).1.tx_size ≡ c.tx_size)
  unfolding flush_output
  flush_output-Kept s c v =
      let k =
        branch (Kept s 0 c) (not c.active || c.tx_size == 0) (0, c)
          (flush_loop api esp c.tx_size 0 c) (λ _. (refl, v, refl))
          (λ _. flush_loop-Kept s c.tx_size 0 c v) in
      (k.0, k.1, omega (arith, k.2))

  -- A round that goes on leaves fewer bytes.
  sent_block-less :
      (c : Connection C)
      → (ltb 0 c.tx_size && api.connected c.client) ≡ true
      → (block_written c == 0) ≡ false
      → (sent_block c).tx_size < c.tx_size
  unfolding pop_output
  sent_block-less c go some_written = ground arith

  flush_loop-fuel :
      (fuel fuel' flushed : ℕ) (c : Connection C)
      → c.tx_size ≤ fuel
      → c.tx_size ≤ fuel'
      → flush_loop api esp fuel flushed c ≡ flush_loop api esp fuel' flushed c
  unfolding flush_loop
  flush_loop-fuel zero zero flushed c h k = refl
  flush_loop-fuel zero (suc fuel') flushed c h k =
      let none_waits : ltb 0 c.tx_size ≡ false = ground arith in rw none_waits refl
  flush_loop-fuel (suc fuel) zero flushed c h k =
      let none_waits : ltb 0 c.tx_size ≡ false = ground arith in rw none_waits refl
  flush_loop-fuel (suc fuel) (suc fuel') flushed c h k =
      same_branches (ltb 0 c.tx_size && api.connected c.client) (flush_size api esp c == 0)
        (block_written c == 0) (ltb (block_written c) (flush_size api esp c)) _ _ _ _ _
        (λ go some_written.
          let less = sent_block-less c go some_written in
          flush_loop-fuel fuel fuel' (flushed + block_written c) (sent_block c) (omega arith)
            (omega arith))

  -- `flush_output` always comes to an end: its loop makes at most as many rounds as bytes wait.
  pub flush_loop-enough :
      (fuel flushed : ℕ) (c : Connection C)
      → c.tx_size ≤ fuel
      → flush_loop api esp fuel flushed c ≡ flush_loop api esp c.tx_size flushed c
  flush_loop-enough fuel flushed c h = flush_loop-fuel fuel c.tx_size flushed c h (omega arith)

  pub write-Sends :
      (s : Sends api) (src : List ℕ) (c : Connection C)
      → TxIsValid c
      → c.active ≡ true
      → let out = write api esp (some src) c in
        (stream s out.1 ≡ stream s c ++ take out.0 src)
        × TxIsValid out.1
        × (out.0 ≡ min (length src) (tx_capacity - (flush_output api esp c).1.tx_size))
  unfolding write push_output tx_free
  write-Sends s src c v a =
      let flushed = (flush_output api esp c).1 in
      let (kept, w, _) = flush_output-Kept s c v in
      let room = tx_capacity - flushed.tx_size in
      let (count, w', q, same) = push_loop_lem (length src) 0 src flushed w (omega arith) in
      let P : ℕ × Connection C → Type 0 = λ out.
        (stream s out.1 ≡ stream s c ++ take out.0 src)
        × TxIsValid out.1
        × (out.0 ≡ min (length src) room) in
      let count' : (push_loop (length src) 0 src flushed).0 ≡ min (length src) room = omega arith in
      branch P (not c.active || length src == 0) (0, c) (push_loop (length src) 0 src flushed)
        (λ empty.
          let none_given : length src ≡ 0 = ground arith in (sym (append-nil _), v, omega arith))
        (λ _. (
          ap₂ (λ x xs. s.sent x ++ xs) same q
              ∙ sym (append_assoc (s.sent flushed.client) (queue flushed) (take room src))
              ∙ ap₂ ◌++◌ kept (sym (ap (λ k. take k src) count' ∙ take-min room src)),
          w',
          count',
        ))
