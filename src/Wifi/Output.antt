-- ===== src/Wifi/Output.antt =====
-- The output buffer of ArduinoWiFiTcpConnection, arduino_wifi_tcp.hpp of async_event_loop_arduino: a
-- byte queue over a circular array, filled and emptied in blocks.
use native.Mathlib.Nat.{mod-add-mod, mod-eq_of_lt, mod-lt}
use pypilot_event_loop.Prelude.{
  ℕ, zero, suc, ◌+◌, ◌-◌, ◌%◌, ◌≤◌, ◌<◌, min, ◌≡◌, refl, sym, ap, ap₂, ◌∙◌, inl, inr, Bool, true,
  false, List, [], ◌∷◌, ◌++◌, append-nil, append_assoc, arith, length, length-take, length-drop,
  take-split, ◌&&◌, get_or, take, drop, take-nil, tabulate, tabulate-ext, ltb, leb, gt→leb, ◌⊎◌,
  ◌==◌, lt→ltb, subst, Bool-cases, if◌then◌else◌, set,
}
use pypilot_event_loop.Ring.{Ring, push}
use pypilot_event_loop.Ring.Queue.{IsValid, contents, push_lem}
use pypilot_event_loop.Wifi.{
  Connection, tx_capacity, at_most, copy_into, slice, tx_tail, tx_free, contiguous_output_size,
  push_size, push_chunk, push_loop, pop_output,
}

-- The output buffer as the circular buffer of the memory streams.
abbrev pub ring : {C : Type 0} → Connection C → Ring ℕ
ring c = record {
  buffer = c.tx;
  head = c.tx_head;
  tail = (c.tx_head + c.tx_size) % tx_capacity;
  count = c.tx_size;
}

-- The bytes that wait to be sent, in their order.
abbrev pub queue : {C : Type 0} → Connection C → List ℕ
queue c = contents tx_capacity 0 (ring c)

abbrev pub TxIsValid : {C : Type 0} → Connection C → Type 0
TxIsValid c = IsValid tx_capacity 0 (ring c)

-- A block in front of the end of the array is as many pushes as it has bytes.
copy_block : Ring ℕ → List ℕ → Ring ℕ
copy_block r bs = record r {
  buffer = copy_into r.buffer r.tail bs;
  tail = (r.tail + length bs) % tx_capacity;
  count = r.count + length bs;
}

-- The ring that holds `xs`.
abbrev Holds : Ring ℕ → List ℕ → Type 0
Holds r xs = IsValid tx_capacity 0 r × (contents tx_capacity 0 r ≡ xs)

push-Holds :
    (r : Ring ℕ) (b : ℕ)
    → IsValid tx_capacity 0 r
    → r.count < tx_capacity
    → Holds
        (record r {
          buffer = set r.buffer r.tail b;
          tail = (r.tail + 1) % tx_capacity;
          count = r.count + 1;
        })
        (contents tx_capacity 0 r ++ b ∷ [])
unfolding push
push-Holds r b v k =
    let full : leb tx_capacity r.count ≡ false = gt→leb tx_capacity r.count k in
    let p = push_lem tx_capacity 0 r b v in
    let next : Ring ℕ = record r {
      buffer = set r.buffer r.tail b;
      tail = (r.tail + 1) % tx_capacity;
      count = r.count + 1;
    } in
    let room : (if ltb r.count tx_capacity
          then contents tx_capacity 0 r ++ b ∷ []
          else contents tx_capacity 0 r)
        ≡ contents tx_capacity 0 r ++ b ∷ [] =
      ap (λ t. if t then contents tx_capacity 0 r ++ b ∷ [] else contents tx_capacity 0 r)
        (lt→ltb r.count tx_capacity k) in
    subst
      (λ t.
        Holds (if◌then◌else◌ {A = Bool × Ring ℕ} t (false, r) (true, next)).1
          (contents tx_capacity 0 r ++ b ∷ []))
      full (p.0, p.2 ∙ room)

copy_block_lem :
    (bs : List ℕ) (r : Ring ℕ)
    → IsValid tx_capacity 0 r
    → r.tail + length bs ≤ tx_capacity
    → r.count + length bs ≤ tx_capacity
    → Holds (copy_block r bs) (contents tx_capacity 0 r ++ bs)
unfolding copy_block
copy_block_lem [] r v h k =
    let low : r.tail < tx_capacity =
      subst (λ t. t < tx_capacity) (sym v.tail_at) (mod-lt _ {m = tx_capacity} (omega arith)) in
    let t : (r.tail + 0) % tx_capacity ≡ r.tail = omega arith in
    let n : r.count + 0 ≡ r.count = omega arith in rw (t, n) (v, sym (append-nil _))
copy_block_lem (b ∷ []) r v h k = push-Holds r b v (omega arith)
copy_block_lem (b ∷ b' ∷ bs) r v h k =
    let next : Ring ℕ = record r {
      buffer = set r.buffer r.tail b;
      tail = r.tail + 1;
      count = r.count + 1;
    } in
    let t : (r.tail + 1) % tx_capacity ≡ r.tail + 1 = omega arith in
    let first : Holds next (contents tx_capacity 0 r ++ b ∷ []) =
      subst
        (λ t.
          Holds (record r { buffer = set r.buffer r.tail b; tail = t; count = r.count + 1 })
            (contents tx_capacity 0 r ++ b ∷ []))
        t (push-Holds r b v (omega arith)) in
    let rest = copy_block_lem (b' ∷ bs) next first.0 (omega arith) (omega arith) in
    let t' : r.tail + 1 + suc (length bs) ≡ r.tail + suc (suc (length bs)) = omega arith in
    let n' : r.count + 1 + suc (length bs) ≡ r.count + suc (suc (length bs)) = omega arith in
    rw (sym t', sym n')
      (rest.0, rest.1 ∙ ap (λ xs. xs ++ b' ∷ bs) first.1 ∙ append_assoc _ (b ∷ []) (b' ∷ bs))

drop-tabulate :
    (m n : ℕ) (f : ℕ → ℕ) → m ≤ n → drop m (tabulate n f) ≡ tabulate (n - m) (λ i. f (m + i))
drop-tabulate zero n f h =
    let e : n - 0 ≡ n = omega arith in
    rw e (tabulate-ext n f (λ i. f (0 + i)) (λ i _. ap f (omega arith)))
drop-tabulate (suc m) zero f h = elim h [ ]
drop-tabulate (suc m) (suc n) f h =
    let e : suc n - suc m ≡ n - m = omega arith in
    rw e (
      drop-tabulate m n (λ i. f (suc i)) (omega arith)
      ∙ tabulate-ext (n - m) (λ i. f (suc (m + i))) (λ i. f (suc m + i))
          (λ i _. ap f (omega arith)))

take-tabulate : (m n : ℕ) (f : ℕ → ℕ) → m ≤ n → take m (tabulate n f) ≡ tabulate m f
take-tabulate zero n f h = refl
take-tabulate (suc m) zero f h = elim h [ ]
take-tabulate (suc m) (suc n) f h =
    ap (◌∷◌ (f 0)) (take-tabulate m n (λ i. f (suc i)) (omega arith))

module _ {C : Type 0} where
  -- The queue with `n` bytes less; the head of an empty queue may be anywhere.
  popped : ℕ → ℕ → Connection C → Connection C
  popped n h c = record c { tx_head = h; tx_size = c.tx_size - n }

  popped_lem :
      (n h : ℕ) (c : Connection C)
      → TxIsValid c
      → n ≤ c.tx_size
      → h < tx_capacity
      → ((c.tx_size - n ≡ 0) ⊎ (h ≡ (c.tx_head + n) % tx_capacity))
      → TxIsValid (popped n h c) × (queue (popped n h c) ≡ drop n (queue c))
  unfolding popped
  popped_lem n h c v le low e = (
    record { storage = v.storage; head_in = low; tail_at = refl; within = omega (arith, v.within) },
    tabulate-ext (c.tx_size - n) _ _ (λ i k.
          ap (λ j. get_or c.tx j 0)
            (elim e [
              | inl z ↦ absurd (omega arith)
              | inr p ↦
                  ap (λ j. (j + i) % tx_capacity) p
                  ∙ mod-add-mod _ _ _
                  ∙ ap (λ j. j % tx_capacity) (omega arith)
            ]))
        ∙ sym (drop-tabulate n c.tx_size (λ i. get_or c.tx ((c.tx_head + i) % tx_capacity) 0) le),
  )

  -- `pop_output` takes bytes from the front of the queue.
  pub pop_output_lem :
      (n : ℕ) (c : Connection C)
      → TxIsValid c
      → n ≤ c.tx_size
      → TxIsValid (pop_output n c) × (queue (pop_output n c) ≡ drop n (queue c))
  unfolding pop_output popped
  pop_output_lem n c v h =
      let m : at_most c.tx_size n ≡ n = ground arith in
      let done : Bool → Type 0 = λ b.
        let h' = if b then 0 else (c.tx_head + n) % tx_capacity in
        TxIsValid (popped n h' c) × (queue (popped n h' c) ≡ drop n (queue c)) in
      rw m (elim (Bool-cases (c.tx_size - n == 0)) [
        | inl z ↦ subst done (sym z) (popped_lem n 0 c v h (omega arith) (inl (ground arith)))
        | inr z ↦
            subst done (sym z) (
              popped_lem n ((c.tx_head + n) % tx_capacity) c v h (mod-lt _ (omega arith))
                (inr refl))
      ])

  -- What a flush offers is a prefix of the queue.
  pub slice-take :
      (n : ℕ) (c : Connection C)
      → TxIsValid c
      → n ≤ contiguous_output_size c
      → slice c.tx c.tx_head n ≡ take n (queue c)
  unfolding contiguous_output_size
  slice-take n c v h =
      let le : n ≤ c.tx_size = ground arith in
      let in_front : c.tx_head + n ≤ tx_capacity = ground (arith, v.head_in) in
      tabulate-ext n _ _ (λ i k. ap (λ j. get_or c.tx j 0) (sym (mod-eq_of_lt (omega arith))))
      ∙ sym (take-tabulate n c.tx_size (λ i. get_or c.tx ((c.tx_head + i) % tx_capacity) 0) le)

  -- A round of `push_output` puts bytes behind the queue.
  push_chunk_lem :
      (src : List ℕ) (c : Connection C)
      → TxIsValid c
      → TxIsValid (push_chunk src c)
        × (queue (push_chunk src c) ≡ queue c ++ take (push_size src c) src)
        × ((push_chunk src c).tx_size ≡ c.tx_size + push_size src c)
        × (push_size src c ≤ tx_free c)
        × (push_size src c ≤ length src)
        × (0 < length src → 0 < tx_free c → 0 < push_size src c)
  unfolding push_chunk push_size tx_tail tx_free copy_block
  push_chunk_lem src c v =
      let t = (c.tx_head + c.tx_size) % tx_capacity in
      let n = at_most (at_most (tx_capacity - c.tx_size) (tx_capacity - t)) (length src) in
      let low : t < tx_capacity = mod-lt _ (omega arith) in
      let n_le : (n ≤ tx_capacity - c.tx_size) × (n ≤ tx_capacity - t) × (n ≤ length src) =
        (ground arith, ground arith, ground arith) in
      let l : length (take n src) ≡ n = length-take n src ∙ omega (arith, n_le.2) in
      let copied =
        copy_block_lem (take n src) (ring c) v (omega (arith, l, n_le.1, low))
          (omega (arith, l, n_le.0, v.within)) in
      (
        record {
          storage = copied.0.storage;
          head_in = v.head_in;
          tail_at = refl;
          within = omega (arith, n_le.0, v.within);
        },
        subst
            (λ k.
              tabulate (c.tx_size + k)
                (λ i. get_or (copy_into c.tx t (take n src)) ((c.tx_head + i) % tx_capacity) 0)
              ≡ queue c ++ take n src)
            l copied.1,
        refl,
        n_le.0,
        n_le.2,
        λ some_left some_free. ground (arith, low),
      )

  -- `push_output` with enough rounds: it takes the bytes that there is room for.
  pub push_loop_lem :
      (fuel pushed : ℕ) (src : List ℕ) (c : Connection C)
      → TxIsValid c
      → length src ≤ fuel
      → ((push_loop fuel pushed src c).0 ≡ pushed + min (length src) (tx_free c))
        × TxIsValid (push_loop fuel pushed src c).1
        × (queue (push_loop fuel pushed src c).1 ≡ queue c ++ take (tx_free c) src)
        × ((push_loop fuel pushed src c).1.client ≡ c.client)
  unfolding push_loop tx_free push_chunk
  push_loop_lem zero pushed [] c v h = (omega arith, v, rw take-nil (sym (append-nil _)), refl)
  push_loop_lem zero pushed (b ∷ bs) c v h = elim h [ ]
  push_loop_lem (suc fuel) pushed src c v h =
      let n = push_size src c in
      let (v', q, size, free, len, some_n) = push_chunk_lem src c v in
      let done : Bool → Type 0 = λ b.
        let out =
          if b then push_loop fuel (pushed + n) (drop n src) (push_chunk src c) else (pushed, c) in
        (out.0 ≡ pushed + min (length src) (tx_free c))
        × TxIsValid out.1
        × (queue out.1 ≡ queue c ++ take (tx_free c) src)
        × (out.1.client ≡ c.client) in
      elim (Bool-cases (ltb 0 (length src) && ltb 0 (tx_free c))) [
        | inl go ↦
            let a : 0 < length src = ground arith in
            let b : 0 < tx_free c = ground arith in
            let pos = some_n a b in
            let d = length-drop n src in
            let (count, w, q', same) =
              push_loop_lem fuel (pushed + n) (drop n src) (push_chunk src c) v' (omega arith) in
            let left : tx_free (push_chunk src c) ≡ tx_free c - n = omega arith in
            subst done (sym go) (
              omega arith,
              w,
              q'
                  ∙ ap₂ (λ xs k. xs ++ take k (drop n src)) q left
                  ∙ append_assoc (queue c) (take n src) _
                  ∙ ap (λ xs. queue c ++ xs) (take-split n (tx_free c) src free),
              same,
            )
        | inr stop ↦ subst done (sym stop) (
          ground arith,
          v,
          sym (ap (λ xs. queue c ++ xs) (nothing_taken (tx_free c) src stop) ∙ append-nil _),
          refl,
        )
      ]
    where
      nothing_taken :
          (k : ℕ) (xs : List ℕ) → (ltb 0 (length xs) && ltb 0 k) ≡ false → take k xs ≡ []
      nothing_taken zero xs h = refl
      nothing_taken (suc k) [] h = refl
      nothing_taken (suc k) (x ∷ xs) h = ground arith
