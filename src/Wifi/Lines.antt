-- ===== src/Wifi/Lines.antt =====
-- The lines of `read_line`, ArduinoWiFiTcpConnection of async_event_loop_arduino/arduino_wifi_tcp.hpp.
use pypilot_event_loop.Prelude.{
  ℕ, zero, suc, ◌+◌, ◌-◌, ◌≤◌, ◌<◌, ◌≡◌, refl, sym, ap, ◌∙◌, subst, Bool, true, false, ◌&&◌, some,
  List, [], ◌∷◌, ◌++◌, append-nil, append_assoc, length, length-set, length-take, lt→ltb, take,
  take-set, take-take, get_or, get_or-take, set, ltb, ◌==◌, if◌then◌else◌, arith, Bool-cases, inl,
  inr,
}
use pypilot_event_loop.Wifi.{
  Client, Connection, line_capacity, end_line, store_byte, line_loop, read_line,
}

-- What the code relies on of `WiFiClient::available` and `read`: the bytes received come one by one.
pub record Reads {C : Type 0} (api : Client C) : Type 0 where
  pub input : C → List ℕ
  pub counts : (x : C) → api.available x ≡ length (input x)
  pub reads : (x : C) (b : ℕ) (bs : List ℕ) → input x ≡ b ∷ bs → (api.read x).0 ≡ some b
  pub leaves : (x : C) (b : ℕ) (bs : List ℕ) → input x ≡ b ∷ bs → input (api.read x).1 ≡ bs

-- How many of `n` bytes go to the caller's array, `last` being the last of them.
abbrev pub copied : ℕ → Bool → ℕ → ℕ → ℕ
copied max_len strip_cr n last =
    let len = if strip_cr && (ltb 0 n && (last == b'\r')) then n - 1 else n in
    if ltb len (max_len - 1) then len else max_len - 1

-- A line without its CR, cut to the room in the caller's array.
abbrev pub cut_line : ℕ → Bool → List ℕ → List ℕ
cut_line max_len strip_cr l =
    take (copied max_len strip_cr (length l) (get_or l (length l - 1) 0)) l

copied-eq :
    (max_len : ℕ) (strip_cr : Bool) (n last last' : ℕ)
    → (0 < n → last ≡ last')
    → copied max_len strip_cr n last ≡ copied max_len strip_cr n last'
copied-eq max_len strip_cr n last last' h = elim (Bool-cases (ltb 0 n)) [
  | inl some_bytes ↦ ap (copied max_len strip_cr n) (h (ground arith))
  | inr no_bytes ↦ rw no_bytes refl
]

copied-le : (max_len : ℕ) (strip_cr : Bool) (n last : ℕ) → copied max_len strip_cr n last ≤ n
copied-le max_len strip_cr n last = ground arith

abbrev pub HasNo : ℕ → List ℕ → Type 0
HasNo d [] = Unit {0}
HasNo d (b ∷ bs) = ((b == d) ≡ false) × HasNo d bs

module _ {C : Type 0} (api : Client C) (esp : Bool) where
  -- The bytes of the line so far.
  abbrev pub partial : Connection C → List ℕ
  partial c = take c.line_size c.line

  pub record LineIsValid (c : Connection C) : Type 0 where
    pub storage : length c.line ≡ line_capacity
    pub within : c.line_size ≤ line_capacity

  length-partial : (c : Connection C) → LineIsValid c → length (partial c) ≡ c.line_size
  length-partial c v = length-take c.line_size c.line ∙ omega (arith, v.storage, v.within)

  end_line-cut_line :
      (max_len : ℕ) (strip_cr : Bool) (c : Connection C)
      → LineIsValid c
      → (end_line api esp max_len strip_cr c).0 ≡ cut_line max_len strip_cr (partial c)
  end_line-cut_line max_len strip_cr c v =
      let n = c.line_size in
      let last = get_or c.line (n - 1) 0 in
      let l = length-partial c v in
      let k = copied max_len strip_cr n last in
      let same : copied max_len strip_cr (length (partial c))
            (get_or (partial c) (length (partial c) - 1) 0)
          ≡ k =
        ap (λ m. copied max_len strip_cr m (get_or (partial c) (m - 1) 0)) l
        ∙ copied-eq max_len strip_cr n (get_or (partial c) (n - 1) 0) last
            (λ pos. get_or-take n (n - 1) c.line 0 (omega arith)) in
      sym (
        ap (λ k. take k (partial c)) same
        ∙ take-take k n c.line (copied-le max_len strip_cr n last))

  store_byte-partial :
      (b : ℕ) (c : Connection C)
      → LineIsValid c
      → c.line_size < line_capacity
      → LineIsValid (store_byte api esp b c)
        × (partial (store_byte api esp b c) ≡ partial c ++ b ∷ [])
        × ((store_byte api esp b c).client ≡ c.client)
        × ((store_byte api esp b c).line_size ≡ c.line_size + 1)
  store_byte-partial b c v h =
      let room : ltb c.line_size line_capacity ≡ true = lt→ltb c.line_size line_capacity h in
      let next : Connection C = record c {
        line = set c.line c.line_size b;
        line_size = c.line_size + 1;
      } in
      let P : Connection C → Type 0 = λ x.
        LineIsValid x
        × (partial x ≡ partial c ++ b ∷ [])
        × (x.client ≡ c.client)
        × (x.line_size ≡ c.line_size + 1) in
      subst (λ t. P (if t then next else record c { line_size = 0 })) (sym room)
        (
          record { storage = length-set c.line c.line_size b ∙ v.storage; within = omega arith },
          take-set c.line c.line_size b (omega (arith, v.storage)),
          refl,
          refl,
        )

  line_loop-cut_line :
      (r : Reads api) (fuel max_len : ℕ) (strip_cr : Bool) (c : Connection C) (line rest : List ℕ)
      → LineIsValid c
      → r.input c.client ≡ line ++ b'\n' ∷ rest
      → HasNo b'\n' line
      → c.line_size + length line ≤ line_capacity
      → length line < fuel
      → (c' : Connection C) × (line_loop api esp fuel max_len strip_cr c
          ≡ some (some (cut_line max_len strip_cr (partial c ++ line)), c'))
        × (r.input c'.client ≡ rest)
        × (c'.line_size ≡ 0)
  unfolding line_loop
  line_loop-cut_line r zero max_len strip_cr c line rest v i clean fits f = elim f [ ]
  line_loop-cut_line r (suc fuel) max_len strip_cr c [] rest v i clean fits f =
      let c1 : Connection C = record c { client = (api.read c.client).1 } in
      let avail : ltb 0 (api.available c.client) ≡ true =
        ap (ltb 0) (r.counts c.client ∙ ap length i) ∙ ground arith in
      let byte = r.reads c.client b'\n' rest i in
      let cut : (end_line api esp max_len strip_cr c1).0
          ≡ cut_line max_len strip_cr (partial c ++ []) =
        end_line-cut_line max_len strip_cr c1 (record { storage = v.storage; within = v.within })
        ∙ ap (cut_line max_len strip_cr) (sym (append-nil (partial c))) in
      (
        (end_line api esp max_len strip_cr c1).1,
        rw (avail, byte) (ap (λ l. some (some l, (end_line api esp max_len strip_cr c1).1)) cut),
        r.leaves c.client b'\n' rest i,
        refl,
      )
  line_loop-cut_line r (suc fuel) max_len strip_cr c (b ∷ bs) rest v i (here, clean) fits f =
      let c1 : Connection C = record c { client = (api.read c.client).1 } in
      let avail : ltb 0 (api.available c.client) ≡ true =
        ap (ltb 0) (r.counts c.client ∙ ap length i) ∙ ground arith in
      let byte = r.reads c.client b (bs ++ b'\n' ∷ rest) i in
      let (w, p, same, size) =
        store_byte-partial b c1 (record { storage = v.storage; within = v.within }) (omega arith) in
      let (c', done, left, none_kept) =
        line_loop-cut_line r fuel max_len strip_cr (store_byte api esp b c1) bs rest w
          (ap r.input same ∙ r.leaves c.client b (bs ++ b'\n' ∷ rest) i) clean (omega arith)
          (omega arith) in
      (
        c',
        rw (avail, byte, here)
            (done
              ∙ ap (λ l. some (some (cut_line max_len strip_cr l), c'))
                  (ap (λ l. l ++ bs) p ∙ append_assoc (partial c) (b ∷ []) bs)),
        left,
        none_kept,
      )

  -- With a line of at most 256 bytes and its line feed at hand, behind what an earlier call has
  -- kept of it, `read_line` returns true and the line, without its CR where the call asks for
  -- that, cut to the caller's array; the bytes behind the line feed stay with the client, and
  -- nothing is kept. Any fuel above the length of the line is enough.
  pub read_line-cut_line :
      (r : Reads api) (fuel max_len : ℕ) (strip_cr : Bool) (c : Connection C) (line rest : List ℕ)
      → LineIsValid c
      → r.input c.client ≡ line ++ b'\n' ∷ rest
      → HasNo b'\n' line
      → c.line_size + length line ≤ line_capacity
      → length line < fuel
      → 0 < max_len
      → (c' : Connection C) × (read_line api esp fuel max_len strip_cr c
          ≡ some (some (cut_line max_len strip_cr (partial c ++ line)), c'))
        × (r.input c'.client ≡ rest)
        × (c'.line_size ≡ 0)
  unfolding read_line
  read_line-cut_line r fuel max_len strip_cr c line rest v i clean fits f room =
      let given : (max_len == 0) ≡ false = ground arith in
      let (c', done, left, none_kept) =
        line_loop-cut_line r fuel max_len strip_cr c line rest v i clean fits f in
      (c', rw given done, left, none_kept)
