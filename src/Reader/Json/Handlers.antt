-- ===== src/Reader/Json/Handlers.antt =====
-- Each handler of the JSON reader makes the step of the machine.
use pypilot_event_loop.Prelude.{
  ℕ, zero, suc, ◌+◌, ◌<◌, ◌≡◌, refl, ◌∙◌, inl, inr, Bool, true, some, List, [], ◌∷◌, ◌++◌, arith,
  leb, ◌==◌, drop, set, get_or, Bool-cases,
}
use pypilot_event_loop.Stream.{ByteStream}
use pypilot_event_loop.Stream.Device.{Device}
use pypilot_event_loop.Reader.Json.Defs.{
  JsonReader, append, emit_json, consume_string_value, consume_literal_value,
}
use pypilot_event_loop.Reader.Json.Spec.{
  Frame, quoted, word, quoted_step, word_step, word_rest, keep, done,
}
use pypilot_event_loop.Reader.Json.Refine.{
  Matches, Base, Good, Good-bad, Good-lost, Good-done, append-full, append-room,
}

drop-cons :
    (n : ℕ) (text : List ℕ) (x : ℕ) (xs : List ℕ)
    → drop n text ≡ x ∷ xs
    → (get_or text n 0 ≡ x) × (drop (n + 1) text ≡ xs)
drop-cons zero [] x xs h = cc
drop-cons (suc n) [] x xs h = cc
drop-cons zero (y ∷ ys) x xs h = (ground (arith, h), ground (arith, h))
drop-cons (suc n) (y ∷ ys) x xs h =
    let e : suc n + 1 ≡ suc (n + 1) = omega arith in rw e (drop-cons n ys x xs h)

drop-nil : (n : ℕ) (text : List ℕ) → drop n text ≡ [] → get_or text n 0 ≡ 0
drop-nil zero [] h = refl
drop-nil (suc n) [] h = refl
drop-nil zero (y ∷ ys) h = cc
drop-nil (suc n) (y ∷ ys) h = drop-nil n ys h

module _ {W : Type 0} (skip : Bool) (room : ℕ) {stream : ByteStream W} {call : List ℕ → W → W}
    (d : Device stream call) (before : List (List ℕ)) (queue : List ℕ) where
  abbrev pub Makes : Frame → JsonReader W × W → Type 0
  Makes f rw = Good skip room d before queue f rw

  abbrev grown : Frame → ℕ → Frame
  grown f c = record f { text = f.text ++ c ∷ [] }

  abbrev stored : JsonReader W → ℕ → JsonReader W
  stored r c = record r { buffer = set r.buffer r.size c; size = r.size + 1 }

  abbrev pub Held : Frame → JsonReader W → W → Type 0
  Held f r w = Base skip room d before queue f r w

  done_at :
      (f : Frame) (r : JsonReader W) (w : W) (c : ℕ)
      → Held (grown f c) (stored r c) w
      → Makes (done (grown f c)) (emit_json (stored r c) w)
  done_at f r w c b = Good-done skip room d before queue (grown f c) (stored r c) w b

  pub quoted_handler :
      (escape : Bool) (c : ℕ) (f : Frame) (r : JsonReader W) (w : W)
      → Base skip room d before queue f r w
      → Matches (quoted escape) r
      → Makes (keep room c f (quoted_step c escape)) (consume_string_value room c r w)
  unfolding consume_string_value
  quoted_handler escape c f r w b m = elim (Bool-cases (leb room r.size)) [
    | inl full ↦
        let (e, k) = append-full skip room d before queue f r w c (quoted_step c escape) b full in
        rw (k, e) (Good-lost skip room d before queue f r w b)
    | inr fits ↦
        let (e, k, b') =
          append-room skip room d before queue f r w c (quoted_step c escape) b fits in
        rw (k, e) (ground (arith, m, b', done_at f r w c b'))
  ]

  -- Behind a byte of the literal that was stored.
  word_next :
      (c x : ℕ) (xs : List ℕ) (f : Frame) (r : JsonReader W) (w : W)
      → Matches (word (x ∷ xs)) r
      → (text : List ℕ) → r.literal ≡ some text
      → get_or text r.literal_pos 0 ≡ c
      → drop (r.literal_pos + 1) text ≡ xs
      → append room c r ≡ (true, stored r c)
      → 0 < c
      → Held (grown f c) (stored r c) w
      → Makes (word_rest xs (grown f c)) (consume_literal_value room c r w)
  unfolding consume_literal_value
  word_next c x [] f r w m text l at more a pos b' =
      let ends = drop-nil (r.literal_pos + 1) text more in
      let last =
        Good-done skip room d before queue (grown f c)
          (record (stored r c) { literal_pos = r.literal_pos + 1 }) w b' in
      ground (arith, l, at, ends, a, last, m.2.0, pos)
  word_next c x (y ∷ ys) f r w m text l at more a pos b' =
      let (on, _) = drop-cons (r.literal_pos + 1) text y ys more in
      ground (arith, l, at, on, a, b', m, more, pos)

  word_byte :
      (c x : ℕ) (xs : List ℕ) (f : Frame) (r : JsonReader W) (w : W)
      → Held f r w
      → Matches (word (x ∷ xs)) r
      → x ≡ c
      → Makes (keep room c f (word_rest xs)) (consume_literal_value room c r w)
  unfolding consume_literal_value
  word_byte c x xs f r w b m same = elim (Bool-cases (leb room r.size)) [
    | inl full ↦
        let (text, l, e) = m.3 in
        let (at, _) = drop-cons r.literal_pos text x xs e in
        let (a, k) = append-full skip room d before queue f r w c (word_rest xs) b full in
        rw k (ground (arith, l, at, same, m.2.0, a, Good-lost skip room d before queue f r w b))
    | inr fits ↦
        let (text, l, e) = m.3 in
        let (at, more) = drop-cons r.literal_pos text x xs e in
        let (a, k, b') = append-room skip room d before queue f r w c (word_rest xs) b fits in
        rw k (word_next c x xs f r w m text l (at ∙ same) more a (omega (arith, m.2.0, same)) b')
  ]

  -- A byte of a literal.
  pub word_handler :
      (c : ℕ) (rest : List ℕ) (f : Frame) (r : JsonReader W) (w : W)
      → Held f r w
      → Matches (word rest) r
      → Makes (word_step room c rest f) (consume_literal_value room c r w)
  unfolding consume_literal_value
  word_handler c [] f r w b m =
      let (text, l, e) = m.3 in
      ground (arith, l, drop-nil r.literal_pos text e, Good-bad skip room d before queue f r w b)
  word_handler c (x ∷ xs) f r w b m = elim (Bool-cases (x == c)) [
    | inl same ↦ rw same (word_byte c x xs f r w b m (ground (arith, same)))
    | inr other ↦
        let (text, l, e) = m.3 in
        let (at, _) = drop-cons r.literal_pos text x xs e in
        ground (arith, l, at, other, m.2.0, Good-bad skip room d before queue f r w b)
  ]
