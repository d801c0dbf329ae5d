-- ===== src/Reader/Json/Containers.antt =====
-- `consume_container` makes the machine's step inside a container.
use pypilot_event_loop.Prelude.{
  ℕ, zero, suc, ◌+◌, ◌-◌, ◌<◌, ◌≡◌, sym, ◌∙◌, inl, inr, Bool, true, false, List, [], ◌∷◌, ◌++◌,
  arith, leb, length-set, set, get_or, Bool-cases,
}
use pypilot_event_loop.Stream.{ByteStream}
use pypilot_event_loop.Stream.Device.{Device}
use pypilot_event_loop.Reader.Json.Defs.{
  JsonReader, append, push_container, pop_container, close_container, inside_string,
  consume_container,
}
use pypilot_event_loop.Reader.Json.Spec.{
  Frame, inside, in_string_step, close_step, inside_step, keep, go,
}
use pypilot_event_loop.Reader.Json.Refine.{
  opens_of, opens_of-push, opens_of-pop, Matches, Base, Good, Good-bad, Good-lost, Good-done,
  append-full, append-room,
}

-- One open bracket, or more, by the depth.
one_open :
    (n o : ℕ) (stack : List ℕ)
    → opens_of n stack ≡ o ∷ []
    → 0 < n
    → (n - 1 ≡ 0) × (get_or stack (n - 1) 0 ≡ o)
one_open zero o stack e h = elim h [ ]
one_open (suc zero) o stack e h = (omega arith, ground (arith, e))
one_open (suc (suc n)) o stack e h = cc

two_open :
    (n o p : ℕ) (opens stack : List ℕ)
    → opens_of n stack ≡ o ∷ p ∷ opens
    → 0 < n
    → (0 < n - 1) × (get_or stack (n - 1) 0 ≡ o) × (opens_of (n - 1) stack ≡ p ∷ opens)
two_open zero o p opens stack e h = elim h [ ]
two_open (suc zero) o p opens stack e h = cc
two_open (suc (suc n)) o p opens stack e h =
    let d : suc (suc n) - 1 ≡ suc n = omega arith in
    rw d (omega arith, ground (arith, e), ground (arith, e))

module _ {W : Type 0} (skip : Bool) (room : ℕ) {stream : ByteStream W} {call : List ℕ → W → W}
    (d : Device stream call) (before : List (List ℕ)) (queue : List ℕ) where
  abbrev GoodAt : Frame → JsonReader W × W → Type 0
  GoodAt f rw = Good skip room d before queue f rw

  abbrev BaseAt : Frame → JsonReader W → W → Type 0
  BaseAt f r w = Base skip room d before queue f r w

  push_handler :
      (opens : List ℕ) (c : ℕ) (escape : Bool) (f : Frame) (r : JsonReader W) (w : W)
      → BaseAt f r w
      → Matches (inside opens false escape) r
      → r.depth < room
      → r.depth < r.size
      → GoodAt (go (inside (c ∷ opens) false escape) f) ((push_container room c r).1, w)
  unfolding push_container
  push_handler opens c escape f r w b m h k =
      ground (arith, b, m, h, k, length-set r.stack r.depth c, opens_of-push r.depth c r.stack)

  -- A bracket that closes: the innermost bracket is taken off if it matches.
  close_handler :
      (opens : List ℕ) (c : ℕ) (escape : Bool) (f : Frame) (r : JsonReader W) (w : W)
      → BaseAt f r w
      → Matches (inside opens false escape) r
      → GoodAt (close_step c opens escape f) (close_container room c r w)
  unfolding close_container pop_container
  close_handler [] c escape f r w b m = cc (sym m.1 ∙ opens_of-pop r.depth r.stack m.2)
  close_handler (o ∷ []) c escape f r w b m =
      let last = Good-done skip room d before queue f (record r { depth = r.depth - 1 }) w b in
      let none_left = one_open r.depth o r.stack m.1 m.2 in
      ground (
        arith,
        b,
        m,
        opens_of-pop r.depth r.stack m.2,
        none_left,
        last,
        Good-bad skip room d before queue f r w b,
      )
  close_handler (o ∷ p ∷ opens) c escape f r w b m =
      let left = two_open r.depth o p opens r.stack m.1 m.2 in
      ground (
        arith,
        b,
        m,
        opens_of-pop r.depth r.stack m.2,
        left,
        Good-bad skip room d before queue f r w b,
      )

  -- Inside a string of the container.
  string_handler :
      (opens : List ℕ) (c : ℕ) (escape : Bool) (f : Frame) (r : JsonReader W) (w : W)
      → BaseAt f r w
      → Matches (inside opens true escape) r
      → GoodAt (in_string_step c opens escape f) (inside_string room c r, w)
  unfolding inside_string
  string_handler opens c escape f r w b m = ground (arith, b, m)

  -- A byte of the container, once it is stored.
  stored_handler :
      (opens : List ℕ) (q escape : Bool) (c : ℕ) (f : Frame) (r r' : JsonReader W) (w : W)
      → append room c r ≡ (true, r')
      → BaseAt f r' w
      → Matches (inside opens q escape) r'
      → r'.depth < r'.size
      → GoodAt (inside_step c opens q escape f) (consume_container room c r w)
  unfolding consume_container
  stored_handler opens true escape c f r r' w e b m h =
      ground (arith, e, m, string_handler opens c escape f r' w b m)
  stored_handler opens false escape c f r r' w e b m h = ground (
    arith,
    e,
    m,
    b,
    push_handler opens c escape f r' w b m (omega (arith, h, b.4)) h,
    close_handler opens c escape f r' w b m,
  )

  pub container_handler :
      (opens : List ℕ) (q escape : Bool) (c : ℕ) (f : Frame) (r : JsonReader W) (w : W)
      → BaseAt f r w
      → Matches (inside opens q escape) r
      → GoodAt (keep room c f (inside_step c opens q escape)) (consume_container room c r w)
  unfolding consume_container
  container_handler opens q escape c f r w b m = elim (Bool-cases (leb room r.size)) [
    | inl full ↦
        let (e, k) =
          append-full skip room d before queue f r w c (inside_step c opens q escape) b full in
        rw k (ground (arith, e, Good-lost skip room d before queue f r w b))
    | inr fits ↦
        let (e, k, b') =
          append-room skip room d before queue f r w c (inside_step c opens q escape) b fits in
        let r' = record r { buffer = set r.buffer r.size c; size = r.size + 1 } in
        rw k (
          stored_handler opens q escape c (record f { text = f.text ++ c ∷ [] }) r r' w e b'
            (m.0, m.1, m.2, omega (arith, m.3), m.4, m.5) (omega (arith, m.3)))
  ]
