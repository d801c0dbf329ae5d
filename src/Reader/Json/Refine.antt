-- ===== src/Reader/Json/Refine.antt =====
-- The arrays and flags of the JSON reader refine the machine of Spec.
use pypilot_event_loop.Prelude.{
  ℕ, zero, suc, ◌+◌, ◌-◌, ◌%◌, ◌^◌, ◌≤◌, ◌<◌, ◌≡◌, refl, ap, ap₂, Bool, true, false, some, List, [],
  ◌∷◌, ◌++◌, append_assoc, arith, leb, length, length-set, length-take, take, take-set, drop, set,
  get_or, get_or-set_self, get_or-set_ne, leb→gt,
}
use pypilot_event_loop.Stream.{ByteStream}
use pypilot_event_loop.Stream.Device.{Device}
use pypilot_event_loop.Reader.Json.Defs.{State, JsonReader, fail, overflow, append, emit_json}
use pypilot_event_loop.Reader.Json.Spec.{
  Mode, Frame, between, inside, quoted, numeral, word, keep, done, bad, lost,
}

-- The open brackets, innermost first.
abbrev pub opens_of : ℕ → List ℕ → List ℕ
opens_of zero stack = []
opens_of (suc d) stack = get_or stack d 0 ∷ opens_of d stack

pub opens_of-set :
    (d i v : ℕ) (stack : List ℕ) → d ≤ i → opens_of d (set stack i v) ≡ opens_of d stack
opens_of-set zero i v stack h = refl
opens_of-set (suc d) i v stack h =
    ap₂ ◌∷◌ (get_or-set_ne stack i d v 0 (λ e. omega arith))
      (opens_of-set d i v stack (omega arith))

pub opens_of-push :
    (d c : ℕ) (stack : List ℕ)
    → d < length stack
    → opens_of (d + 1) (set stack d c) ≡ c ∷ opens_of d stack
opens_of-push d c stack h =
    let e : d + 1 ≡ suc d = omega arith in
    rw e (ap₂ ◌∷◌ (get_or-set_self stack d c 0 h) (opens_of-set d d c stack (omega arith)))

pub opens_of-pop :
    (d : ℕ) (stack : List ℕ)
    → 0 < d
    → opens_of d stack ≡ get_or stack (d - 1) 0 ∷ opens_of (d - 1) stack
opens_of-pop zero stack h = elim h [ ]
opens_of-pop (suc d) stack h = let e : suc d - 1 ≡ d = omega arith in rw e

-- No byte is the nul that ends a literal.
abbrev pub Letters : List ℕ → Type 0
Letters [] = Unit {0}
Letters (x ∷ xs) = (0 < x) × Letters xs

module _ {W : Type 0} where
  -- How the state of the reader shows the mode of the machine.
  abbrev pub Matches : Mode → JsonReader W → Type 0
  Matches between r = (r.state ≡ State.idle) × (r.size ≡ 0) × (r.depth ≡ 0)
  Matches (inside opens q e) r =
      (r.state ≡ State.container)
      × (opens_of r.depth r.stack ≡ opens)
      × (0 < r.depth)
      × (r.depth ≤ r.size)
      × (r.in_string ≡ q)
      × (r.escape ≡ e)
  Matches (quoted e) r = (r.state ≡ State.string_value) × (r.depth ≡ 0) × (r.escape ≡ e)
  Matches numeral r = (r.state ≡ State.number_value) × (r.depth ≡ 0)
  Matches (word rest) r =
      (r.state ≡ State.literal_value)
      × (r.depth ≡ 0)
      × Letters rest
      × ((text : List ℕ) × (r.literal ≡ some text) × (drop r.literal_pos text ≡ rest))

module _ {W : Type 0} (skip : Bool) (room : ℕ) {stream : ByteStream W} {call : List ℕ → W → W}
    (d : Device stream call) (before : List (List ℕ)) (queue : List ℕ) where
  -- All but the mode: the text in the array, the counters, the messages recorded.
  abbrev pub Base : Frame → JsonReader W → W → Type 0
  Base f r w =
      (r.skip_leading_whitespace ≡ skip)
      × (r.callback ≡ some call)
      × (length r.buffer ≡ room)
      × (length r.stack ≡ room)
      × (r.size ≤ room)
      × (take r.size r.buffer ≡ f.text)
      × (r.stats.messages ≡ f.sent % 2 ^ 32)
      × (r.stats.protocol_errors ≡ f.errors % 2 ^ 32)
      × (r.stats.overflows ≡ f.overflows % 2 ^ 32)
      × d.Ok w
      × (d.queue w ≡ queue)
      × (d.log w ≡ before ++ f.out)

  abbrev pub Good : Frame → JsonReader W × W → Type 0
  Good f (r, w) = Base f r w × Matches f.mode r

  pub size-length : (f : Frame) (r : JsonReader W) (w : W) → Base f r w → length f.text ≡ r.size
  size-length f r w b = omega (arith, ap length b.5, length-take r.size r.buffer, b.2, b.4)

  pub Base-append :
      (f : Frame) (r : JsonReader W) (w : W) (c : ℕ)
      → Base f r w
      → r.size < room
      → Base
          (record f { text = f.text ++ c ∷ [] })
          (record r { buffer = set r.buffer r.size c; size = r.size + 1 })
          w
  Base-append f r w c b h =
      ground (arith, b, length-set r.buffer r.size c, take-set r.buffer r.size c)

  pub Good-bad : (f : Frame) (r : JsonReader W) (w : W) → Base f r w → Good (bad f) (fail r, w)
  Good-bad f r w b = ground (arith, b)

  pub Good-lost :
      (f : Frame) (r : JsonReader W) (w : W) → Base f r w → Good (lost f) (overflow r, w)
  Good-lost f r w b = ground (arith, b)

  pub Good-done :
      (f : Frame) (r : JsonReader W) (w : W) → Base f r w → Good (done f) (emit_json r w)
  unfolding emit_json
  Good-done f r w b =
      let (o, q, l) = d.call w f.text b.9 in
      ground (arith, b, o, q, l, append_assoc before f.out (f.text ∷ []))

  -- `append` on a full buffer, and on one with room.
  pub append-full :
      (f : Frame) (r : JsonReader W) (w : W) (c : ℕ) (next : Frame → Frame)
      → Base f r w
      → leb room r.size ≡ true
      → (append room c r ≡ (false, overflow r)) × (keep room c f next ≡ lost f)
  unfolding append
  append-full f r w c next b e = ground (arith, e, size-length f r w b)

  pub append-room :
      (f : Frame) (r : JsonReader W) (w : W) (c : ℕ) (next : Frame → Frame)
      → Base f r w
      → leb room r.size ≡ false
      → let r' = record r { buffer = set r.buffer r.size c; size = r.size + 1 } in
        let f' = record f { text = f.text ++ c ∷ [] } in
        (append room c r ≡ (true, r')) × (keep room c f next ≡ next f') × Base f' r' w
  unfolding append
  append-room f r w c next b e =
      let k = size-length f r w b in (rw e, rw (k, e), Base-append f r w c b (leb→gt room r.size e))
