-- ===== src/Reader/Json/Steps.antt =====
-- `consume` makes the machine's step in every state.
use pypilot_event_loop.Prelude.{
  ℕ, suc, ◌≡◌, refl, sym, subst, ap₂, ◌∙◌, inl, inr, Bool, true, false, ◌&&◌, ◌||◌, some, List, [],
  ◌∷◌, arith, leb, ◌==◌, if◌then◌else◌, length, length-set, Bool-cases,
}
use pypilot_event_loop.Stream.{ByteStream}
use pypilot_event_loop.Stream.Device.{Device}
use pypilot_event_loop.Reader.Json.Bytes.{is_ws, is_digit, is_number_byte, valid_number}
use pypilot_event_loop.Reader.Json.Defs.{
  State, JsonReader, fail, append, push_container, emit_json, open_container, open_value,
  start_literal, consume_idle, consume_number_value, consume_within,
}
use pypilot_event_loop.Reader.Json.Spec.{
  Mode, Frame, between, inside, quoted, numeral, word, step_in, idle_step, numeral_step, word_step,
  keep, done, bad, go,
}
use pypilot_event_loop.Reader.Json.Refine.{
  opens_of-push, opens_of-push, Letters, Matches, Base, Good, size-length, Good-bad, Good-lost,
  Good-done, append-full, append-room,
}
use pypilot_event_loop.Reader.Json.Defs.{true_text, false_text, null_text}
use pypilot_event_loop.Reader.Json.NumberText.{valid_number-take}
use pypilot_event_loop.Reader.Json.Handlers.{quoted_handler, word_handler}
use pypilot_event_loop.Reader.Json.Containers.{container_handler}

module _ {W : Type 0} (skip : Bool) (room : ℕ) {stream : ByteStream W} {call : List ℕ → W → W}
    (d : Device stream call) (before : List (List ℕ)) (queue : List ℕ) where
  abbrev pub GoodAt : Frame → JsonReader W × W → Type 0
  GoodAt f rw = Good skip room d before queue f rw

  abbrev pub BaseAt : Frame → JsonReader W → W → Type 0
  BaseAt f r w = Base skip room d before queue f r w

  string_opens :
      (c : ℕ) (f : Frame) (r : JsonReader W) (w : W)
      → BaseAt f r w
      → Matches between r
      → GoodAt (keep room c f (go (quoted false))) (open_value room State.string_value false c r w)
  unfolding open_value
  string_opens c f r w b m = elim (Bool-cases (leb room r.size)) [
    | inl full ↦
        let (e, k) = append-full skip room d before queue f r w c (go (quoted false)) b full in
        rw k (ground (arith, e, Good-lost skip room d before queue f r w b))
    | inr fits ↦
        let (e, k, b') = append-room skip room d before queue f r w c (go (quoted false)) b fits in
        rw k (ground (arith, e, b', m))
  ]

  number_opens :
      (c : ℕ) (f : Frame) (r : JsonReader W) (w : W)
      → BaseAt f r w
      → Matches between r
      → GoodAt (keep room c f (go numeral)) (open_value room State.number_value r.escape c r w)
  unfolding open_value
  number_opens c f r w b m = elim (Bool-cases (leb room r.size)) [
    | inl full ↦
        let (e, k) = append-full skip room d before queue f r w c (go numeral) b full in
        rw k (ground (arith, e, Good-lost skip room d before queue f r w b))
    | inr fits ↦
        let (e, k, b') = append-room skip room d before queue f r w c (go numeral) b fits in
        rw k (ground (arith, e, b', m))
  ]

  container_opens :
      (c : ℕ) (f : Frame) (r : JsonReader W) (w : W)
      → BaseAt f r w
      → Matches between r
      → GoodAt (keep room c f (go (inside (c ∷ []) false false))) (open_container room c r w)
  unfolding open_container push_container
  container_opens c f r w b m = elim (Bool-cases (leb room r.size)) [
    | inl full ↦
        let (e, k) =
          append-full skip room d before queue f r w c (go (inside (c ∷ []) false false)) b full in
        rw k (ground (arith, e, Good-lost skip room d before queue f r w b))
    | inr fits ↦
        let (e, k, b') =
          append-room skip room d before queue f r w c (go (inside (c ∷ []) false false)) b fits in
        rw k
          (ground (arith, e, b', m, length-set r.stack r.depth c, opens_of-push r.depth c r.stack))
  ]

  literal_opens :
      (text : List ℕ) (c : ℕ) (f : Frame) (r : JsonReader W) (w : W)
      → Letters text
      → BaseAt f r w
      → Matches between r
      → GoodAt (word_step room c text f) (start_literal room text c r w)
  unfolding start_literal
  literal_opens text c f r w l b m =
      word_handler skip room d before queue c text f
        (record r { literal = some text; literal_pos = 0; state = State.literal_value }) w b
        (refl, m.2, l, (text, refl, refl))

  -- A test on which the code and the machine both branch.
  record Sim (f : Frame) (x : JsonReader W × W) : Type 0 where
    good : GoodAt f x

  choose :
      (t : Bool) {f g : Frame} {x y : JsonReader W × W}
      → Sim f x
      → Sim g y
      → Sim (if t then f else g) (if t then x else y)
  choose true p q = p
  choose false p q = q

  idle_handler :
      (c : ℕ) (f : Frame) (r : JsonReader W) (w : W)
      → BaseAt f r w
      → Matches between r
      → GoodAt (idle_step skip room c f) (consume_idle room c r w)
  unfolding idle_step consume_idle
  idle_handler c f r w b m =
      let t : Sim (idle_step r.skip_leading_whitespace room c f) (consume_idle room c r w) =
        choose (r.skip_leading_whitespace && is_ws c) (record { good = (b, m) })
          (choose (c == b'{' || c == b'[') (record { good = container_opens c f r w b m })
            (choose (c == b'"') (record { good = string_opens c f r w b m })
              (choose (c == b'-' || is_digit c) (record { good = number_opens c f r w b m })
                (choose (c == b't')
                  (record { good = literal_opens true_text c f r w (omega arith) b m })
                  (choose (c == b'f')
                    (record { good = literal_opens false_text c f r w (omega arith) b m })
                    (choose (c == b'n')
                      (record { good = literal_opens null_text c f r w (omega arith) b m })
                      (record { good = Good-bad skip room d before queue f r w b }))))))) in
      (subst (λ s. Sim (idle_step s room c f) (consume_idle room c r w)) b.0 t).good

  -- A byte of the number.
  number_goes_on :
      (c : ℕ) (f : Frame) (r : JsonReader W) (w : W)
      → BaseAt f r w
      → Matches numeral r
      → GoodAt (keep room c f (go numeral)) ((append room c r).1, w)
  number_goes_on c f r w b m = elim (Bool-cases (leb room r.size)) [
    | inl full ↦
        let (e, k) = append-full skip room d before queue f r w c (go numeral) b full in
        rw (k, e) (Good-lost skip room d before queue f r w b)
    | inr fits ↦
        let (e, k, b') = append-room skip room d before queue f r w c (go numeral) b fits in
        rw (k, e) (b', m)
  ]

  -- The byte behind the number: it is handled in the idle state.
  idle_again :
      (nesting c : ℕ) (f : Frame) (x : JsonReader W × W)
      → f.mode ≡ between
      → GoodAt f x
      → GoodAt (idle_step skip room c f) (consume_within room (suc nesting) c x.0 x.1)
  unfolding consume_within
  idle_again nesting c f (r, w) e g =
      let m : Matches between r = subst (λ mode. Matches mode r) e g.1 in
      ground (arith, m, idle_handler c f r w g.0 m)

  abbrev number_frame : Frame → Frame
  number_frame f = if valid_number f.text (length f.text) then done f else bad f

  abbrev number_result : JsonReader W → W → JsonReader W × W
  number_result r w = if valid_number r.buffer r.size then emit_json r w else (fail r, w)

  number_frame-mode : (f : Frame) → (number_frame f).mode ≡ between
  number_frame-mode f = ground arith

  -- The end of a number: the text is checked in the array as in the list.
  number_ends :
      (f : Frame) (r : JsonReader W) (w : W)
      → BaseAt f r w
      → GoodAt (number_frame f) (number_result r w)
  number_ends f r w b =
      let same : valid_number f.text (length f.text) ≡ valid_number r.buffer r.size =
        ap₂ valid_number (sym b.5) (size-length skip room d before queue f r w b)
        ∙ valid_number-take r.size r.buffer in
      let t : Sim (number_frame f) (number_result r w) = rw same (
        choose (valid_number r.buffer r.size)
          (record { good = Good-done skip room d before queue f r w b })
          (record { good = Good-bad skip room d before queue f r w b })) in
      t.good

  numeral_handler :
      (nesting c : ℕ) (f : Frame) (r : JsonReader W) (w : W)
      → BaseAt f r w
      → Matches numeral r
      → GoodAt
          (numeral_step skip room c f)
          (consume_number_value room (consume_within room (suc nesting)) c r w)
  unfolding numeral_step consume_number_value
  numeral_handler nesting c f r w b m =
      let t : Sim (numeral_step skip room c f)
          (consume_number_value room (consume_within room (suc nesting)) c r w) =
        choose (is_number_byte c) (record { good = number_goes_on c f r w b m })
          (record {
            good =
                idle_again nesting c (number_frame f) (number_result r w) (number_frame-mode f)
                  (number_ends f r w b);
          }) in
      t.good

  -- `consume` with one nested call to spare.
  pub step_handler :
      (mode : Mode) (nesting c : ℕ) (f : Frame) (r : JsonReader W) (w : W)
      → BaseAt f r w
      → Matches mode r
      → GoodAt (step_in mode skip room c f) (consume_within room (suc (suc nesting)) c r w)
  unfolding step_in consume_within
  step_handler between nesting c f r w b m = ground (arith, m, idle_handler c f r w b m)
  step_handler (inside opens q e) nesting c f r w b m =
      ground (arith, m, container_handler skip room d before queue opens q e c f r w b m)
  step_handler (quoted e) nesting c f r w b m =
      ground (arith, m, quoted_handler skip room d before queue e c f r w b m)
  step_handler numeral nesting c f r w b m = ground (arith, m, numeral_handler nesting c f r w b m)
  step_handler (word rest) nesting c f r w b m =
      ground (arith, m, word_handler skip room d before queue c rest f r w b m)
