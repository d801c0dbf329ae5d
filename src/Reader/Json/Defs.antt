-- ===== src/Reader/Json/Defs.antt =====
-- JsonProtocolReader: the state and the handlers.
use pypilot_event_loop.Prelude.{
  ℕ, zero, suc, ◌+◌, ◌-◌, Bool, true, false, not, ◌&&◌, ◌||◌, Option, none, some, List, [], ◌∷◌,
  leb, ◌==◌, if◌then◌else◌, take, set, get_or, replicate,
}
use pypilot_event_loop.Stream.{ByteStream, poll_loop}
use pypilot_event_loop.Reader.{
  ProtocolReaderStats, no_stats, count_message, count_byte, count_overflow, count_error, Callback,
  invoke,
}
use pypilot_event_loop.Reader.Json.Bytes.{is_ws, is_digit, is_number_byte, valid_number}

pub data State : Type 0 where
  idle container string_value number_value literal_value : State

-- `buffer` and `stack` are the whole arrays; `literal` is the pointer `literal_`, `none` if null.
pub record JsonReader (W : Type 0) : Type 0 where
  pub skip_leading_whitespace : Bool
  pub buffer : List ℕ
  pub stack : List ℕ
  pub size : ℕ
  pub depth : ℕ
  pub in_string : Bool
  pub escape : Bool
  pub literal : Option (List ℕ)
  pub literal_pos : ℕ
  pub state : State
  pub stats : ProtocolReaderStats
  pub callback : Callback W

-- `literal_[i]`: 0 is the terminating nul.
abbrev pub char_of : List ℕ → ℕ → ℕ
char_of literal i = get_or literal i 0

abbrev pub true_text : List ℕ
true_text = b't' ∷ b'r' ∷ b'u' ∷ b'e' ∷ []

abbrev pub false_text : List ℕ
false_text = b'f' ∷ b'a' ∷ b'l' ∷ b's' ∷ b'e' ∷ []

abbrev pub null_text : List ℕ
null_text = b'n' ∷ b'u' ∷ b'l' ∷ b'l' ∷ []

module _ {W : Type 0} where
  unfoldable pub new : ℕ → Bool → Callback W → JsonReader W
  new buffer_size skip callback = record {
    skip_leading_whitespace = skip;
    buffer = replicate buffer_size 0;
    stack = replicate buffer_size 0;
    size = 0;
    depth = 0;
    in_string = false;
    escape = false;
    literal = none;
    literal_pos = 0;
    state = idle;
    stats = no_stats;
    callback = callback;
  }

  abbrev pub reset : JsonReader W → JsonReader W
  reset r = record r {
    state = idle;
    size = 0;
    depth = 0;
    in_string = false;
    escape = false;
    literal = none;
    literal_pos = 0;
  }

  -- `++stats_.protocol_errors; reset();`
  abbrev pub fail : JsonReader W → JsonReader W
  fail r = reset (record r { stats = count_error r.stats })

  -- `++stats_.overflows; reset();`
  abbrev pub overflow : JsonReader W → JsonReader W
  overflow r = reset (record r { stats = count_overflow r.stats })

  unfoldable pub emit_json : JsonReader W → W → JsonReader W × W
  emit_json r w = (
    reset (record r { stats = count_message r.stats }),
    invoke r.callback (take r.size r.buffer) w,
  )

  unfoldable pub pop_container : ℕ → JsonReader W → Bool × JsonReader W
  pop_container c r =
      if r.depth == 0
      then (false, fail r)
      else let opened = get_or r.stack (r.depth - 1) 0 in
        if opened == b'{' && not (c == b'}') || (opened == b'[' && not (c == b']'))
        then (false, fail r)
        else (true, record r { depth = r.depth - 1 })

  module _ (buffer_size : ℕ) where
    unfoldable pub append : ℕ → JsonReader W → Bool × JsonReader W
    append c r =
        if leb buffer_size r.size
        then (false, overflow r)
        else (true, record r { buffer = set r.buffer r.size c; size = r.size + 1 })

    unfoldable pub push_container : ℕ → JsonReader W → Bool × JsonReader W
    push_container c r =
        if leb buffer_size r.depth
        then (false, overflow r)
        else (true, record r { stack = set r.stack r.depth c; depth = r.depth + 1 })

    unfoldable pub consume_literal_value : ℕ → JsonReader W → W → JsonReader W × W
    consume_literal_value c r w = elim r.literal [
      | none ↦ (fail r, w)
      | some text ↦
          if char_of text r.literal_pos == 0 || not (char_of text r.literal_pos == c)
          then (fail r, w)
          else let (fits, r') = append c r in
            if fits
            then (let r'' = record r' { literal_pos = r'.literal_pos + 1 } in
                if char_of text r''.literal_pos == 0 then emit_json r'' w else (r'', w))
            else (r', w)
    ]

    unfoldable pub start_literal : List ℕ → ℕ → JsonReader W → W → JsonReader W × W
    start_literal literal first r w =
        consume_literal_value first
          (record r { literal = some literal; literal_pos = 0; state = literal_value }) w

    unfoldable pub open_container : ℕ → JsonReader W → W → JsonReader W × W
    open_container c r w =
        let (fits, r') = append c r in
        if fits
        then (let (pushed, r'') = push_container c r' in
            if pushed
            then (record r'' { state = container; in_string = false; escape = false }, w)
            else (r'', w))
        else (r', w)

    -- The branches of `consume_idle` that keep one byte and change the state.
    unfoldable pub open_value : State → Bool → ℕ → JsonReader W → W → JsonReader W × W
    open_value state escape c r w =
        let (fits, r') = append c r in
        if fits then (record r' { state = state; escape = escape }, w) else (r', w)

    unfoldable pub consume_idle : ℕ → JsonReader W → W → JsonReader W × W
    consume_idle c r w =
        if r.skip_leading_whitespace && is_ws c
        then (r, w)
        else if c == b'{' || c == b'['
        then open_container c r w
        else if c == b'"'
        then open_value string_value false c r w
        else if c == b'-' || is_digit c
        then open_value number_value r.escape c r w
        else if c == b't'
        then start_literal true_text c r w
        else if c == b'f'
        then start_literal false_text c r w
        else if c == b'n'
        then start_literal null_text c r w
        else (fail r, w)

    -- `consume_container` while `in_string_`.
    unfoldable pub inside_string : ℕ → JsonReader W → JsonReader W
    inside_string c r =
        if r.escape
        then record r { escape = false }
        else if c == b'\\'
        then record r { escape = true }
        else if c == b'"'
        then record r { in_string = false }
        else r

    unfoldable pub close_container : ℕ → JsonReader W → W → JsonReader W × W
    close_container c r w =
        let (popped, r') = pop_container c r in
        if popped && (r'.depth == 0) then emit_json r' w else (r', w)

    unfoldable pub consume_container : ℕ → JsonReader W → W → JsonReader W × W
    unfolding inside_string
    consume_container c r w =
        let (fits, r') = append c r in
        if not fits
        then (r', w)
        else if r'.in_string
        then (inside_string c r', w)
        else if c == b'"'
        then (record r' { in_string = true }, w)
        else if c == b'{' || c == b'['
        then ((push_container c r').1, w)
        else if c == b'}' || c == b']'
        then close_container c r' w
        else (r', w)

    unfoldable pub consume_string_value : ℕ → JsonReader W → W → JsonReader W × W
    consume_string_value c r w =
        let (fits, r') = append c r in
        if not fits
        then (r', w)
        else if r'.escape
        then (record r' { escape = false }, w)
        else if c == b'\\'
        then (record r' { escape = true }, w)
        else if c == b'"'
        then emit_json r' w
        else (r', w)

    -- `again` is the call of `consume` at the end.
    unfoldable pub consume_number_value :
        (ℕ → JsonReader W → W → JsonReader W × W) → ℕ → JsonReader W → W → JsonReader W × W
    consume_number_value again c r w =
        if is_number_byte c
        then ((append c r).1, w)
        else let (r', w') = if valid_number r.buffer r.size then emit_json r w else (fail r, w) in
          again c r' w'

    -- `consume`; `nesting` bounds the calls of itself, of which there is at most one.
    unfoldable pub consume_within : ℕ → ℕ → JsonReader W → W → JsonReader W × W
    consume_within zero c r w = (r, w)
    consume_within (suc nesting) c r w = elim r.state [
      | idle ↦ consume_idle c r w
      | container ↦ consume_container c r w
      | string_value ↦ consume_string_value c r w
      | number_value ↦ consume_number_value (consume_within nesting) c r w
      | literal_value ↦ consume_literal_value c r w
    ]

    abbrev pub consume : ℕ → JsonReader W → W → JsonReader W × W
    consume = consume_within 2

    -- One round of the loop of `poll` behind the read.
    unfoldable pub take_byte : ℕ → JsonReader W → W → JsonReader W × W
    take_byte b r w = consume b (record r { stats = count_byte r.stats }) w

    unfoldable pub poll : ByteStream W → ℕ → JsonReader W → W → Option (JsonReader W × W)
    poll stream fuel r w = poll_loop stream take_byte fuel r w
