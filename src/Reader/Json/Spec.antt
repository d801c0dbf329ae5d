-- ===== src/Reader/Json/Spec.antt =====
-- JSON framing as a machine on lists, for a buffer of `room` bytes.
use pypilot_event_loop.Prelude.{
  ℕ, ◌+◌, Bool, true, false, not, ◌&&◌, ◌||◌, List, [], ◌∷◌, ◌++◌, leb, ◌==◌, if◌then◌else◌, length,
}
use pypilot_event_loop.Reader.Json.Bytes.{is_ws, is_digit, is_number_byte, valid_number}
use pypilot_event_loop.Reader.Json.Defs.{true_text, false_text, null_text}

-- Between two messages; inside a container, with the open brackets, innermost first, and whether
-- the bytes stand in a string and behind a backslash; in a string; in a number; in a literal of
-- which `rest` is to come.
pub data Mode : Type 0 where
  between : Mode
  inside : List ℕ → Bool → Bool → Mode
  quoted : Bool → Mode
  numeral : Mode
  word : List ℕ → Mode

-- `text` is the message so far, `out` the messages before it.
pub record Frame : Type 0 where
  pub out : List (List ℕ)
  pub sent : ℕ
  pub text : List ℕ
  pub mode : Mode
  pub errors : ℕ
  pub overflows : ℕ

abbrev pub matches : ℕ → ℕ → Bool
matches opened c = not (opened == b'{' && not (c == b'}') || (opened == b'[' && not (c == b']')))

abbrev pub done : Frame → Frame
done f = record f { out = f.out ++ f.text ∷ []; sent = f.sent + 1; text = []; mode = between }

abbrev pub bad : Frame → Frame
bad f = record f { errors = f.errors + 1; text = []; mode = between }

abbrev pub lost : Frame → Frame
lost f = record f { overflows = f.overflows + 1; text = []; mode = between }

-- Room for one more byte?
abbrev pub keep : ℕ → ℕ → Frame → (Frame → Frame) → Frame
keep room c f next =
    if leb room (length f.text) then lost f else next (record f { text = f.text ++ c ∷ [] })

abbrev pub go : Mode → Frame → Frame
go m f = record f { mode = m }

abbrev pub in_string_step : ℕ → List ℕ → Bool → Frame → Frame
in_string_step c opens escape f =
    if escape
    then go (inside opens true false) f
    else if c == b'\\'
    then go (inside opens true true) f
    else if c == b'"'
    then go (inside opens false escape) f
    else go (inside opens true escape) f

abbrev pub close_step : ℕ → List ℕ → Bool → Frame → Frame
close_step c [] escape f = bad f
close_step c (o ∷ []) escape f = if matches o c then done f else bad f
close_step c (o ∷ p ∷ opens) escape f =
    if matches o c then go (inside (p ∷ opens) false escape) f else bad f

abbrev pub inside_step : ℕ → List ℕ → Bool → Bool → Frame → Frame
inside_step c opens true escape f = in_string_step c opens escape f
inside_step c opens false escape f =
    if c == b'"'
    then go (inside opens true escape) f
    else if c == b'{' || c == b'['
    then go (inside (c ∷ opens) false escape) f
    else if c == b'}' || c == b']'
    then close_step c opens escape f
    else go (inside opens false escape) f

abbrev pub quoted_step : ℕ → Bool → Frame → Frame
quoted_step c escape f =
    if escape
    then go (quoted false) f
    else if c == b'\\'
    then go (quoted true) f
    else if c == b'"'
    then done f
    else go (quoted escape) f

abbrev pub word_rest : List ℕ → Frame → Frame
word_rest [] f = done f
word_rest (x ∷ xs) f = go (word (x ∷ xs)) f

abbrev pub word_step : ℕ → ℕ → List ℕ → Frame → Frame
word_step room c [] f = bad f
word_step room c (x ∷ xs) f = if x == c then keep room c f (word_rest xs) else bad f

unfoldable pub idle_step : Bool → ℕ → ℕ → Frame → Frame
idle_step skip room c f =
    if skip && is_ws c
    then go between f
    else if c == b'{' || c == b'['
    then keep room c f (go (inside (c ∷ []) false false))
    else if c == b'"'
    then keep room c f (go (quoted false))
    else if c == b'-' || is_digit c
    then keep room c f (go numeral)
    else if c == b't'
    then word_step room c true_text f
    else if c == b'f'
    then word_step room c false_text f
    else if c == b'n'
    then word_step room c null_text f
    else bad f

unfoldable pub numeral_step : Bool → ℕ → ℕ → Frame → Frame
numeral_step skip room c f =
    if is_number_byte c
    then keep room c f (go numeral)
    else idle_step skip room c (if valid_number f.text (length f.text) then done f else bad f)

unfoldable pub step_in : Mode → Bool → ℕ → ℕ → Frame → Frame
step_in between skip room c f = idle_step skip room c f
step_in (inside opens q escape) skip room c f = keep room c f (inside_step c opens q escape)
step_in (quoted escape) skip room c f = keep room c f (quoted_step c escape)
step_in numeral skip room c f = numeral_step skip room c f
step_in (word rest) skip room c f = word_step room c rest f

abbrev pub step : Bool → ℕ → Frame → ℕ → Frame
step skip room f c = step_in f.mode skip room c f
