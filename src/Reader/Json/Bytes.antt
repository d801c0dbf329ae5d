-- ===== src/Reader/Json/Bytes.antt =====
-- The byte classes of JsonProtocolReader, and its check of a number's text.
use pypilot_event_loop.Prelude.{
  ℕ, zero, suc, ◌+◌, Bool, false, not, ◌&&◌, ◌||◌, Option, none, some, List, ltb, leb, ◌==◌,
  if◌then◌else◌, get_or,
}

unfoldable pub is_ws : ℕ → Bool
is_ws c = c == b' ' || (c == b'\t' || (c == b'\r' || c == b'\n'))

unfoldable pub is_digit : ℕ → Bool
is_digit c = leb b'0' c && leb c b'9'

unfoldable pub is_nonzero_digit : ℕ → Bool
is_nonzero_digit c = leb b'1' c && leb c b'9'

unfoldable pub is_number_byte : ℕ → Bool
is_number_byte c =
    is_digit c || (c == b'-' || (c == b'+' || (c == b'.' || (c == b'e' || c == b'E'))))

-- `while (i < len && is_digit(text[i])) { ++i; }` from `i`; `len` rounds suffice.
unfoldable pub skip_digits : ℕ → List ℕ → ℕ → ℕ → ℕ
skip_digits zero text len i = i
skip_digits (suc fuel) text len i =
    let rest = skip_digits fuel text len (i + 1) in
    if ltb i len && is_digit (get_or text i 0) then rest else i

-- The parts of `valid_number`: where the next part begins, or `none` for `return false`.
unfoldable pub sign_part : List ℕ → ℕ → Option ℕ
sign_part text len = if get_or text 0 0 == b'-' then (if len == 1 then none else some 1) else some 0

unfoldable pub integer_part : List ℕ → ℕ → ℕ → Option ℕ
integer_part text len i =
    if get_or text i 0 == b'0'
    then some (i + 1)
    else if is_nonzero_digit (get_or text i 0)
    then some (skip_digits len text len i)
    else none

-- `if (i == len || !is_digit(text[i])) return false;` and the loop behind it.
unfoldable pub digits_from : List ℕ → ℕ → ℕ → Option ℕ
digits_from text len i =
    if i == len || not (is_digit (get_or text i 0)) then none else some (skip_digits len text len i)

unfoldable pub fraction_part : List ℕ → ℕ → ℕ → Option ℕ
fraction_part text len i =
    if ltb i len && (get_or text i 0 == b'.') then digits_from text len (i + 1) else some i

unfoldable pub exponent_part : List ℕ → ℕ → ℕ → Option ℕ
exponent_part text len i =
    if ltb i len && (get_or text i 0 == b'e' || get_or text i 0 == b'E')
    then digits_from text len (
        if ltb (i + 1) len && (get_or text (i + 1) 0 == b'+' || get_or text (i + 1) 0 == b'-')
        then i + 2
        else i + 1)
    else some i

infixl 5 ◌>>=◌
abbrev pub ◌>>=◌ : {A B : Type 0} → Option A → (A → Option B) → Option B
none >>= f = none
some a >>= f = f a

unfoldable pub number_end : List ℕ → ℕ → Option ℕ
number_end text len = do
  i ← sign_part text len
  j ← integer_part text len i
  k ← fraction_part text len j
  exponent_part text len k

abbrev pub ends_at : ℕ → Option ℕ → Bool
ends_at len none = false
ends_at len (some i) = i == len

-- `valid_number` of a text that is not null.
unfoldable pub valid_number : List ℕ → ℕ → Bool
valid_number text len = if len == 0 then false else ends_at len (number_end text len)
