-- ===== src/Reader/Json/NumberText.antt =====
-- `valid_number` reads no byte at or beyond `len`.
use pypilot_event_loop.Prelude.{
  ℕ, zero, suc, ◌+◌, ◌≤◌, ◌<◌, ◌≡◌, refl, inl, inr, some, List, [], ◌∷◌, arith, ltb, ltb→lt, ◌==◌,
  take, get_or, Bool-cases, Option-cases,
}
use pypilot_event_loop.Reader.Json.Bytes.{
  skip_digits, sign_part, integer_part, digits_from, fraction_part, exponent_part, number_end,
  valid_number,
}

get_or-take : (n : ℕ) (xs : List ℕ) (i : ℕ) → i < n → get_or (take n xs) i 0 ≡ get_or xs i 0
get_or-take zero xs i h = elim h [ ]
get_or-take (suc n) [] i h = refl
get_or-take (suc n) (x ∷ xs) zero h = refl
get_or-take (suc n) (x ∷ xs) (suc i) h = get_or-take n xs i (omega arith)

module _ (n : ℕ) (xs : List ℕ) where
  skip_digits-take : (fuel i : ℕ) → skip_digits fuel (take n xs) n i ≡ skip_digits fuel xs n i
  unfolding skip_digits
  skip_digits-take zero i = refl
  skip_digits-take (suc fuel) i = elim (Bool-cases (ltb i n)) [
    | inl below ↦
        ground (arith, below, get_or-take n xs i (ltb→lt i n below), skip_digits-take fuel (i + 1))
    | inr above ↦ rw above
  ]

  digits_from-take : (i : ℕ) → i ≤ n → digits_from (take n xs) n i ≡ digits_from xs n i
  unfolding digits_from
  digits_from-take i h = elim (Bool-cases (i == n)) [
    | inl end ↦ rw end
    | inr more ↦
        let k : i < n = ground (arith, more) in rw (get_or-take n xs i k, skip_digits-take n i)
  ]

  sign_part-take : 0 < n → sign_part (take n xs) n ≡ sign_part xs n
  unfolding sign_part
  sign_part-take h = rw (get_or-take n xs 0 h)

  integer_part-take : (i : ℕ) → i < n → integer_part (take n xs) n i ≡ integer_part xs n i
  unfolding integer_part
  integer_part-take i h = rw (get_or-take n xs i h, skip_digits-take n i)

  fraction_part-take : (i : ℕ) → fraction_part (take n xs) n i ≡ fraction_part xs n i
  unfolding fraction_part
  fraction_part-take i = elim (Bool-cases (ltb i n)) [
    | inl below ↦
        let k = ltb→lt i n below in
        rw (get_or-take n xs i k, digits_from-take (i + 1) (omega arith))
    | inr above ↦ rw above
  ]

  exponent_part-take : (i : ℕ) → exponent_part (take n xs) n i ≡ exponent_part xs n i
  unfolding exponent_part
  exponent_part-take i = elim (Bool-cases (ltb i n)) [
    | inl below ↦ elim (Bool-cases (ltb (i + 1) n)) [
      | inl more ↦
          let k = ltb→lt i n below in
          let k' = ltb→lt (i + 1) n more in
          ground (
            arith,
            get_or-take n xs i k,
            get_or-take n xs (i + 1) k',
            digits_from-take (i + 1) (omega arith),
            digits_from-take (i + 2) (omega arith),
          )
      | inr last ↦
          let k = ltb→lt i n below in
          ground (arith, last, get_or-take n xs i k, digits_from-take (i + 1) (omega arith))
    ]
    | inr above ↦ rw above
  ]

  -- What `sign_part` returns is within the text.
  sign_part_within : (i : ℕ) → 0 < n → sign_part xs n ≡ some i → i < n
  unfolding sign_part
  sign_part_within i h e = ground arith

  number_end-take : 0 < n → number_end (take n xs) n ≡ number_end xs n
  unfolding number_end
  number_end-take h = elim (Option-cases (sign_part xs n)) [
    | inl e ↦ rw (sign_part-take h, e)
    | inr (i, e) ↦
        rw (sign_part-take h, e, integer_part-take i (sign_part_within i h e))
          (elim (Option-cases (integer_part xs n i)) [
            | inl e' ↦ rw e'
            | inr (j, e') ↦
                rw (e', fraction_part-take j)
                  (elim (Option-cases (fraction_part xs n j)) [
                    | inl e'' ↦ rw e''
                    | inr (k, e'') ↦ rw e'' (exponent_part-take k)
                  ])
          ])
  ]

  pub valid_number-take : valid_number (take n xs) n ≡ valid_number xs n
  unfolding valid_number
  valid_number-take = elim (Bool-cases (n == 0)) [
    | inl e ↦ rw e
    | inr e ↦ rw (number_end-take (ground (arith, e)))
  ]
