-- ===== src/Reader/Line/Spec.antt =====
-- The line protocol as a machine on lists: a candidate line, and the messages cut so far.
use pypilot_event_loop.Prelude.{
  ℕ, ◌+◌, ◌-◌, ◌≤◌, ◌≡◌, ◌≢◌, sym, ap, ◌∙◌, ◌⊎◌, inl, inr, false, List, [], ◌∷◌, ◌++◌, arith, leb,
  leb→le, leb→gt, ◌==◌, if◌then◌else◌, take, length, length-append, take-nil, take-none,
  take-cons_pos, append-nil, Bool-cases, append_assoc,
}
use pypilot_event_loop.Stream.Device.{run}
use pypilot_event_loop.Reader.Framing.{cut}
use pypilot_event_loop.Reader.Line.{LineProtocolOptions}

-- The line without a trailing CR.
abbrev pub strip : List ℕ → List ℕ
strip [] = []
strip (c ∷ []) = if c == b'\r' then [] else c ∷ []
strip (c ∷ d ∷ cs) = c ∷ strip (d ∷ cs)

abbrev pub message : LineProtocolOptions → List ℕ → List ℕ
message options line = if options.strip_cr then strip line else line

module _ (buffer_size : ℕ) (options : LineProtocolOptions) where
  -- The candidate line after one more byte of it.
  abbrev pub accept : List ℕ → ℕ → List ℕ
  accept line c =
      if leb buffer_size (length line)
      then (if options.drop_overflow then [] else line)
      else line ++ c ∷ []

  -- One byte: the message that it completes, if any, and the candidate line.
  abbrev pub next : List ℕ → ℕ → List (List ℕ) × List ℕ
  next line c =
      if c == options.delimiter then (message options line ∷ [], []) else ([], accept line c)

  -- No byte of the line is the delimiter.
  abbrev pub IsLine : List ℕ → Type 0
  IsLine [] = Unit {0}
  IsLine (c ∷ cs) = (c ≢ options.delimiter) × IsLine cs

  -- The lines are free of delimiters, and the reader's policy keeps their beginnings.
  abbrev pub AllLines : List (List ℕ) → Type 0
  AllLines [] = Unit {0}
  AllLines (l ∷ ls) =
      IsLine l × ((options.drop_overflow ≡ false) ⊎ (length l ≤ buffer_size)) × AllLines ls

  -- The bytes of the lines, each with its delimiter.
  abbrev pub unlines : List (List ℕ) → List ℕ
  unlines [] = []
  unlines (l ∷ ls) = l ++ (options.delimiter ∷ unlines ls)

  -- What the callback is to receive for the lines.
  abbrev pub messages_of : List (List ℕ) → List (List ℕ)
  messages_of [] = []
  messages_of (l ∷ ls) = message options (take buffer_size l) ∷ messages_of ls

  run-line :
      (cs rest line : List ℕ) (out : List (List ℕ))
      → IsLine cs
      → length line ≤ buffer_size
      → (options.drop_overflow ≡ false) ⊎ (length line + length cs ≤ buffer_size)
      → run (cut next) (out, line) (cs ++ rest)
        ≡ run (cut next) (out, line ++ take (buffer_size - length line) cs) rest
  run-line [] rest line out h k fits = rw (take-nil, append-nil)
  run-line (c ∷ cs) rest line out h k fits = elim (Bool-cases (leb buffer_size (length line))) [
    | inl full ↦
        let none_left : buffer_size - length line ≡ 0 = omega (arith, leb→le _ _ full) in
        let keeps : options.drop_overflow ≡ false = ground (arith, fits, full) in
        let same : cut next (out, line) c ≡ (out, line) =
          ground (arith, h.0, full, keeps, append-nil out) in
        ap (λ s. run (cut next) s (cs ++ rest)) same
        ∙ run-line cs rest line out h.1 k (inl keeps)
        ∙ ap (λ xs. run (cut next) (out, line ++ xs) rest)
            (take-none _ cs none_left ∙ sym (take-none _ (c ∷ cs) none_left))
    | inr room ↦
        let lt = leb→gt buffer_size (length line) room in
        let longer = length-append line (c ∷ []) in
        let same : cut next (out, line) c ≡ (out, line ++ c ∷ []) =
          ground (arith, h.0, room, append-nil out) in
        let less : buffer_size - length (line ++ c ∷ []) ≡ buffer_size - length line - 1 =
          omega (arith, longer) in
        let fits' : (options.drop_overflow ≡ false)
            ⊎ (length (line ++ c ∷ []) + length cs ≤ buffer_size) =
          ground (arith, fits, longer) in
        ap (λ s. run (cut next) s (cs ++ rest)) same
        ∙ run-line cs rest (line ++ c ∷ []) out h.1 (omega (arith, longer, lt)) fits'
        ∙ ap (λ xs. run (cut next) (out, xs) rest)
            (ground (
              arith,
              less,
              take-cons_pos (buffer_size - length line) c cs (omega (arith, lt)),
              append_assoc line (c ∷ []) (take (buffer_size - length line - 1) cs),
            ))
  ]

  -- Whole lines give one message each.
  pub run-unlines :
      (ls : List (List ℕ)) (out : List (List ℕ))
      → AllLines ls
      → run (cut next) (out, []) (unlines ls) ≡ (out ++ messages_of ls, [])
  run-unlines [] out h = rw append-nil
  run-unlines (l ∷ ls) out h =
      run-line l (options.delimiter ∷ unlines ls) [] out h.0 (omega arith) (ground (arith, h.1))
      ∙ ap (λ s. run (cut next) s (unlines ls)) ends
      ∙ run-unlines ls (out ++ message options (take buffer_size l) ∷ []) h.2
      ∙ ap (λ xs. (xs, []))
          (append_assoc out (message options (take buffer_size l) ∷ []) (messages_of ls))
    where
      ends :
          cut next (out, take (buffer_size - 0) l) options.delimiter
          ≡ (out ++ message options (take buffer_size l) ∷ [], [])
      ends = let e : buffer_size - 0 ≡ buffer_size = omega arith in rw e (ground arith)
