-- ===== src/MemoryStream/Transfer.antt =====
-- What `read` and `write` of a memory stream transfer: the stream is a byte queue.
use pypilot_event_loop.Prelude.{
  ℕ, zero, suc, ◌+◌, ◌-◌, ◌≤◌, ◌≡◌, refl, ap, ap₂, ◌∙◌, inl, inr, min, true, some, List, [], ◌∷◌,
  ◌++◌, append-nil, append_assoc, arith, length, take, drop, take-nil, take-cons_pos, take-none,
  take-all, ltb, ltb→lt, ltb→ge, Bool-cases,
}
use pypilot_event_loop.Ring.{Ring, push, available_for_write}
use pypilot_event_loop.Ring.Queue.{IsValid, contents, push_lem, pop-Pops, count-push}
use pypilot_event_loop.MemoryStream.{read, read_loop, write, write_loop}

module _ (capacity : ℕ) where
  abbrev Valid : Ring ℕ → Type 0
  Valid s = IsValid capacity 0 s

  abbrev bytes : Ring ℕ → List ℕ
  bytes s = contents capacity 0 s

  read_loop_lem :
      (left : ℕ) (s : Ring ℕ)
      → Valid s
      → ((read_loop capacity left s).0 ≡ take left (bytes s))
        × (bytes (read_loop capacity left s).1 ≡ drop left (bytes s))
        × Valid (read_loop capacity left s).1
  unfolding read_loop
  read_loop_lem zero s v = (refl, refl, v)
  read_loop_lem (suc left) s v = elim (pop-Pops capacity 0 s v) [
    | inl (empty, e) ↦ ground (arith, e, empty, v)
    | inr (b, r, e, front, w) ↦ ground (arith, e, front, read_loop_lem left r w)
  ]

  write_loop_lem :
      (src : List ℕ) (n : ℕ) (s : Ring ℕ)
      → Valid s
      → ((write_loop capacity src n s).0 ≡ n + min (length src) (capacity - s.count))
        × (bytes (write_loop capacity src n s).1 ≡ bytes s ++ take (capacity - s.count) src)
        × Valid (write_loop capacity src n s).1
  unfolding write_loop
  write_loop_lem [] n s v = (omega arith, rw (take-nil, append-nil), v)
  write_loop_lem (b ∷ bs) n s v = elim (Bool-cases (ltb s.count capacity)) [
    | inl room ↦
        let p = push_lem capacity 0 s b v in
        let r = (push capacity 0 s b).1 in
        let c : r.count ≡ s.count + 1 = count-push capacity 0 s b ∙ rw room in
        let k = ltb→lt s.count capacity room in
        let rest = write_loop_lem bs (n + 1) r p.0 in
        let e : capacity - r.count ≡ capacity - s.count - 1 = omega (arith, c) in
        ground (
          arith,
          room,
          rest,
          c,
          p,
          e,
          take-cons_pos (capacity - s.count) b bs (omega (arith, k)),
          append_assoc (bytes s) (b ∷ []) (take (capacity - s.count - 1) bs),
        )
    | inr full ↦
        let p = push_lem capacity 0 s b v in
        let k = ltb→ge s.count capacity full in
        ground (
          arith,
          full,
          p,
          take-none (capacity - s.count) (b ∷ bs) (omega (arith, k)),
          append-nil (bytes s),
        )
  ]

  -- `read` into a buffer of `max_len` bytes takes the oldest `max_len` bytes, or all if there are
  -- fewer, in the order in which they were written, and leaves the others in the stream.
  pub read_lem :
      (max_len : ℕ) (s : Ring ℕ)
      → Valid s
      → ((read capacity true max_len s).0 ≡ take max_len (bytes s))
        × (bytes (read capacity true max_len s).1 ≡ drop max_len (bytes s))
        × Valid (read capacity true max_len s).1
  unfolding read
  read_lem zero s v = (refl, refl, v)
  read_lem (suc n) s v = ground (arith, read_loop_lem (suc n) s v)

  -- `write` accepts as many bytes as there is room for, returns their number, and puts exactly that
  -- prefix of the source behind the bytes in the stream.
  pub write_lem :
      (src : List ℕ) (s : Ring ℕ)
      → Valid s
      → ((write capacity (some src) s).0 ≡ min (length src) (available_for_write capacity 0 s))
        × (bytes (write capacity (some src) s).1
            ≡ bytes s ++ take (available_for_write capacity 0 s) src)
        × Valid (write capacity (some src) s).1
  unfolding write available_for_write
  write_lem [] s v = (omega arith, rw (take-nil, append-nil), v)
  write_lem (b ∷ bs) s v = ground (arith, write_loop_lem (b ∷ bs) 0 s v)

  room_lem :
      {n : ℕ} (s : Ring ℕ) → s.count ≡ 0 → n ≤ capacity → n ≤ available_for_write capacity 0 s
  unfolding available_for_write
  room_lem s empty fits = omega arith

  -- Bytes come out as they went in: if `src` fits, writing it to an empty stream and reading as
  -- many bytes returns `src`.
  pub read-write :
      (src : List ℕ) (s : Ring ℕ)
      → Valid s
      → s.count ≡ 0
      → length src ≤ capacity
      → (read capacity true (length src) (write capacity (some src) s).1).0 ≡ src
  read-write src s v empty fits =
      let (_, stored, w) = write_lem src s v in
      let (got, _, _) = read_lem (length src) (write capacity (some src) s).1 w in
      got ∙ ap (take (length src)) (stored ∙ all) ∙ take-all (length src) src (omega arith)
    where
      nothing : bytes s ≡ []
      nothing = rw empty

      all : bytes s ++ take (available_for_write capacity 0 s) src ≡ src
      all = ap₂ ◌++◌ nothing (take-all _ src (room_lem s empty fits))
