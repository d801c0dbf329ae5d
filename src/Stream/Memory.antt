-- ===== src/Stream/Memory.antt =====
-- A MemoryByteStream as the stream of a reader, with a callback that records its messages.
use pypilot_event_loop.Prelude.{
  ℕ, ◌≡◌, refl, true, Option, none, some, List, [], ◌∷◌, ◌++◌, arith, length, ltb,
}
use pypilot_event_loop.Ring.{Ring}
use pypilot_event_loop.Ring.Queue.{IsValid, contents, length-contents}
use pypilot_event_loop.MemoryStream.{readable, read}
use pypilot_event_loop.MemoryStream.Transfer.{read_lem}
use pypilot_event_loop.Stream.{ByteStream}
use pypilot_event_loop.Stream.Device.{Device, nonempty}

-- The stream, and the messages so far.
abbrev pub Recorder : Type 0
Recorder = Ring ℕ × List (List ℕ)

abbrev pub first : List ℕ → Option ℕ
first [] = none
first (b ∷ bs) = some b

abbrev pub record_message : List ℕ → Recorder → Recorder
record_message m (s, log) = (s, log ++ m ∷ [])

module _ (capacity : ℕ) where
  abbrev pub read_one : Recorder → Option ℕ × Recorder
  read_one (s, log) = let (bs, s') = read capacity true 1 s in (first bs, (s', log))

  abbrev pub memory_stream : ByteStream Recorder
  memory_stream = record { readable = λ w. readable capacity w.0; read_byte = read_one }

  pub nonempty-length : (n : ℕ) (bs : List ℕ) → length bs ≡ n → ltb 0 n ≡ nonempty bs
  nonempty-length n [] h = ground arith
  nonempty-length n (b ∷ bs) h = ground arith

  pub memory_next :
      (w : Recorder) (b : ℕ) (bs : List ℕ)
      → IsValid capacity 0 w.0
      → contents capacity 0 w.0 ≡ b ∷ bs
      → (w' : Recorder) × (read_one w ≡ (some b, w'))
        × IsValid capacity 0 w'.0
        × (contents capacity 0 w'.0 ≡ bs)
        × (w'.1 ≡ w.1)
  memory_next (s, log) b bs v q =
      let (got, left, v') = read_lem capacity 1 s v in
      let s' = (read capacity true 1 s).1 in
      ((s', log), ground (arith, got, q), v', ground (arith, left, q), refl)

  -- The memory stream meets what the readers ask of a stream.
  abbrev pub memory_device : Device memory_stream record_message
  memory_device = record {
    Ok = λ w. IsValid capacity 0 w.0;
    queue = λ w. contents capacity 0 w.0;
    log = λ w. w.1;
    ready =
        λ w v. nonempty-length w.0.count (contents capacity 0 w.0) (length-contents capacity 0 w.0);
    next = memory_next;
    call = λ w m v. (v, refl, refl);
  }
