-- ===== src/Reader/HeaderPayload/Spec.antt =====
-- Header+payload framing as a machine on lists: the bytes of the current frame, and the number of
-- headers rejected so far.
use pypilot_event_loop.Prelude.{
  ℕ, ◌+◌, ◌≤◌, ◌<◌, ◌≡◌, ap, ◌∙◌, List, [], ◌∷◌, ◌++◌, arith, ltb, leb, if◌then◌else◌, take, length,
  length-append, append_assoc, append-nil, take-append_le, Bool-cases, inl, inr, ltb→ge, ◌⊎◌,
}
use pypilot_event_loop.Stream.Device.{run}
use pypilot_event_loop.Reader.Framing.{cut, bytes_of}

-- The sizes of a reader: of its header, and of the longest payload that it takes.
module _ (header_size max_payload_size : ℕ) (payload_of : List ℕ → ℕ) where
  abbrev pub Part : Type 0
  Part = List ℕ × ℕ

  -- The size that the header at the beginning of `bytes` gives for the frame.
  abbrev pub frame_size : List ℕ → ℕ
  frame_size bytes = header_size + payload_of (take header_size bytes)

  -- The frame that the bytes `part` complete, if any, and what is then held.
  abbrev pub settle : List ℕ → ℕ → List (List ℕ) × Part
  settle part rejected =
      if ltb (length part) header_size
      then ([], (part, rejected))
      else if ltb max_payload_size (payload_of (take header_size part))
      then ([], ([], rejected + 1))
      else if leb (frame_size part) (length part)
      then (part ∷ [], ([], rejected))
      else ([], (part, rejected))

  abbrev pub next : Part → ℕ → List (List ℕ) × Part
  next (part, rejected) b = settle (part ++ b ∷ []) rejected

  -- A header and the payload that it announces.
  pub record IsPacket (packet : List ℕ) : Type 0 where
    pub header : header_size ≤ length packet
    pub whole : length packet ≡ frame_size packet
    pub small : payload_of (take header_size packet) ≤ max_payload_size

  abbrev pub AllPackets : List (List ℕ) → Type 0
  AllPackets [] = Unit {0}
  AllPackets (p ∷ ps) = IsPacket p × AllPackets ps

  -- The beginning of a packet.
  abbrev pub IsPart : List ℕ → Type 0
  IsPart part =
      (length part < header_size)
      ⊎ ((header_size ≤ length part)
          × (payload_of (take header_size part) ≤ max_payload_size)
          × (length part < frame_size part))

  next-part :
      (part cs : List ℕ) (c rejected : ℕ)
      → IsPart ((part ++ c ∷ []) ++ cs)
      → next (part, rejected) c ≡ ([], (part ++ c ∷ [], rejected))
  next-part part cs c rejected h =
      let l = length-append (part ++ c ∷ []) cs in
      let t = take-append_le header_size (part ++ c ∷ []) cs in
      elim (Bool-cases (ltb (length (part ++ c ∷ [])) header_size)) [
        | inl short ↦ ground (arith, short)
        | inr long ↦
            let same = t (ltb→ge _ _ long) in ground (arith, h, long, l, ap payload_of same)
      ]

  -- A part that is not whole stays held.
  run-part :
      (cs part : List ℕ) (rejected : ℕ) (out : List (List ℕ))
      → IsPart (part ++ cs)
      → run (cut next) (out, (part, rejected)) cs ≡ (out, (part ++ cs, rejected))
  run-part [] part rejected out h = rw (append-nil part)
  run-part (c ∷ cs) part rejected out h =
      let a = append_assoc part (c ∷ []) cs in
      let same = next-part part cs c rejected (rw a h) in
      ap (λ x. run (cut next) (out ++ x.0, x.1) cs) same
      ∙ ap (λ xs. run (cut next) (xs, (part ++ c ∷ [], rejected)) cs) (append-nil out)
      ∙ run-part cs (part ++ c ∷ []) rejected out (rw a h)
      ∙ ap (λ xs. (out, (xs, rejected))) a

  -- The bytes that complete a packet.
  run-packet :
      (cs part rest : List ℕ) (rejected : ℕ) (out : List (List ℕ))
      → IsPacket (part ++ cs)
      → length part < length (part ++ cs)
      → run (cut next) (out, (part, rejected)) (cs ++ rest)
        ≡ run (cut next) (out ++ (part ++ cs) ∷ [], ([], rejected)) rest
  run-packet [] part rest rejected out h k = absurd (omega (arith, length-append part []))
  run-packet (c ∷ []) part rest rejected out h k =
      let same : next (part, rejected) c ≡ ((part ++ c ∷ []) ∷ [], ([], rejected)) =
        ground (arith, h.header, h.whole, h.small) in
      ap (λ x. run (cut next) (out ++ x.0, x.1) rest) same
  run-packet (c ∷ d ∷ cs) part rest rejected out h k =
      let a = append_assoc part (c ∷ []) (d ∷ cs) in
      let l = length-append (part ++ c ∷ []) (d ∷ cs) in
      let t = take-append_le header_size (part ++ c ∷ []) (d ∷ cs) in
      let p : IsPacket ((part ++ c ∷ []) ++ d ∷ cs) = rw a h in
      let same : next (part, rejected) c ≡ ([], (part ++ c ∷ [], rejected)) =
        elim (Bool-cases (ltb (length (part ++ c ∷ [])) header_size)) [
          | inl short ↦ ground (arith, short)
          | inr long ↦
              ground (arith, p.whole, p.small, long, l, ap payload_of (t (ltb→ge _ _ long)))
        ] in
      ap (λ x. run (cut next) (out ++ x.0, x.1) (d ∷ cs ++ rest)) same
      ∙ ap (λ xs. run (cut next) (xs, (part ++ c ∷ [], rejected)) (d ∷ cs ++ rest)) (append-nil out)
      ∙ run-packet (d ∷ cs) (part ++ c ∷ []) rest rejected out p (omega (arith, l))
      ∙ ap (λ xs. run (cut next) (out ++ xs ∷ [], ([], rejected)) rest) a

  -- Whole packets are cut as they are, and what follows them stays held.
  pub run-packets :
      (ps : List (List ℕ)) (tail : List ℕ) (rejected : ℕ) (out : List (List ℕ))
      → 0 < header_size
      → AllPackets ps
      → IsPart tail
      → run (cut next) (out, ([], rejected)) (bytes_of ps ++ tail) ≡ (out ++ ps, (tail, rejected))
  run-packets [] tail rejected out pos h k = run-part tail [] rejected out k ∙ rw (append-nil out)
  run-packets (p ∷ ps) tail rejected out pos h k =
      ap (run (cut next) (out, ([], rejected))) (append_assoc p (bytes_of ps) tail)
      ∙ run-packet p [] (bytes_of ps ++ tail) rejected out h.0 (omega (arith, h.0.header))
      ∙ run-packets ps tail rejected (out ++ p ∷ []) pos h.1 k
      ∙ ap (λ xs. (xs, (tail, rejected))) (append_assoc out (p ∷ []) ps)
