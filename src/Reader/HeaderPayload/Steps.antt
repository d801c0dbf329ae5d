-- ===== src/Reader/HeaderPayload/Steps.antt =====
-- The header+payload reader follows its machine byte by byte.
use pypilot_event_loop.Prelude.{
  ℕ, suc, ◌+◌, ◌-◌, ◌≤◌, ◌<◌, ◌≡◌, ap, ◌∙◌, sym, true, false, List, [], ◌∷◌, ◌++◌, arith, leb, ltb,
  ltb→lt, ltb→ge, ◌⊎◌, inl, inr, Bool-cases, leb→le, take-take, take, take-set, length, length-set,
  length-append, take-append_le,
}
use pypilot_event_loop.Reader.{Callback, deliver, count_byte, count_error}
use pypilot_event_loop.Reader.HeaderPayload.{
  HeaderPayloadProtocolOptions, HeaderPayloadReader, append, read_header, emit_frame, try_emit,
  take_byte, move_down,
}
use pypilot_event_loop.Reader.HeaderPayload.Framing.{IsValid, Keeps, Holds}
use pypilot_event_loop.Reader.HeaderPayload.Spec.{Part, frame_size, settle, next}

module _ {W : Type 0} (buffer_size : ℕ) (options : HeaderPayloadProtocolOptions)
    (payload_of : List ℕ → ℕ) (callback : Callback W) where
  -- The bytes `part`, the last of them just appended, with the header not read yet or the frame's
  -- size known and not passed.
  record Fed (part : List ℕ) (rejected sent seen : ℕ) (r : HeaderPayloadReader W) : Type 0 where
    keeps : Keeps buffer_size options payload_of callback part rejected sent seen r
    header :
        ((r.have_expected_size ≡ false)
          × (r.expected_size ≡ 0)
          × (length part ≤ options.header_size))
        ⊎ ((r.have_expected_size ≡ true)
            × (r.expected_size
                ≡ frame_size options.header_size options.max_payload_size payload_of part)
            × (options.header_size ≤ length part)
            × (payload_of (take options.header_size part) ≤ options.max_payload_size)
            × (length part
                ≤ frame_size options.header_size options.max_payload_size payload_of part))

  -- A complete header has been read, and announces an allowed size that is not passed.
  record Ready (part : List ℕ) (rejected sent seen : ℕ) (r : HeaderPayloadReader W) : Type 0 where
    keeps : Keeps buffer_size options payload_of callback part rejected sent seen r
    knows : r.have_expected_size ≡ true
    expected :
        r.expected_size ≡ frame_size options.header_size options.max_payload_size payload_of part
    header : options.header_size ≤ length part
    small : payload_of (take options.header_size part) ≤ options.max_payload_size
    within : length part ≤ frame_size options.header_size options.max_payload_size payload_of part

  module _ (v : IsValid buffer_size options payload_of) where
    append-Fed :
        (b : ℕ) (part : List ℕ) (rejected sent seen : ℕ) (r : HeaderPayloadReader W)
        → Holds buffer_size options payload_of callback (part, rejected) sent seen r
        → ((append buffer_size b r).0 ≡ true)
          × Fed (part ++ b ∷ []) rejected sent seen (append buffer_size b r).1
    unfolding append
    append-Fed b part rejected sent seen r k =
        let room : length part < buffer_size = ground (arith, v.fits, k.is_part) in
        let l = length-append part (b ∷ []) in
        let t = take-append_le options.header_size part (b ∷ []) in
        let grown =
          take-set r.buffer r.size b (omega (arith, k.keeps.size, k.keeps.storage, room)) in
        elim (Bool-cases (leb options.header_size (length part))) [
          | inl whole ↦
              let same = t (leb→le _ _ whole) in
              ground (
                arith,
                whole,
                l,
                grown,
                k.is_part,
                same,
                ap payload_of same,
                length-set r.buffer r.size b,
                k.keeps.size,
              )
          | inr short ↦
              ground (arith, short, l, grown, k.is_part, length-set r.buffer r.size b, k.keeps.size)
        ]

    -- The header of the bytes held, read from the array.
    header-held :
        (part : List ℕ) (rejected sent seen : ℕ) (r : HeaderPayloadReader W)
        → Keeps buffer_size options payload_of callback part rejected sent seen r
        → options.header_size ≤ length part
        → take options.header_size r.buffer ≡ take options.header_size part
    header-held part rejected sent seen r k h =
        sym (take-take options.header_size r.size r.buffer (omega (arith, k.size)))
        ∙ ap (take options.header_size) k.held

    read_header-Fed :
        (part : List ℕ) (rejected sent seen : ℕ) (r : HeaderPayloadReader W)
        → Fed part rejected sent seen r
        → options.header_size ≤ length part
        → ((options.max_payload_size < payload_of (take options.header_size part))
            × (read_header buffer_size r ≡ (
              false,
              record r {
                size = 0;
                expected_size = 0;
                have_expected_size = false;
                stats = count_error r.stats;
              },
            )))
          ⊎ ((r' : HeaderPayloadReader W) × (read_header buffer_size r ≡ (true, r'))
              × Ready part rejected sent seen r')
    unfolding read_header
    read_header-Fed part rejected sent seen r k h =
        let e = header-held part rejected sent seen r k.keeps h in
        let payload = payload_of (take options.header_size part) in
        elim k.header [
          | inl (unknown, zeroed, short) ↦
              elim (Bool-cases (ltb options.max_payload_size payload)) [
                | inl large ↦ inl (
                  ltb→lt _ _ large,
                  ground (arith, e, ap payload_of e, large, unknown, v.known, k.keeps.same_options),
                )
                | inr small ↦ inr (
                  record r {
                    expected_size = options.header_size + payload;
                    have_expected_size = true;
                  },
                  ground (
                    arith,
                    e,
                    ap payload_of e,
                    small,
                    unknown,
                    v.known,
                    v.fits,
                    v.machine,
                    k.keeps.same_options,
                  ),
                  ground (arith, small, short, h, k.keeps),
                )
              ]
          | inr (known, size, long, small, within) ↦ inr (
            r,
            ground (arith, known),
            record {
              keeps = k.keeps;
              knows = known;
              expected = size;
              header = long;
              small = small;
              within = within;
            },
          )
        ]

    -- A complete frame is delivered, and nothing of it stays.
    emit_frame-Ready :
        (part : List ℕ) (rejected sent seen : ℕ) (r : HeaderPayloadReader W) (w : W)
        → Ready part rejected sent seen r
        → length part ≡ frame_size options.header_size options.max_payload_size payload_of part
        → Holds buffer_size options payload_of callback
            ([], rejected)
            (sent + 1)
            seen
            (emit_frame r w).0
          × ((emit_frame r w).1 ≡ deliver callback (part ∷ []) w)
    unfolding emit_frame move_down
    emit_frame-Ready part rejected sent seen r w k whole =
        let none_left : r.size - r.expected_size ≡ 0 =
          omega (arith, k.keeps.size, k.expected, whole) in
        let all : r.expected_size ≡ r.size = omega (arith, k.keeps.size, k.expected, whole) in
        rw (none_left, all) ground (arith, k, v.positive)

    -- `try_emit` after a byte settles the bytes held as the machine does.
    try_emit-Fed :
        (fuel : ℕ) (part : List ℕ) (rejected sent seen : ℕ) (r : HeaderPayloadReader W) (w : W)
        → Fed part rejected sent seen r
        → let s = settle options.header_size options.max_payload_size payload_of part rejected in
          Holds buffer_size options payload_of callback s.1
            (sent + length s.0)
            seen
            (try_emit buffer_size (suc fuel) r w).0
          × ((try_emit buffer_size (suc fuel) r w).1 ≡ deliver callback s.0 w)
    unfolding try_emit
    try_emit-Fed fuel part rejected sent seen r w k =
        elim (Bool-cases (ltb (length part) options.header_size)) [
          | inl short ↦ ground (arith, short, k)
          | inr long ↦
              let h = ltb→ge _ _ long in
              elim (read_header-Fed part rejected sent seen r k h) [
                | inl (large, e) ↦ ground (arith, long, large, e, k, v.positive)
                | inr (r', e, y) ↦
                    elim (Bool-cases (
                      ltb (length part) (
                        frame_size options.header_size options.max_payload_size payload_of part))) [
                          | inl more ↦ ground (arith, long, more, e, y)
                          | inr whole ↦
                              let z =
                                emit_frame-Ready part rejected sent seen r' w y
                                  (omega (arith, y.within, ltb→ge _ _ whole)) in
                              ground (arith, long, whole, e, y, z, v.positive)
                        ]
              ]
        ]

    -- One byte of the reader follows the machine.
    pub take_byte-next :
        (b : ℕ) (p : Part options.header_size options.max_payload_size payload_of) (sent seen : ℕ)
        (r : HeaderPayloadReader W) (w : W)
        → Holds buffer_size options payload_of callback p sent seen r
        → let s = next options.header_size options.max_payload_size payload_of p b in
          Holds buffer_size options payload_of callback s.1
            (sent + length s.0)
            (seen + 1)
            (take_byte buffer_size b r w).0
          × ((take_byte buffer_size b r w).1 ≡ deliver callback s.0 w)
    unfolding take_byte
    take_byte-next b (part, rejected) sent seen r w k =
        let r0 = record r { stats = count_byte r.stats } in
        let k0 : Holds buffer_size options payload_of callback (part, rejected) sent (seen + 1) r0 =
          ground (arith, k) in
        let (fits, fed) = append-Fed b part rejected sent (seen + 1) r0 k0 in
        let r1 = (append buffer_size b r0).1 in
        let one : r1.size ≡ suc (length part) =
          omega (arith, fed.keeps.size, length-append part (b ∷ [])) in
        let x = try_emit-Fed (length part) (part ++ b ∷ []) rejected sent (seen + 1) r1 w fed in
        rw (fits, one) x
