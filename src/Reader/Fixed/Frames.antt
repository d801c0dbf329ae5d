-- ===== src/Reader/Fixed/Frames.antt =====
-- The fixed-size frame reader cuts its bytes into frames of equal size.
use pypilot_event_loop.Prelude.{
  ℕ, ◌+◌, ◌%◌, ◌^◌, ◌≤◌, ◌<◌, ◌≡◌, refl, ap, ◌∙◌, some, List, [], ◌∷◌, ◌++◌, arith, ◌==◌,
  if◌then◌else◌, take, take-set, length, length-set, length-take, length-append, append_assoc,
  append-nil, length-replicate, subst,
}
use pypilot_event_loop.Stream.{ByteStream, poll_loop}
use pypilot_event_loop.Stream.Device.{Device, run}
use pypilot_event_loop.Reader.{Callback, deliver}
use pypilot_event_loop.Reader.Framing.{Cut, cut, bytes_of, loop_refines}
use pypilot_event_loop.Reader.Fixed.{FixedReader, new, take_byte, poll}

module _ (frame_size : ℕ) where
  -- One byte: the frame that it completes, and the beginning of the next one.
  abbrev pub next : List ℕ → ℕ → List (List ℕ) × List ℕ
  next part b =
      let part' = part ++ b ∷ [] in
      if length part' == frame_size then (part' ∷ [], []) else ([], part')

  -- Every element has the frames' size.
  abbrev pub AllFrames : List (List ℕ) → Type 0
  AllFrames [] = Unit {0}
  AllFrames (f ∷ fs) = (length f ≡ frame_size) × AllFrames fs

  run-frame :
      (cs rest part : List ℕ) (out : List (List ℕ))
      → length part < frame_size
      → length part + length cs ≡ frame_size
      → run (cut next) (out, part) (cs ++ rest) ≡ run (cut next) (out ++ (part ++ cs) ∷ [], []) rest
  run-frame [] rest part out h k = absurd (omega arith)
  run-frame (c ∷ []) rest part out h k =
      ap (λ s. run (cut next) s rest) (ground (arith, length-append part (c ∷ [])))
  run-frame (c ∷ d ∷ cs) rest part out h k =
      let longer = length-append part (c ∷ []) in
      let same : cut next (out, part) c ≡ (out, part ++ c ∷ []) =
        ground (arith, longer, append-nil out) in
      ap (λ s. run (cut next) s (d ∷ cs ++ rest)) same
      ∙ run-frame (d ∷ cs) rest (part ++ c ∷ []) out (omega (arith, longer)) (omega (arith, longer))
      ∙ ap (λ xs. run (cut next) (out ++ xs ∷ [], []) rest) (append_assoc part (c ∷ []) (d ∷ cs))

  run-tail :
      (cs part : List ℕ) (out : List (List ℕ))
      → length part + length cs < frame_size
      → run (cut next) (out, part) cs ≡ (out, part ++ cs)
  run-tail [] part out h = rw (append-nil part)
  run-tail (c ∷ cs) part out h =
      let longer = length-append part (c ∷ []) in
      let same : cut next (out, part) c ≡ (out, part ++ c ∷ []) =
        ground (arith, longer, append-nil out) in
      ap (λ s. run (cut next) s cs) same
      ∙ run-tail cs (part ++ c ∷ []) out (omega (arith, longer))
      ∙ ap (λ xs. (out, xs)) (append_assoc part (c ∷ []) cs)

  -- Frames of the right size are cut as they are.
  pub run-frames :
      (fs : List (List ℕ)) (tail : List ℕ) (out : List (List ℕ))
      → 0 < frame_size
      → AllFrames fs
      → length tail < frame_size
      → run (cut next) (out, []) (bytes_of fs ++ tail) ≡ (out ++ fs, tail)
  run-frames [] tail out pos h k = run-tail tail [] out (omega (arith, k)) ∙ rw (append-nil out)
  run-frames (f ∷ fs) tail out pos h k =
      ap (run (cut next) (out, [])) (append_assoc f (bytes_of fs) tail)
      ∙ run-frame f (bytes_of fs ++ tail) [] out pos (omega (arith, h.0))
      ∙ run-frames fs tail (out ++ f ∷ []) pos h.1 k
      ∙ ap (λ xs. (xs, tail)) (append_assoc out (f ∷ []) fs)

-- The reader of frames of `frame_size` bytes holds the bytes `part` of the next frame, has
-- delivered `sent` messages and read `seen` bytes.
pub record Holds {W : Type 0} (buffer_size frame_size : ℕ) (callback : Callback W) (part : List ℕ)
    (sent seen : ℕ) (r : FixedReader W) : Type 0 where
  pub same_size : r.frame_size ≡ frame_size
  pub same_callback : r.callback ≡ callback
  pub storage : length r.buffer ≡ buffer_size
  pub within : r.size < frame_size
  pub held : take r.size r.buffer ≡ part
  pub messages : r.stats.messages ≡ sent % 2 ^ 32
  pub bytes : r.stats.bytes ≡ seen % 2 ^ 32
  pub errors : r.stats.protocol_errors ≡ 0

module _ {W : Type 0} (buffer_size frame_size : ℕ) (call : List ℕ → W → W)
    (fits : frame_size ≤ buffer_size) where
  take_byte-next :
      (b : ℕ) (part : List ℕ) (sent seen : ℕ) (r : FixedReader W) (w : W)
      → Holds buffer_size frame_size (some call) part sent seen r
      → Holds buffer_size frame_size
          (some call)
          (next frame_size part b).1
          (sent + length (next frame_size part b).0)
          (seen + 1)
          (take_byte b r w).0
        × ((take_byte b r w).1 ≡ deliver (some call) (next frame_size part b).0 w)
  unfolding take_byte
  take_byte-next b part sent seen r w v =
      let n : length part ≡ r.size =
        omega (arith, ap length v.held, length-take r.size r.buffer, v.storage, v.within) in
      let l = length-append part (b ∷ []) in
      ground (
        arith,
        n,
        l,
        length-set r.buffer r.size b,
        take-set r.buffer r.size b (omega (arith, v.storage, v.within)),
      )

  module _ (positive : 0 < frame_size) {stream : ByteStream W} (d : Device stream call)
      (fuel start seen : ℕ) (r : FixedReader W) (w : W) where
    -- What `poll` leaves, when it delivered `out` and keeps the bytes `part`.
    pub record Polled (out : List (List ℕ)) (part : List ℕ) : Type 0 where
      pub reader : FixedReader W
      pub world : W
      pub returns : poll buffer_size stream fuel r w ≡ some (reader, world)
      pub drained : d.queue world ≡ []
      pub logged : d.log world ≡ d.log w ++ out
      pub holds :
          Holds buffer_size frame_size
            (some call)
            part
            (start + length out)
            (seen + length (d.queue w))
            reader

    poll-loop :
        Holds buffer_size frame_size (some call) [] start seen r
        → poll buffer_size stream fuel r w ≡ poll_loop stream take_byte fuel r w
    unfolding poll
    poll-loop v = ground (arith, v.same_size, fits, positive)

    -- A reader of frames of n bytes, n between 1 and the size of its buffer, that holds no byte,
    -- on a stream that holds frames of n bytes and a tail shorter than n: with more fuel than
    -- bytes `poll` returns, the stream is drained, exactly those frames have been delivered and
    -- counted, in order, every byte is counted, no error is, and the reader holds the tail.
    pub poll_frames :
        (fs : List (List ℕ)) (tail : List ℕ)
        → d.Ok w
        → length (d.queue w) < fuel
        → Holds buffer_size frame_size (some call) [] start seen r
        → d.queue w ≡ bytes_of fs ++ tail
        → AllFrames frame_size fs
        → length tail < frame_size
        → Polled fs tail
    poll_frames fs tail o enough v q h k =
        let x =
          loop_refines (next frame_size) d take_byte (Holds buffer_size frame_size (some call))
            take_byte-next fuel start seen [] r w o enough v in
        let cuts =
          ap (run (cut (next frame_size)) ([], [])) q
          ∙ run-frames frame_size fs tail [] positive h k in
        record {
          reader = x.reader;
          world = x.world;
          returns = poll-loop v ∙ x.returns;
          drained = x.drained;
          logged = x.logged ∙ ap (λ (s : Cut (List ℕ)). d.log w ++ s.0) cuts;
          holds =
              subst
                (λ (s : Cut (List ℕ)).
                  Holds buffer_size frame_size (some call) s.1 (start + length s.0)
                    (seen + length (d.queue w)) x.reader)
                cuts x.holds;
        }

module _ {W : Type 0} (buffer_size frame_size : ℕ) (callback : Callback W)
    (positive : 0 < frame_size) where
  -- A new reader holds nothing.
  pub new-Holds : Holds buffer_size frame_size callback [] 0 0 (new buffer_size frame_size callback)
  unfolding new
  new-Holds = record {
    same_size = refl;
    same_callback = refl;
    storage = length-replicate buffer_size 0;
    within = positive;
    held = refl;
    messages = refl;
    bytes = refl;
    errors = refl;
  }
