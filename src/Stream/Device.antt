-- ===== src/Stream/Device.antt =====
-- What the readers' theorems ask of a stream and a callback, and the rule for `poll` over them.
use pypilot_event_loop.Prelude.{
  ℕ, zero, suc, ◌<◌, ◌≡◌, ◌∙◌, Bool, true, false, some, List, [], ◌∷◌, ◌++◌, arith, length,
}
use pypilot_event_loop.Stream.{ByteStream, poll_loop}

abbrev pub nonempty : List ℕ → Bool
nonempty [] = false
nonempty (b ∷ bs) = true

-- A stream that holds the bytes `queue`, and a callback that records its messages in `log`. The
-- stream is readable exactly while bytes are left, a read takes the next one, and a call of the
-- callback leaves the stream alone. `Ok` is an invariant of the state.
pub record Device {W : Type 0} (stream : ByteStream W) (callback : List ℕ → W → W) : Type 1 where
  pub Ok : W → Type 0
  pub queue : W → List ℕ
  pub log : W → List (List ℕ)
  pub ready : (w : W) → Ok w → stream.readable w ≡ nonempty (queue w)
  pub next :
      (w : W) (b : ℕ) (bs : List ℕ)
      → Ok w
      → queue w ≡ b ∷ bs
      → (w' : W) × (stream.read_byte w ≡ (some b, w')) × Ok w' × (queue w' ≡ bs) × (log w' ≡ log w)
  pub call :
      (w : W) (m : List ℕ)
      → Ok w
      → Ok (callback m w)
        × (queue (callback m w) ≡ queue w)
        × (log (callback m w) ≡ log w ++ m ∷ [])

-- A specification by a machine that reads one byte at a time.
abbrev pub run : {S : Type 0} → (S → ℕ → S) → S → List ℕ → S
run step s [] = s
run step s (b ∷ bs) = run step (step s b) bs

module _ {R W S : Type 0} {stream : ByteStream W} {callback : List ℕ → W → W}
    (d : Device stream callback) (consume : ℕ → R → W → R × W) (step : S → ℕ → S)
    (Rep : S → R → W → Type 0)
    (keep : (s : S) (b : ℕ) (r : R) (w : W)
      → d.Ok w
      → Rep s r w
      → d.Ok (consume b r w).1
        × (d.queue (consume b r w).1 ≡ d.queue w)
        × Rep (step s b) (consume b r w).0 (consume b r w).1)
    (unread : (s : S) (r : R) (w w' : W)
      → d.Ok w'
      → d.log w' ≡ d.log w
      → Rep s r w
      → Rep s r w') where
  -- With more fuel than bytes the loop ends, has consumed them all, and follows the machine.
  pub drain :
      (bs : List ℕ) (fuel : ℕ) (s : S) (r : R) (w : W)
      → d.Ok w
      → d.queue w ≡ bs
      → length bs < fuel
      → Rep s r w
      → (r' : R) × (w' : W) × (poll_loop stream consume fuel r w ≡ some (r', w'))
        × d.Ok w'
        × (d.queue w' ≡ [])
        × Rep (run step s bs) r' w'
  unfolding poll_loop
  drain bs zero s r w o q h p = elim h [ ]
  drain [] (suc fuel) s r w o q h p = (r, w, ground (arith, d.ready w o, q), o, q, p)
  drain (b ∷ bs) (suc fuel) s r w o q h p =
      let (w1, e, o1, q1, l1) = d.next w b bs o q in
      let (o2, q2, p2) = keep s b r w1 o1 (unread s r w w1 o1 l1 p) in
      let c = consume b r w1 in
      let (r', w', e', o', q', p') =
        drain bs fuel (step s b) c.0 c.1 o2 (q2 ∙ q1) (omega arith) p2 in
      (r', w', ground (arith, d.ready w o, q, e, e'), o', q', p')
