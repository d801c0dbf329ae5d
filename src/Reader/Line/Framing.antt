-- ===== src/Reader/Line/Framing.antt =====
-- The line reader cuts the bytes at the delimiters.
use pypilot_event_loop.Prelude.{
  ℕ, zero, suc, ◌+◌, ◌-◌, ◌%◌, ◌^◌, ◌≤◌, ◌≡◌, refl, ap, ◌∙◌, Bool, true, false, List, [], ◌∷◌,
  arith, if◌then◌else◌, take, take-set, length, length-set, length-take, length-replicate,
}
use pypilot_event_loop.Reader.{Callback, deliver}
use pypilot_event_loop.Reader.Line.Spec.{strip, next}
use pypilot_event_loop.Reader.Line.{
  LineProtocolOptions, LineReader, new, consume, take_byte, trimmed,
}

-- The reader of `buffer_size` bytes holds the candidate line `line`, has delivered `sent` messages
-- and read `seen` bytes since it was made.
pub record Holds {W : Type 0} (buffer_size : ℕ) (options : LineProtocolOptions)
    (callback : Callback W) (line : List ℕ) (sent seen : ℕ) (r : LineReader W) : Type 0 where
  pub same_options : r.options ≡ options
  pub same_callback : r.callback ≡ callback
  pub storage : length r.buffer ≡ buffer_size
  pub within : r.size ≤ buffer_size
  pub held : take r.size r.buffer ≡ line
  pub messages : r.stats.messages ≡ sent % 2 ^ 32
  pub bytes : r.stats.bytes ≡ seen % 2 ^ 32

trimmed-cons :
    (b : Bool) (x : ℕ) (xs : List ℕ) (n : ℕ)
    → trimmed b (x ∷ xs) (suc (suc n)) ≡ suc (trimmed b xs (suc n))
trimmed-cons b x xs n =
    let e : suc (suc n) - 1 ≡ suc n = omega arith in
    let d : suc n - 1 ≡ n = omega arith in ground (arith, e, d)

take-trimmed :
    (b : Bool) (xs : List ℕ) (n : ℕ)
    → n ≤ length xs
    → take (trimmed b xs n) xs ≡ (if b then strip (take n xs) else take n xs)
take-trimmed false xs n h = refl
take-trimmed true xs zero h = refl
take-trimmed true [] (suc n) h = elim h [ ]
take-trimmed true (x ∷ []) (suc zero) h = ground arith
take-trimmed true (x ∷ []) (suc (suc n)) h = absurd (omega arith)
take-trimmed true (x ∷ y ∷ xs) (suc zero) h = ground arith
take-trimmed true (x ∷ y ∷ xs) (suc (suc n)) h =
    ap (λ k. take k (x ∷ y ∷ xs)) (trimmed-cons true x (y ∷ xs) n)
    ∙ ap (◌∷◌ x) (take-trimmed true (y ∷ xs) (suc n) (omega arith))

module _ {W : Type 0} (buffer_size : ℕ) (options : LineProtocolOptions)
    (callback : Callback W) where
  length-held :
      {line : List ℕ} {sent seen : ℕ} (r : LineReader W)
      → Holds buffer_size options callback line sent seen r
      → length line ≡ r.size
  length-held r v =
      omega (arith, ap length v.held, length-take r.size r.buffer, v.storage, v.within)

  -- One byte of the reader follows the line machine.
  pub take_byte-next :
      (b : ℕ) (line : List ℕ) (sent seen : ℕ) (r : LineReader W) (w : W)
      → Holds buffer_size options callback line sent seen r
      → let s = next buffer_size options line b in
        Holds buffer_size options callback s.1
          (sent + length s.0)
          (seen + 1)
          (take_byte buffer_size b r w).0
        × ((take_byte buffer_size b r w).1 ≡ deliver callback s.0 w)
  unfolding take_byte consume
  take_byte-next b line sent seen r w v = ground (
    arith,
    length-held r v,
    length-set r.buffer r.size b,
    take-set r.buffer r.size b,
    take-trimmed r.options.strip_cr r.buffer r.size,
  )

  -- A new reader holds nothing.
  pub new-Holds : Holds buffer_size options callback [] 0 0 (new buffer_size options callback)
  unfolding new
  new-Holds = record {
    same_options = refl;
    same_callback = refl;
    storage = length-replicate buffer_size 0;
    within = omega arith;
    held = refl;
    messages = refl;
    bytes = refl;
  }
