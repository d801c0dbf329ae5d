-- ===== src/Reader/Framing.antt =====
-- What the readers of async_event_loop/protocol_reader.hpp share in their loops: a reader that
-- follows a machine on bytes drains its stream and delivers what the machine cuts.
use native.Mathlib.Nat.{add-zero}
use pypilot_event_loop.Prelude.{
  ℕ, ◌+◌, ◌<◌, ◌≡◌, refl, ap, ◌∙◌, some, List, [], ◌∷◌, ◌++◌, arith, length, length-append,
  append-nil, append_assoc, subst,
}
use pypilot_event_loop.Stream.{ByteStream, poll_loop}
use pypilot_event_loop.Stream.Device.{Device, run, drain}
use pypilot_event_loop.Reader.{deliver}

module _ {W : Type 0} {stream : ByteStream W} {call : List ℕ → W → W} (d : Device stream call) where
  -- A sequence of messages is recorded in order, and leaves the stream alone.
  pub deliver-log :
      (ms : List (List ℕ)) (w : W)
      → d.Ok w
      → d.Ok (deliver (some call) ms w)
        × (d.queue (deliver (some call) ms w) ≡ d.queue w)
        × (d.log (deliver (some call) ms w) ≡ d.log w ++ ms)
  deliver-log [] w o = (o, refl, rw append-nil)
  deliver-log (m ∷ ms) w o =
      let (o1, q1, l1) = d.call w m o in
      let (o2, q2, l2) = deliver-log ms (call m w) o1 in
      (o2, q2 ∙ q1, l2 ∙ ap (λ xs. xs ++ ms) l1 ∙ append_assoc (d.log w) (m ∷ []) ms)

-- The bytes of a sequence of frames.
abbrev pub bytes_of : List (List ℕ) → List ℕ
bytes_of [] = []
bytes_of (f ∷ fs) = f ++ bytes_of fs

-- The machine: the messages so far, and what it holds of the next one.
abbrev pub Cut : Type 0 → Type 0
Cut L = List (List ℕ) × L

module _ {L : Type 0} (next : L → ℕ → List (List ℕ) × L) where
  abbrev pub cut : Cut L → ℕ → Cut L
  cut (out, part) b = let (ms, part') = next part b in (out ++ ms, part')

  -- The machine, with the number of bytes it has read.
  abbrev counted : Cut L × ℕ → ℕ → Cut L × ℕ
  counted (s, n) b = (cut s b, n + 1)

  run-counted :
      (bs : List ℕ) (s : Cut L) (n : ℕ) → run counted (s, n) bs ≡ (run cut s bs, n + length bs)
  run-counted [] s n = rw add-zero
  run-counted (b ∷ bs) s n =
      run-counted bs (cut s b) (n + 1) ∙ ap (λ k. (run cut (cut s b) bs, k)) (omega arith)

  module _ {R W : Type 0} {stream : ByteStream W} {call : List ℕ → W → W} (d : Device stream call)
      (consume : ℕ → R → W → R × W) (Holds : L → ℕ → ℕ → R → Type 0) where
    -- One byte of the reader follows the machine: `Holds part sent seen r` says that the reader
    -- holds `part`, has delivered `sent` messages and read `seen` bytes.
    abbrev pub Follows : Type 0
    Follows =
        (b : ℕ) (part : L) (sent seen : ℕ) (r : R) (w : W)
        → Holds part sent seen r
        → Holds (next part b).1 (sent + length (next part b).0) (seen + 1) (consume b r w).0
          × ((consume b r w).1 ≡ deliver (some call) (next part b).0 w)

    -- What the loop leaves, when the machine has cut the messages `out` and holds `part`.
    pub record Drained (fuel start seen : ℕ) (r : R) (w : W) (s : Cut L) : Type 0 where
      pub reader : R
      pub world : W
      pub returns : poll_loop stream consume fuel r w ≡ some (reader, world)
      pub okay : d.Ok world
      pub drained : d.queue world ≡ []
      pub logged : d.log world ≡ d.log w ++ s.0
      pub holds : Holds s.1 (start + length s.0) (seen + length (d.queue w)) reader

    module _ (before : List (List ℕ)) (start : ℕ) where
      record Rep (s : Cut L × ℕ) (r : R) (w : W) : Type 0 where
        held : Holds s.0.1 (start + length s.0.0) s.1 r
        logged : d.log w ≡ before ++ s.0.0

      Rep-counted :
          Follows
          → (s : Cut L × ℕ) (b : ℕ) (r : R) (w : W) → d.Ok w
          → Rep s r w
          → d.Ok (consume b r w).1
            × (d.queue (consume b r w).1 ≡ d.queue w)
            × Rep (counted s b) (consume b r w).0 (consume b r w).1
      Rep-counted follows ((out, part), n) b r w o p =
          let ms = (next part b).0 in
          let (h, e) = follows b part (start + length out) n r w p.held in
          let (o', q', l') = deliver-log d ms w o in
          let more : start + length out + length ms ≡ start + length (out ++ ms) =
            omega (arith, length-append out ms) in
          (
            rw e o',
            ap d.queue e ∙ q',
            record {
              held = rw (← more) h;
              logged = ap d.log e ∙ l' ∙ ap (λ xs. xs ++ ms) p.logged ∙ append_assoc before out ms;
            },
          )

    -- With more fuel than bytes the loop of a reader that follows the machine ends, on an empty
    -- stream, and has delivered what the machine cuts from the bytes.
    pub loop_refines :
        (follows : Follows) (fuel start seen : ℕ) (part : L) (r : R) (w : W)
        → d.Ok w
        → length (d.queue w) < fuel
        → Holds part start seen r
        → Drained fuel start seen r w (run cut ([], part) (d.queue w))
    loop_refines follows fuel start seen part r w o enough h =
        let p0 : Rep (d.log w) start (([], part), seen) r w = record {
          held = rw add-zero h;
          logged = rw append-nil;
        } in
        let (r', w', e, o', q, p) =
          drain d consume counted (Rep (d.log w) start) (Rep-counted (d.log w) start follows)
            (λ s x u u' k l y. record { held = y.held; logged = l ∙ y.logged }) (d.queue w) fuel
            (([], part), seen) r w o refl enough p0 in
        let p' =
          subst (λ s. Rep (d.log w) start s r' w') (run-counted (d.queue w) ([], part) seen) p in
        record {
          reader = r';
          world = w';
          returns = e;
          okay = o';
          drained = q;
          logged = p'.logged;
          holds = p'.held;
        }
