-- ===== src/Reader/Json/Poll.antt =====
-- `JsonProtocolReader::poll` drains its stream and delivers the messages that the machine frames.
use pypilot_event_loop.Prelude.{
  ℕ, suc, ◌%◌, ◌^◌, ◌≤◌, ◌<◌, ◌≡◌, refl, ◌∙◌, Bool, some, List, [], ◌++◌, append-nil, arith, take,
  length, length-replicate,
}
use pypilot_event_loop.Stream.{ByteStream}
use pypilot_event_loop.Stream.Device.{Device, run, drain}
use pypilot_event_loop.Reader.{ProtocolReaderStats, count_byte}
use pypilot_event_loop.Reader.Json.Defs.{
  JsonReader, new, emit_json, consume_number_value, consume_within, take_byte, poll,
}
use pypilot_event_loop.Reader.Json.Spec.{Mode, Frame, between, inside, quoted, numeral, word, step}
use pypilot_event_loop.Reader.Json.Refine.{Matches, Good}
use pypilot_event_loop.Reader.Json.Steps.{step_handler}

-- `consume` calls itself at most once: any further allowance changes nothing.
pub consume_nesting :
    {W : Type 0} (room n c : ℕ) (r : JsonReader W) (w : W)
    → consume_within room (suc (suc n)) c r w ≡ consume_within room 2 c r w
unfolding consume_within consume_number_value emit_json
consume_nesting room n c r w = ground arith

-- The machine before the first byte.
abbrev pub start : Frame
start = record { out = []; sent = 0; text = []; mode = between; errors = 0; overflows = 0 }

module _ {W : Type 0} (skip : Bool) (room : ℕ) {stream : ByteStream W} {call : List ℕ → W → W}
    (d : Device stream call) where
  record Rep (before : List (List ℕ)) (f : Frame) (r : JsonReader W) (w : W) : Type 0 where
    good : Good skip room d before (d.queue w) f (r, w)

  requeue :
      (before : List (List ℕ)) (queue : List ℕ) (f : Frame) (r : JsonReader W) (w : W)
      → Good skip room d before queue f (r, w)
      → Good skip room d before (d.queue w) f (r, w)
  requeue before queue f r w (b, m) =
      ((b.0, b.1, b.2, b.3, b.4, b.5, b.6, b.7, b.8, b.9, refl, b.11), m)

  -- The same reader, when a byte has been read from the stream.
  unread :
      (before : List (List ℕ)) (f : Frame) (r : JsonReader W) (w w' : W)
      → d.Ok w'
      → d.log w' ≡ d.log w
      → Rep before f r w
      → Rep before f r w'
  unread before f r w w' o l p =
      let (b, m) = p.good in
      record { good = ((b.0, b.1, b.2, b.3, b.4, b.5, b.6, b.7, b.8, o, refl, l ∙ b.11), m) }

  Matches-stats :
      (m : Mode) (r : JsonReader W) (s : ProtocolReaderStats)
      → Matches m r
      → Matches m (record r { stats = s })
  Matches-stats between r s h = h
  Matches-stats (inside opens q e) r s h = h
  Matches-stats (quoted e) r s h = h
  Matches-stats numeral r s h = h
  Matches-stats (word rest) r s h = h

  Rep-step :
      (before : List (List ℕ)) (f : Frame) (b : ℕ) (r : JsonReader W) (w : W)
      → d.Ok w
      → Rep before f r w
      → d.Ok (take_byte room b r w).1
        × (d.queue (take_byte room b r w).1 ≡ d.queue w)
        × Rep before (step skip room f b) (take_byte room b r w).0 (take_byte room b r w).1
  unfolding take_byte
  Rep-step before f b r w o p =
      let r' = record r { stats = count_byte r.stats } in
      let g =
        step_handler skip room d before (d.queue w) f.mode 0 b f r' w p.good.0
          (Matches-stats f.mode r (count_byte r.stats) p.good.1) in
      (g.0.9, g.0.10, record { good = requeue before (d.queue w) _ _ _ g })

  -- What `poll` leaves when the machine ends in `f`.
  pub record Polled (fuel : ℕ) (r : JsonReader W) (w : W) (f : Frame) : Type 0 where
    pub reader : JsonReader W
    pub world : W
    pub returns : poll room stream fuel r w ≡ some (reader, world)
    pub drained : d.queue world ≡ []
    pub logged : d.log world ≡ d.log w ++ f.out
    pub held : take reader.size reader.buffer ≡ f.text
    pub within : reader.size ≤ room
    pub storage : (length reader.buffer ≡ room) × (length reader.stack ≡ room)
    pub counted :
        (reader.stats.messages ≡ f.sent % 2 ^ 32)
        × (reader.stats.protocol_errors ≡ f.errors % 2 ^ 32)
        × (reader.stats.overflows ≡ f.overflows % 2 ^ 32)
    pub shown : Matches f.mode reader

  -- On a stream that holds any bytes, from a reader that shows the frame `f`, `poll` runs to the
  -- end with more fuel than bytes: the stream is drained, exactly the messages that the machine
  -- frames have been delivered, in order, the messages, protocol errors and overflows are counted
  -- (modulo 2^32), and both arrays are used within their bounds and show the machine's state.
  pub json_poll_refines :
      (fuel : ℕ) (f : Frame) (r : JsonReader W) (w : W)
      → d.Ok w
      → length (d.queue w) < fuel
      → Good skip room d (d.log w) (d.queue w) f (r, w)
      → Polled fuel r w (run (step skip room) f (d.queue w))
  unfolding poll
  json_poll_refines fuel f r w o enough g =
      let (r', w', e, o', q, p) =
        drain d (take_byte room) (step skip room) (Rep (d.log w)) (Rep-step (d.log w))
          (unread (d.log w)) (d.queue w) fuel f r w o refl enough (record { good = g }) in
      let (b, m) = p.good in
      record {
        reader = r';
        world = w';
        returns = e;
        drained = q;
        logged = b.11;
        held = b.5;
        within = b.4;
        storage = (b.2, b.3);
        counted = (b.6, b.7, b.8);
        shown = m;
      }

  -- A new reader shows the machine's start.
  pub new-Good :
      (w : W) → d.Ok w → Good skip room d (d.log w) (d.queue w) start (new room skip (some call), w)
  unfolding new
  new-Good w o = (
    (
      refl,
      refl,
      length-replicate room 0,
      length-replicate room 0,
      omega arith,
      refl,
      refl,
      refl,
      refl,
      o,
      refl,
      rw append-nil,
    ),
    (refl, refl, refl),
  )
