-- ===== src/Reader/HeaderPayload/Packets.antt =====
-- `HeaderPayloadProtocolReader::poll` drains its stream and delivers the packets.
use pypilot_event_loop.Prelude.{
  ℕ, ◌+◌, ◌<◌, ◌≡◌, ap, ◌∙◌, some, List, [], ◌++◌, arith, length, subst,
}
use pypilot_event_loop.Stream.{ByteStream, poll_loop}
use pypilot_event_loop.Stream.Device.{Device, run}
use pypilot_event_loop.Reader.Framing.{Cut, cut, bytes_of, loop_refines}
use pypilot_event_loop.Reader.HeaderPayload.{
  HeaderPayloadProtocolOptions, HeaderPayloadReader, valid_options, take_byte, poll,
}
use pypilot_event_loop.Reader.HeaderPayload.Spec.{Part, IsPart, AllPackets, next, run-packets}
use pypilot_event_loop.Reader.HeaderPayload.Framing.{IsValid, Holds}
use pypilot_event_loop.Reader.HeaderPayload.Steps.{take_byte-next}

module _ {W : Type 0} (buffer_size : ℕ) (options : HeaderPayloadProtocolOptions)
    (payload_of : List ℕ → ℕ) (v : IsValid buffer_size options payload_of) {stream : ByteStream W}
    {call : List ℕ → W → W} (d : Device stream call) (fuel start seen : ℕ)
    (r : HeaderPayloadReader W) (w : W) where
  -- The machine of these options.
  abbrev machine :
      Part options.header_size options.max_payload_size payload_of
      → ℕ
      → List (List ℕ) × Part options.header_size options.max_payload_size payload_of
  machine = next options.header_size options.max_payload_size payload_of

  -- What `poll` leaves, when it delivered `s.0` and holds `s.1`: the bytes of an incomplete
  -- packet, and the number of headers rejected so far.
  pub record Polled (s : Cut (Part options.header_size options.max_payload_size payload_of))
      : Type 0 where
    pub reader : HeaderPayloadReader W
    pub world : W
    pub returns : poll buffer_size stream fuel r w ≡ some (reader, world)
    pub drained : d.queue world ≡ []
    pub logged : d.log world ≡ d.log w ++ s.0
    pub holds :
        Holds buffer_size options payload_of
          (some call)
          s.1
          (start + length s.0)
          (seen + length (d.queue w))
          reader

  poll-loop :
      (p : Part options.header_size options.max_payload_size payload_of)
      → Holds buffer_size options payload_of (some call) p start seen r
      → poll buffer_size stream fuel r w ≡ poll_loop stream (take_byte buffer_size) fuel r w
  unfolding poll valid_options
  poll-loop p k = ground (arith, k.keeps.same_options, v.known, v.positive, v.fits, v.machine)

  -- A reader with valid options, in any state that its bytes can bring it to, on a stream that
  -- holds any bytes: with more fuel than bytes `poll` returns, the stream is drained, and exactly
  -- the packets that the framing machine cuts from the bytes have been delivered, in order. The
  -- counters of messages, bytes and rejected headers are the machine's, no overflow is counted,
  -- and the reader holds what the machine holds.
  pub packet_poll_refines :
      (p : Part options.header_size options.max_payload_size payload_of)
      → d.Ok w
      → length (d.queue w) < fuel
      → Holds buffer_size options payload_of (some call) p start seen r
      → Polled (run (cut machine) ([], p) (d.queue w))
  packet_poll_refines p o enough k =
      let x =
        loop_refines machine d (take_byte buffer_size)
          (Holds buffer_size options payload_of (some call))
          (take_byte-next buffer_size options payload_of (some call) v) fuel start seen p r w o
          enough k in
      record {
        reader = x.reader;
        world = x.world;
        returns = poll-loop p k ∙ x.returns;
        drained = x.drained;
        logged = x.logged;
        holds = x.holds;
      }

  -- A reader with valid options that holds no byte, on a stream that holds whole packets (a header,
  -- and a payload of the size that it announces, within the maximum) and the beginning of another:
  -- with more fuel than bytes `poll` returns, the stream is drained, exactly those packets have
  -- been delivered and counted, in order, no error is counted, and the reader holds the beginning
  -- of the other packet.
  pub poll_packets :
      (ps : List (List ℕ)) (tail : List ℕ)
      → d.Ok w
      → length (d.queue w) < fuel
      → Holds buffer_size options payload_of (some call) ([], 0) start seen r
      → d.queue w ≡ bytes_of ps ++ tail
      → AllPackets options.header_size options.max_payload_size payload_of ps
      → IsPart options.header_size options.max_payload_size payload_of tail
      → Polled (ps, (tail, 0))
  poll_packets ps tail o enough k q h t =
      subst Polled
        (ap (run (cut machine) ([], ([], 0))) q
          ∙ run-packets options.header_size options.max_payload_size payload_of ps tail 0 []
              v.positive h t)
        (packet_poll_refines ([], 0) o enough k)
