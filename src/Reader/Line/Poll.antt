-- ===== src/Reader/Line/Poll.antt =====
-- `LineProtocolReader::poll` drains its stream and delivers the lines.
use pypilot_event_loop.Prelude.{ℕ, ◌+◌, ◌<◌, ◌≡◌, ap, ◌∙◌, some, List, [], ◌++◌, length, subst}
use pypilot_event_loop.Stream.{ByteStream}
use pypilot_event_loop.Stream.Device.{Device, run}
use pypilot_event_loop.Reader.Framing.{Cut, cut, loop_refines}
use pypilot_event_loop.Reader.Line.{LineProtocolOptions, LineReader, take_byte, poll}
use pypilot_event_loop.Reader.Line.Spec.{next, AllLines, unlines, messages_of, run-unlines}
use pypilot_event_loop.Reader.Line.Framing.{Holds, take_byte-next}

module _ {W : Type 0} (buffer_size : ℕ) (options : LineProtocolOptions) {stream : ByteStream W}
    {call : List ℕ → W → W} (d : Device stream call) (fuel start seen : ℕ) (r : LineReader W)
    (w : W) (okay : d.Ok w) (enough : length (d.queue w) < fuel) where
  -- What `poll` leaves, when it cut the messages `out` and the candidate line `line`.
  pub record Polled (out : List (List ℕ)) (line : List ℕ) : Type 0 where
    pub reader : LineReader W
    pub world : W
    pub returns : poll buffer_size stream fuel r w ≡ some (reader, world)
    pub drained : d.queue world ≡ []
    pub logged : d.log world ≡ d.log w ++ out
    pub holds :
        Holds buffer_size options
          (some call)
          line
          (start + length out)
          (seen + length (d.queue w))
          reader

  -- On a stream that holds any bytes, a reader that holds the candidate line `line` polls to the
  -- end: with more fuel than bytes the loop returns, the stream is drained, exactly the messages
  -- that the line machine cuts from the bytes have been delivered and counted, in order, and the
  -- reader's array, within its bounds, holds the machine's candidate line.
  pub poll_refines :
      (line : List ℕ)
      → Holds buffer_size options (some call) line start seen r
      → let s = run (cut (next buffer_size options)) ([], line) (d.queue w) in Polled s.0 s.1
  unfolding poll
  poll_refines line v =
      let x =
        loop_refines (next buffer_size options) d (take_byte buffer_size)
          (Holds buffer_size options (some call)) (take_byte-next buffer_size options (some call))
          fuel start seen line r w okay enough v in
      record {
        reader = x.reader;
        world = x.world;
        returns = x.returns;
        drained = x.drained;
        logged = x.logged;
        holds = x.holds;
      }

  -- On a stream that holds whole lines, free of the delimiter and either all within the buffer or
  -- under the truncating policy, a reader with an empty candidate line delivers and counts exactly
  -- one message for each line, in order: its first `buffer_size` bytes, less a final CR if that is
  -- stripped. The loop returns, and the stream and the candidate line are empty.
  pub poll_lines :
      (ls : List (List ℕ))
      → Holds buffer_size options (some call) [] start seen r
      → d.queue w ≡ unlines buffer_size options ls
      → AllLines buffer_size options ls
      → Polled (messages_of buffer_size options ls) []
  poll_lines ls v q h =
      let cuts : run (cut (next buffer_size options)) ([], []) (d.queue w)
          ≡ (messages_of buffer_size options ls, []) =
        ap (run (cut (next buffer_size options)) ([], [])) q
        ∙ run-unlines buffer_size options ls [] h in
      subst (λ (s : Cut (List ℕ)). Polled s.0 s.1) cuts (poll_refines [] v)
