-- ===== src/LinuxTcp/Client/Transfer/Same.antt =====
-- read_line of LinuxTcpClientConnection, async_event_loop_linux/linux_tcp_client.hpp, is that of
-- ArduinoWiFiTcpConnection, async_event_loop_arduino/arduino_wifi_tcp.hpp.
use pypilot_event_loop.Prelude.{
  ℕ, zero, suc, ◌+◌, ◌≡◌, refl, ap, ◌∙◌, Bool, true, false, Option, none, some, List, [], ◌∷◌,
  length, ltb, ◌==◌, if◌then◌else◌, set, arith,
}
use pypilot_event_loop.Wifi.{Client, Connection}
use pypilot_event_loop.Wifi
use pypilot_event_loop.LinuxTcp.Client.Transfer.{
  Outcome, moved, retry, fails, Socket, Stream, line_capacity, result, read_at, read, one_byte,
  line_round, store_byte, line_loop, read_line,
}

-- What the code relies on of a read of one byte from a socket that is not blocking and has no error:
-- the bytes received come one by one, and a call without one changes nothing.
pub record Receives {S : Type 0} (api : Socket S) : Type 0 where
  pub input : S → List ℕ
  pub receives :
      (s : S) (b : ℕ) (bs : List ℕ) → input s ≡ b ∷ bs → (api.recv 1 s).0 ≡ moved (b ∷ [])
  pub leaves : (s : S) (b : ℕ) (bs : List ℕ) → input s ≡ b ∷ bs → input (api.recv 1 s).1 ≡ bs
  pub waits : (s : S) → input s ≡ [] → api.recv 1 s ≡ (retry, s)

abbrev pub byte_of : Outcome (List ℕ) → Option ℕ
byte_of (moved []) = none
byte_of (moved (b ∷ bs)) = some b
byte_of retry = none
byte_of fails = none

if-map :
    {A B : Type 0} (f : B → A) (t : Bool) (x y : A) (x' y' : B)
    → x ≡ f x'
    → y ≡ f y'
    → (if t then x else y) ≡ f (if t then x' else y')
if-map f true x y x' y' h k = h
if-map f false x y x' y' h k = k

module _ {S : Type 0} (api : Socket S) (r : Receives api) where
  -- The socket as a WiFiClient.
  abbrev pub as_client : Client S
  as_client = record {
    truthy = λ s. true;
    connected = λ s. true;
    available = λ s. length (r.input s);
    read = λ s. let (got, s') = api.recv 1 s in (byte_of got, s');
    peek = λ s. none;
    write = λ bs s. (0, s);
    available_for_write = λ s. 0;
    stop = λ s. s;
    remote_ip = λ s. [];
  }

  abbrev pub as_connection : S → List ℕ → ℕ → Connection S
  as_connection s line line_size = record {
    client = s;
    active = true;
    peer = [];
    line = line;
    line_size = line_size;
    tx = [];
    tx_head = 0;
    tx_size = 0;
  }

  abbrev pub stream : S → List ℕ → ℕ → Stream S
  stream s line line_size = record { socket = some s; line = line; line_size = line_size }

  abbrev pub as_stream :
      Option (Option (List ℕ) × Connection S) → Option (Option (List ℕ) × Stream S)
  as_stream none = none
  as_stream (some p) = some (p.0, stream p.1.client p.1.line p.1.line_size)

  module _ (esp : Bool) (max_len : ℕ) (strip_cr : Bool) where
    -- The loops agree with this fuel.
    abbrev pub Agrees : ℕ → Type 0
    Agrees fuel =
        (s : S) (line : List ℕ) (line_size : ℕ)
        → line_loop api fuel max_len strip_cr (stream s line line_size)
          ≡ as_stream
              (Wifi.line_loop as_client esp fuel max_len strip_cr (as_connection s line line_size))

    store_byte-Agrees :
        (fuel : ℕ)
        → Agrees fuel
        → (b : ℕ) (s : S) (line : List ℕ) (line_size : ℕ)
        → line_loop api fuel max_len strip_cr (store_byte api b (stream s line line_size))
          ≡ as_stream (
              Wifi.line_loop as_client esp fuel max_len strip_cr
                (Wifi.store_byte as_client esp b (as_connection s line line_size)))
    store_byte-Agrees fuel h b s line line_size =
        elim (ltb line_size line_capacity)
          as (λ t.
            line_loop api fuel max_len strip_cr
              (if t then stream s (set line line_size b) (line_size + 1) else stream s line 0)
            ≡ as_stream (
                Wifi.line_loop as_client esp fuel max_len strip_cr (
                  if t
                  then as_connection s (set line line_size b) (line_size + 1)
                  else as_connection s line 0))) [
                    | true ↦ h s (set line line_size b) (line_size + 1)
                    | false ↦ h s line 0
                  ]

    round-Agrees : (fuel : ℕ) → Agrees fuel → Agrees (suc fuel)
    unfolding line_loop read read_at Wifi.line_loop
    round-Agrees fuel h s line line_size = at (r.input s) refl
      where
        round : Outcome (List ℕ) → Stream S → Option (Option (List ℕ) × Stream S)
        round o c =
            line_round api (λ x. line_loop api fuel max_len strip_cr x) max_len strip_cr
              (one_byte api (result [] o)) c

        at :
            (bytes : List ℕ)
            → r.input s ≡ bytes
            → line_loop api (suc fuel) max_len strip_cr (stream s line line_size)
              ≡ as_stream (
                  Wifi.line_loop as_client esp
                    (suc fuel)
                    max_len
                    strip_cr
                    (as_connection s line line_size))
        at [] i =
            let e = r.waits s i in ap (λ p. round p.0 (stream p.1 line line_size)) e ∙ rw i refl
        at (b ∷ bs) i =
            let e = r.receives s b bs i in
            let s' = (api.recv 1 s).1 in
            let avail : ltb 0 (length (r.input s)) ≡ true =
              ap (λ l. ltb 0 (length l)) i ∙ ground arith in
            let (l, ended) =
              Wifi.end_line as_client esp max_len strip_cr (as_connection s' line line_size) in
            ap (λ o. round o (stream s' line line_size)) e
            ∙ rw (e, avail)
                (if-map as_stream (b == b'\n') _ _ (some (some l, ended)) _ refl
                  (store_byte-Agrees fuel h b s' line line_size))

    line_loop-Agrees : (fuel : ℕ) → Agrees fuel
    unfolding line_loop Wifi.line_loop
    line_loop-Agrees zero s line line_size = refl
    line_loop-Agrees (suc fuel) s line line_size =
        round-Agrees fuel (line_loop-Agrees fuel) s line line_size

  -- Let the reads of a socket give the bytes received one by one. On any connection with an open
  -- socket `read_line` gives the line, and leaves the socket and the part of a line, that the WiFi
  -- connection gives and leaves on a client with the same bytes and the same part of a line.
  pub read_line-as_stream :
      (esp : Bool) (fuel max_len : ℕ) (strip_cr : Bool) (s : S) (line : List ℕ) (line_size : ℕ)
      → read_line api fuel max_len strip_cr (stream s line line_size)
        ≡ as_stream
            (Wifi.read_line as_client esp fuel max_len strip_cr (as_connection s line line_size))
  unfolding read_line Wifi.read_line
  read_line-as_stream esp fuel max_len strip_cr s line line_size =
      if-map as_stream (max_len == 0) _ _ _ _ refl
        (line_loop-Agrees esp max_len strip_cr fuel s line line_size)
