-- ===== src/Wifi/Tests.antt =====
-- An ArduinoWiFiTcpConnection of async_event_loop_arduino/arduino_wifi_tcp.hpp over a client that takes
-- at most 8 bytes a write, and a server on it.
use pypilot_event_loop.Prelude.{
  ℕ, ◌≡◌, refl, Bool, true, false, ◌||◌, Option, none, some, List, [], ◌∷◌, ◌++◌, length, take,
  replicate, arith, ltb, length-replicate,
}
use pypilot_event_loop.Wifi.{Client, Connection, at_most, write, flush_loop}
use pypilot_event_loop.Wifi.Output.{TxIsValid}
use pypilot_event_loop.Wifi.Transmission.{Sends, flush_loop-enough, write-Sends}
use pypilot_event_loop.Wifi.Server.{ServerApi, Server, Handler, put, new}

-- What a client has sent, and what it has to read.
pub record Wire : Type 0 where
  pub up : Bool
  pub output : List ℕ
  pub input : List ℕ

abbrev next_byte : List ℕ → Wire → Option ℕ × Wire
next_byte [] x = (none, x)
next_byte (b ∷ bs) x = (some b, record x { input = bs })

abbrev first_byte : List ℕ → Option ℕ
first_byte [] = none
first_byte (b ∷ bs) = some b

abbrev wire : Client Wire
wire = record {
  truthy = λ x. x.up || ltb 0 (length x.input);
  connected = λ x. x.up;
  available = λ x. length x.input;
  read = λ x. next_byte x.input x;
  peek = λ x. first_byte x.input;
  write = λ bs x. let n = at_most 8 (length bs) in (n, record x { output = x.output ++ take n bs });
  available_for_write = λ x. 8;
  stop = λ x. record x { up = false; input = [] };
  remote_ip = λ x. 10 ∷ 0 ∷ 0 ∷ 1 ∷ [];
}

wire-Sends : Sends wire
wire-Sends = record { sent = λ x. x.output; takes = λ bs x. ground arith; sends = λ bs x. refl }

abbrev some_connection : Wire → Connection Wire
some_connection x = record {
  client = x;
  active = true;
  peer = [];
  line = replicate 256 0;
  line_size = 0;
  tx = replicate 1024 0;
  tx_head = 0;
  tx_size = 0;
}

abbrev up_wire : Wire
up_wire = record { up = true; output = []; input = [] }

fresh-TxIsValid : TxIsValid (some_connection up_wire)
fresh-TxIsValid = record {
  storage = length-replicate {A = ℕ} 1024 0;
  head_in = omega arith;
  tail_at = refl;
  within = omega arith;
}

abbrev ten : List ℕ
ten = 0 ∷ 1 ∷ 2 ∷ 3 ∷ 4 ∷ 5 ∷ 6 ∷ 7 ∷ 8 ∷ 9 ∷ []

-- The ten bytes wait; a flush sends eight, and then two.
abbrev written : Connection Wire
written = (write wire true (some ten) (some_connection up_wire)).1

written-TxIsValid : TxIsValid written
written-TxIsValid =
    (write-Sends wire true wire-Sends ten (some_connection up_wire) fresh-TxIsValid refl).1

flush_loop-enough_example :
    flush_loop wire true 3 0 (some_connection up_wire)
    ≡ flush_loop wire true 0 0 (some_connection up_wire)
flush_loop-enough_example = flush_loop-enough wire true 3 0 (some_connection up_wire) (omega arith)

-- A server that is offered the client at its head, and a handler that records its calls.
abbrev offered : List Wire → Wire × List Wire
offered [] = (record up_wire { up = false }, [])
offered (x ∷ xs) = (x, xs)

abbrev offers : ServerApi (List Wire) Wire
offers = record { make = λ port. []; available = offered }

abbrev records : Handler (List Wire) Wire (List ℕ)
records = record {
  on_accept = λ i s w. (s, 0 ∷ i ∷ w);
  on_write_ready = λ i s w. (s, 1 ∷ i ∷ w);
  on_data = λ i s w. (s, 2 ∷ i ∷ w);
  on_close = λ i s w. (s, 3 ∷ i ∷ w);
}

abbrev blank : Connection Wire
blank = record (some_connection (record up_wire { up = false })) { active = false }

-- A server whose first slot is taken by a client that hung up.
abbrev some_server : Server (List Wire) Wire
some_server =
    record (put 0 (some_connection (record up_wire { up = false })) (new wire true blank 2)) {
      server = some (up_wire ∷ []);
      handler = true;
      bound_port = 20220;
      active = true;
    }
