-- ===== src/LinuxTcp/Transfer/Tests.antt =====
-- Transfers of the connections of linux_tcp_server.hpp and arduino_wifi_tcp.hpp.
use pypilot_event_loop.Prelude.{
  ℕ, ◌≡◌, refl, ap, true, Option, none, some, List, [], ◌∷◌, ◌++◌, length, length-replicate, take,
  drop, replicate, ◌==◌, if◌then◌else◌, arith,
}
use pypilot_event_loop.Wifi.{Client, Connection}
use pypilot_event_loop.Wifi
use pypilot_event_loop.Wifi.Lines.{Reads, HasNo}
use pypilot_event_loop.LinuxTcp.Transfer.{Bufferevents, read, peek, read_exact, read_line}
use pypilot_event_loop.LinuxTcp.Transfer.Queue.{IsQueue, input, read-take}
use pypilot_event_loop.LinuxTcp.Transfer.Same.{read_line-Same}

-- The line in front of the first line feed, and what is behind it.
abbrev add_front : ℕ → Option (List ℕ × List ℕ) → Option (List ℕ × List ℕ)
add_front b none = none
add_front b (some p) = some (b ∷ p.0, p.1)

abbrev split : List ℕ → Option (List ℕ × List ℕ)
split [] = none
split (b ∷ bs) = let rest = split bs in if b == b'\n' then some ([], bs) else add_front b rest

abbrev line_of : Option (List ℕ × List ℕ) → List ℕ → Option (List ℕ) × List ℕ
line_of none bytes = (none, bytes)
line_of (some p) bytes = (some p.0, p.1)

split-line :
    (line rest : List ℕ) → HasNo b'\n' line → split (line ++ b'\n' ∷ rest) ≡ some (line, rest)
split-line [] rest h = refl
split-line (b ∷ bs) rest (here, h) = let ih = split-line bs rest h in rw (here, ih) refl

split-none : (bytes : List ℕ) → HasNo b'\n' bytes → split bytes ≡ none
split-none [] h = refl
split-none (b ∷ bs) (here, h) = let ih = split-none bs h in rw (here, ih) refl

-- A bufferevent whose buffers are lists: here its input.
abbrev buffers : Bufferevents (List ℕ)
buffers = record {
  input_length = λ b. length b;
  output_length = λ b. 0;
  remove = λ n b. (some (take n b), drop n b);
  copyout = λ n b. some (take n b);
  readln = λ b. line_of (split b) b;
  write_bytes = λ src b. (true, b);
  setwatermark_read = λ low high b. b;
  setwatermark_write = λ low high b. b;
  set_bev_timeouts = λ read write b. b;
}

abbrev buffers_queue : IsQueue buffers
buffers_queue = record {
  contents = λ b. b;
  counts = λ b. refl;
  copies = λ n b. refl;
  removes = λ n b. refl;
  leaves = λ n b. refl;
  reads_line = λ b line rest i h. rw (i, split-line line rest h) (refl, refl);
  no_line = λ b h. rw (split-none b h) refl;
}

-- "hi", a CR and a line feed, and the beginning of another line.
abbrev greeting : List ℕ
greeting = 104 ∷ 105 ∷ 13 ∷ 10 ∷ 98 ∷ []

read-take_example :
    ((read buffers 2 (some greeting)).0 ≡ some (104 ∷ 105 ∷ []))
    × (input buffers buffers_queue (read buffers 2 (some greeting)).1 ≡ 13 ∷ 10 ∷ 98 ∷ [])
    × (peek buffers 6 (some greeting) ≡ none)
    × ((read_exact buffers 6 (some greeting)).0 ≡ none)
    × (input buffers buffers_queue (read_exact buffers 6 (some greeting)).1 ≡ greeting)
read-take_example = read-take buffers buffers_queue 6 2 greeting

abbrev byte_of : List ℕ → Option ℕ × List ℕ
byte_of [] = (none, [])
byte_of (b ∷ bs) = (some b, bs)

abbrev wifi : Client (List ℕ)
wifi = record {
  truthy = λ x. true;
  connected = λ x. true;
  available = λ x. length x;
  read = byte_of;
  peek = λ x. none;
  write = λ bs x. (length bs, x);
  available_for_write = λ x. 8;
  stop = λ x. x;
  remote_ip = λ x. [];
}

abbrev wifi_reads : Reads wifi
wifi_reads = record {
  input = λ x. x;
  counts = λ x. refl;
  reads = λ x b bs e. ap (λ y. (byte_of y).0) e;
  leaves = λ x b bs e. ap (λ y. (byte_of y).1) e;
}

abbrev joined : Connection (List ℕ)
joined = record {
  client = greeting;
  active = true;
  peer = [];
  line = replicate 256 0;
  line_size = 0;
  tx = replicate 1024 0;
  tx_head = 0;
  tx_size = 0;
}

read_line-Same_example :
    let (line, bev) = read_line buffers 64 true (some greeting) in
    (c' : Connection (List ℕ)) × (Wifi.read_line wifi true 5 64 true joined ≡ some (line, c'))
    × (c'.client ≡ input buffers buffers_queue bev)
read_line-Same_example =
    read_line-Same wifi true buffers wifi_reads buffers_queue 5 64 true joined greeting
      (104 ∷ 105 ∷ 13 ∷ []) (98 ∷ [])
      (record { storage = length-replicate {A = ℕ} 256 0; within = omega arith }) refl refl refl
      (refl, (refl, (refl, tt))) (omega arith) (omega arith) (omega arith)
