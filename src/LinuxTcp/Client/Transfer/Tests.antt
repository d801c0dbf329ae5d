-- ===== src/LinuxTcp/Client/Transfer/Tests.antt =====
-- A line on a connection of linux_tcp_client.hpp.
use pypilot_event_loop.Prelude.{
  ◌≡◌, ap, sym, ◌∙◌, true, none, some, List, ℕ, [], ◌∷◌, length, replicate,
}
use pypilot_event_loop.Wifi
use pypilot_event_loop.LinuxTcp.Client.Transfer.{Outcome, moved, retry, Socket, read_line}
use pypilot_event_loop.LinuxTcp.Client.Transfer.Same.{
  Receives, as_client, as_connection, stream, as_stream, read_line-as_stream,
}

abbrev first : List ℕ → Outcome (List ℕ) × List ℕ
first [] = (retry, [])
first (b ∷ bs) = (moved (b ∷ []), bs)

abbrev socket : Socket (List ℕ)
socket = record {
  waiting = λ s. some (length s);
  recv = λ n s. first s;
  recv_peek = λ n s. none;
  send = λ bs s. (moved (length bs), s);
}

abbrev socket_receives : Receives socket
socket_receives = record {
  input = λ s. s;
  receives = λ s b bs i. ap (λ x. (first x).0) i;
  leaves = λ s b bs i. ap (λ x. (first x).1) i;
  waits = λ s i. ap first i ∙ ap (λ x. (retry, x)) (sym i);
}

read_line-as_stream_example :
    read_line socket 4 16 true
      (stream socket socket_receives (b'i' ∷ 13 ∷ 10 ∷ []) (replicate 256 0) 0)
    ≡ as_stream socket socket_receives (
        Wifi.read_line
          (as_client socket socket_receives)
          true
          4
          16
          true
          (as_connection socket socket_receives (b'i' ∷ 13 ∷ 10 ∷ []) (replicate 256 0) 0))
read_line-as_stream_example =
    read_line-as_stream socket socket_receives true 4 16 true (b'i' ∷ 13 ∷ 10 ∷ [])
      (replicate 256 0) 0
