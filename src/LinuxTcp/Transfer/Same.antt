-- ===== src/LinuxTcp/Transfer/Same.antt =====
-- read_line of LinuxTcpConnection, async_event_loop_linux/linux_tcp_server.hpp, and of
-- ArduinoWiFiTcpConnection, async_event_loop_arduino/arduino_wifi_tcp.hpp.
use pypilot_event_loop.Prelude.{
  ℕ, ◌≤◌, ◌<◌, ◌≡◌, sym, ap, ◌∙◌, Bool, some, List, ◌∷◌, ◌++◌, length, take, arith,
}
use pypilot_event_loop.Wifi.{Client, Connection, line_capacity}
use pypilot_event_loop.Wifi
use pypilot_event_loop.Wifi.Lines.{Reads, cut_line, HasNo, LineIsValid, read_line-cut_line}
use pypilot_event_loop.LinuxTcp.Transfer.{Bufferevents, read_line}
use pypilot_event_loop.LinuxTcp.Transfer.Queue.{IsQueue, input, read_line-trim}

-- Let a WiFi connection, which has kept no part of a line, and a Linux connection have the same
-- bytes at hand, a line of at most 256 bytes and its line feed in front. `read_line` gives the same
-- line on both, with the same choice on CR and the same room in the caller's array, and leaves the
-- same bytes.
pub read_line-Same :
    {C B : Type 0} (wifi : Client C) (esp : Bool) (linux : Bufferevents B) (r : Reads wifi)
    (q : IsQueue linux) (fuel max_len : ℕ) (strip_cr : Bool) (c : Connection C) (b : B)
    (line rest : List ℕ)
    → LineIsValid wifi esp c
    → c.line_size ≡ 0
    → r.input c.client ≡ q.contents b
    → q.contents b ≡ line ++ b'\n' ∷ rest
    → HasNo b'\n' line
    → length line ≤ line_capacity
    → length line < fuel
    → 0 < max_len
    → let (line', bev) = read_line linux max_len strip_cr (some b) in
      (c' : Connection C) × (Wifi.read_line wifi esp fuel max_len strip_cr c ≡ some (line', c'))
      × (r.input c'.client ≡ input linux q bev)
read_line-Same wifi esp linux r q fuel max_len strip_cr c b line rest v none_kept same i clean fits
      f room =
    let (given, kept) = read_line-trim linux q max_len strip_cr b line rest room i clean in
    let (c', done, left, _) =
      read_line-cut_line wifi esp r fuel max_len strip_cr c line rest v (same ∙ i) clean
        (omega (arith, none_kept, fits)) f room in
    let no_part = ap (λ n. take n c.line) none_kept in
    (
      c',
      done
          ∙ ap (λ l. some (some (cut_line max_len strip_cr (l ++ line)), c')) no_part
          ∙ ap (λ l. some (l, c')) (sym given),
      left ∙ sym kept,
    )
