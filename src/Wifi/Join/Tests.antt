-- ===== src/Wifi/Join/Tests.antt =====
-- Runs of the connect loop of arduino_wifi.hpp, on a clock that wraps.
use pypilot_event_loop.Prelude.{
  ℕ, ◌+◌, ◌%◌, ◌^◌, ◌≤◌, ◌≡◌, refl, ◌⊎◌, true, none, some, [], ◌∷◌, leb, arith,
}
use pypilot_event_loop.Wifi.Join.{
  Radio, WiFiConnectOptions, connected, timeout, same_text, wifi_credentials_configured,
  connect_loop, start_connect, connect_wifi_result,
}
use pypilot_event_loop.Wifi.Join.Timeout.{Keeps, IsEnd, latest, connect_wifi_result-Ends}

-- The state is the time; the network is there from `there` on.
abbrev radio : ℕ → Radio ℕ
radio there = record {
  station = λ t. t;
  begin = λ ssid password t. t;
  status = λ t. (leb there t, t);
  millis = λ t. (t % 2 ^ 32, t);
  delay = λ ms t. t + ms;
}

abbrev clock : (there : ℕ) → Keeps (radio there) 0
clock there = record {
  time = λ t. t;
  status_from = λ t. omega arith;
  status_to = λ t. omega arith;
  millis_now = λ t. refl;
  millis_from = λ t. omega arith;
  millis_to = λ t. omega arith;
  delay_from = λ ms t. omega arith;
  delay_to = λ ms t. omega arith;
}

abbrev options : WiFiConnectOptions
options = record {
  ssid = some (110 ∷ 101 ∷ 116 ∷ []);
  password = none;
  timeout_ms = 10;
  poll_interval_ms = 4;
  station_mode = true;
  reject_placeholder_credentials = true;
  placeholder_ssid = some (115 ∷ 115 ∷ []);
}

joins :
    connect_wifi_result (radio 0x100000001) options 11 0xfffffffc ≡ (some connected, 0x100000004)
unfolding connect_wifi_result start_connect wifi_credentials_configured same_text connect_loop
joins = refl

gives_up :
    connect_wifi_result (radio 0x200000000) options 11 0xfffffffc ≡ (some timeout, 0x100000008)
unfolding connect_wifi_result start_connect wifi_credentials_configured same_text connect_loop
gives_up = refl

connect_wifi_result-Ends_example :
    let r = connect_wifi_result (radio 0x200000000) options 11 0xfffffffc in
    let start = start_connect (radio 0x200000000) options 0xfffffffc in
    IsEnd (radio 0x200000000) options (λ t. t) 0xfffffffc start r
    × ((r.1 ≡ 0xfffffffc) ⊎ (r.1 ≤ latest (radio 0x200000000) options 0 start))
connect_wifi_result-Ends_example =
    connect_wifi_result-Ends (radio 0x200000000) options (clock 0x200000000) (omega arith)
      (omega arith) 11 0xfffffffc (omega arith)
