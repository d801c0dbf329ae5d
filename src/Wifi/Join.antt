-- ===== src/Wifi/Join.antt =====
-- async_event_loop_arduino/arduino_wifi.hpp: joining a network. The WiFi library and the clock are a
-- Radio on a state W. Strings are lists of characters, and `none` for a null pointer.
pub mod Timeout
mod Tests
use pypilot_event_loop.Prelude.{
  ℕ, zero, suc, Bool, true, false, not, ◌&&◌, Option, none, some, List, [], ◌∷◌, ◌==◌, leb, sub32,
  if◌then◌else◌,
}

-- `status` is the test `WiFi.status() == WL_CONNECTED`.
pub record Radio (W : Type 0) : Type 0 where
  pub station : W → W
  pub begin : List ℕ → List ℕ → W → W
  pub status : W → Bool × W
  pub millis : W → ℕ × W
  pub delay : ℕ → W → W

pub record WiFiConnectOptions : Type 0 where
  pub ssid : Option (List ℕ)
  pub password : Option (List ℕ)
  pub timeout_ms : ℕ
  pub poll_interval_ms : ℕ
  pub station_mode : Bool
  pub reject_placeholder_credentials : Bool
  pub placeholder_ssid : Option (List ℕ)

pub data WiFiConnectResult : Type 0 where
  connected : WiFiConnectResult
  missing_credentials : WiFiConnectResult
  timeout : WiFiConnectResult

-- `strcmp(a, b) == 0`.
unfoldable pub same_text : List ℕ → List ℕ → Bool
same_text [] [] = true
same_text [] (b ∷ rest) = false
same_text (a ∷ rest) [] = false
same_text (a ∷ rest) (b ∷ rest') = (a == b) && same_text rest rest'

unfoldable pub wifi_credentials_configured : Option (List ℕ) → Option (List ℕ) → Bool
unfolding same_text
wifi_credentials_configured none placeholder_ssid = false
wifi_credentials_configured (some []) placeholder_ssid = false
wifi_credentials_configured (some (c ∷ cs)) none = true
wifi_credentials_configured (some (c ∷ cs)) (some []) = true
wifi_credentials_configured (some (c ∷ cs)) (some (p ∷ ps)) = not (same_text (c ∷ cs) (p ∷ ps))

abbrev pub text_or_empty : Option (List ℕ) → List ℕ
text_or_empty none = []
text_or_empty (some text) = text

module _ {W : Type 0} (radio : Radio W) (options : WiFiConnectOptions) where
  -- The loop; `none`: it goes on when the fuel is used up.
  unfoldable pub connect_loop : ℕ → ℕ → W → Option WiFiConnectResult × W
  connect_loop zero start_ms w = (none, w)
  connect_loop (suc fuel) start_ms w =
      let (is_connected, w1) = radio.status w in
      let (now, w2) = radio.millis w1 in
      let rest = connect_loop fuel start_ms (radio.delay options.poll_interval_ms w2) in
      if is_connected
      then (some connected, w1)
      else (if leb options.timeout_ms (sub32 now start_ms) then (some timeout, w2) else rest)

  unfoldable pub start_connect : W → W
  start_connect w =
      radio.begin (text_or_empty options.ssid) (text_or_empty options.password)
        (if options.station_mode then radio.station w else w)

  unfoldable pub connect_wifi_result : ℕ → W → Option WiFiConnectResult × W
  unfolding wifi_credentials_configured connect_loop start_connect
  connect_wifi_result fuel w =
      let (start_ms, w') = radio.millis (start_connect w) in
      let rest = connect_loop fuel start_ms w' in
      if options.reject_placeholder_credentials
        && not (wifi_credentials_configured options.ssid options.placeholder_ssid)
      then (some missing_credentials, w)
      else rest

  unfoldable pub connect_wifi : ℕ → W → Option Bool × W
  unfolding connect_wifi_result
  connect_wifi fuel w =
      let (result, w') = connect_wifi_result fuel w in
      (
        elim result [
          | none ↦ none
          | some connected ↦ some true
          | some missing_credentials ↦ some false
          | some timeout ↦ some false
        ],
        w',
      )
