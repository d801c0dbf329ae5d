-- ===== src/Wifi/Join/Timeout.antt =====
-- The connect loop of arduino_wifi.hpp comes to an end, within its time, across a wrap of millis.
use pypilot_event_loop.Prelude.{
  ℕ, zero, suc, ◌+◌, ◌-◌, ◌%◌, ◌^◌, ◌≤◌, ◌<◌, ◌≡◌, refl, Bool, true, false, Option, none, some,
  sub32, leb, leb→le, leb→gt, inl, inr, subst, sym, ◌*◌, ap, ◌⊎◌, ◌&&◌, not, branch, arith,
}
use pypilot_event_loop.Wifi.Join.{
  Radio, WiFiConnectOptions, WiFiConnectResult, connected, missing_credentials, timeout,
  wifi_credentials_configured, connect_loop, start_connect, connect_wifi_result,
}

-- The time of the state W in milliseconds. `millis` is the time in 32 bits, `delay` takes as long as
-- it is asked to, and nothing takes more than `lag` beside that.
pub record Keeps {W : Type 0} (radio : Radio W) (lag : ℕ) : Type 0 where
  pub time : W → ℕ
  pub status_from : (w : W) → time w ≤ time (radio.status w).1
  pub status_to : (w : W) → time (radio.status w).1 ≤ time w + lag
  pub millis_now : (w : W) → (radio.millis w).0 ≡ time w % 2 ^ 32
  pub millis_from : (w : W) → time w ≤ time (radio.millis w).1
  pub millis_to : (w : W) → time (radio.millis w).1 ≤ time w + lag
  pub delay_from : (ms : ℕ) (w : W) → time w + ms ≤ time (radio.delay ms w)
  pub delay_to : (ms : ℕ) (w : W) → time (radio.delay ms w) ≤ time w + ms + lag

refused : (a b : Bool) → (a && not b) ≡ true → (a ≡ true) × (b ≡ false)
refused true true h = ground arith
refused true false h = (refl, refl)
refused false b h = ground arith

module _ {W : Type 0} (radio : Radio W) (options : WiFiConnectOptions) where
  -- What a connect from `w0` that starts at time `start` may return: connected, as its last test of
  -- the status says; missing credentials, without a change; a timeout, not before its time.
  abbrev pub IsEnd : (W → ℕ) → W → ℕ → Option WiFiConnectResult × W → Type 0
  IsEnd time w0 start (none, w) = ⊥
  IsEnd time w0 start (some connected, w) = (before : W) × (radio.status before ≡ (true, w))
  IsEnd time w0 start (some missing_credentials, w) =
      (options.reject_placeholder_credentials ≡ true)
      × (wifi_credentials_configured options.ssid options.placeholder_ssid ≡ false)
      × (w ≡ w0)
  IsEnd time w0 start (some timeout, w) = start + options.timeout_ms ≤ time w

  -- The latest end.
  abbrev pub latest : ℕ → ℕ → ℕ
  latest lag start = start + options.timeout_ms + options.poll_interval_ms + 4 * lag

  module _ {lag : ℕ} (clock : Keeps radio lag) (interval : 1 ≤ options.poll_interval_ms)
      (fits : options.timeout_ms + options.poll_interval_ms + 3 * lag < 2 ^ 32) where
    abbrev Ends : W → ℕ → Option WiFiConnectResult × W → Type 0
    Ends w0 start r = IsEnd clock.time w0 start r × (clock.time r.1 ≤ latest lag start)

    -- The difference of two readings is the time between them.
    elapsed :
        (start : ℕ) (w : W)
        → start ≤ clock.time w
        → clock.time w < start + 2 ^ 32
        → sub32 (radio.millis w).0 (start % 2 ^ 32) ≡ clock.time w - start
    elapsed start w h k = omega (arith, clock.millis_now w)

    connect_loop-Ends :
        (w0 : W) (start fuel : ℕ) (w : W)
        → start ≤ clock.time w
        → clock.time w ≤ start + options.timeout_ms + options.poll_interval_ms + 2 * lag
        → 0 < fuel
        → start + options.timeout_ms < fuel + clock.time w
        → Ends w0 start (connect_loop radio options fuel (start % 2 ^ 32) w)
    unfolding connect_loop
    connect_loop-Ends w0 start zero w h k p f = elim p [ ]
    connect_loop-Ends w0 start (suc fuel) w h k p f =
        let (is_connected, w1) = radio.status w in
        let (now, w2) = radio.millis w1 in
        let w3 = radio.delay options.poll_interval_ms w2 in
        let t1 = clock.status_from w in
        let t1' = clock.status_to w in
        let t2 = clock.millis_from w1 in
        let t2' = clock.millis_to w1 in
        let t3 = clock.delay_from options.poll_interval_ms w2 in
        let t3' = clock.delay_to options.poll_interval_ms w2 in
        let passed = elapsed start w1 (omega arith) (omega arith) in
        branch (Ends w0 start) is_connected _ _ (λ e. ((w, ap (λ b. (b, w1)) e), omega arith))
          (λ _.
            branch (Ends w0 start) (leb options.timeout_ms (sub32 now (start % 2 ^ 32))) _ _
              (λ l. let late = leb→le _ _ l in (omega arith, omega arith))
              (λ g.
                let early = leb→gt _ _ g in
                connect_loop-Ends w0 start fuel w3 (omega arith) (omega arith) (omega arith)
                  (omega arith)))

    -- Let `millis` be the time in 32 bits and `delay` take the time that it is given, no call take
    -- more than `lag` beside that, the interval be at least 1, and timeout, interval and three lags
    -- fit in 32 bits; the time may wrap in between. With more fuel than the timeout a connect
    -- returns. It is connected only as its last test of the status says; it reports missing
    -- credentials only if they are to be rejected and are not configured, and then changes nothing;
    -- and a timeout only when the timeout has passed since the start. It returns within timeout,
    -- interval and four lags of the start.
    pub connect_wifi_result-Ends :
        (fuel : ℕ) (w : W)
        → options.timeout_ms < fuel
        → let r = connect_wifi_result radio options fuel w in
          let start = clock.time (start_connect radio options w) in
          IsEnd clock.time w start r × ((r.1 ≡ w) ⊎ (clock.time r.1 ≤ latest lag start))
    unfolding connect_wifi_result
    connect_wifi_result-Ends fuel w f =
        let w' = start_connect radio options w in
        let start = clock.time w' in
        let from = clock.millis_from w' in
        let to = clock.millis_to w' in
        let end =
          subst (λ now. Ends w start (connect_loop radio options fuel now (radio.millis w').1))
            (sym (clock.millis_now w'))
            (connect_loop-Ends w start fuel (radio.millis w').1 (omega arith) (omega arith)
              (omega arith) (omega arith)) in
        branch (λ r. IsEnd clock.time w start r × ((r.1 ≡ w) ⊎ (clock.time r.1 ≤ latest lag start)))
          _ _ _ (λ e. let (reject, missing) = refused _ _ e in ((reject, missing, refl), inl refl))
          (λ _. (end.0, inr end.1))
