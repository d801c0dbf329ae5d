-- ===== src/Tcp/Monitor/Report.antt =====
-- When the monitor reports a connection.
use pypilot_event_loop.Prelude.{
  ◌+◌, ◌^◌, ◌≤◌, ◌<◌, ◌≡◌, refl, ap, ap₂, ◌∙◌, ◌⊎◌, true, false, List, [], ◌∷◌, ◌++◌, arith, length,
  replicate,
}
use pypilot_event_loop.Tcp.Monitor.{
  TcpBackpressureOptions, TcpBackpressureMonitor, Connection, reset, observe, trigger_polls, check,
  checks,
}

-- The connection is valid and has more than the high mark to send.
abbrev pub IsOver : TcpBackpressureOptions → Connection → Type 0
IsOver options c = (c.valid ≡ true) × (options.high_water_bytes < c.output_size)

-- It has not come down to the low mark, or is not valid.
abbrev pub IsNotRecovered : TcpBackpressureOptions → Connection → Type 0
IsNotRecovered options c =
    (c.valid ≡ false)
    ⊎ ((options.high_water_bytes < c.output_size) ⊎ (options.low_water_bytes < c.output_size))

abbrev pub AllOver : TcpBackpressureOptions → List Connection → Type 0
AllOver options [] = Unit {0}
AllOver options (c ∷ cs) = IsOver options c × AllOver options cs

abbrev pub AllNotRecovered : TcpBackpressureOptions → List Connection → Type 0
AllNotRecovered options [] = Unit {0}
AllNotRecovered options (c ∷ cs) = IsNotRecovered options c × AllNotRecovered options cs

-- A check before the limit, at the limit, and behind a report.
check_below :
    (c : Connection) (m : TcpBackpressureMonitor)
    → m.options.enabled ≡ true
    → m.reported ≡ false
    → m.over_high_polls + 1 < trigger_polls m.options
    → trigger_polls m.options < 2 ^ 32
    → IsOver m.options c
    → ((check c m).0 ≡ false)
      × ((check c m).2 ≡ record m { over_high_polls = m.over_high_polls + 1 })
unfolding check observe
check_below c m on new below machine over = ground (arith, on, new, below, machine, over)

check_limit :
    (c : Connection) (m : TcpBackpressureMonitor)
    → m.options.enabled ≡ true
    → m.reported ≡ false
    → m.over_high_polls + 1 ≡ trigger_polls m.options
    → trigger_polls m.options < 2 ^ 32
    → IsOver m.options c
    → ((check c m).0 ≡ true) × ((check c m).2.reported ≡ true) × ((check c m).2.options ≡ m.options)
unfolding check observe
check_limit c m on new limit machine over = ground (arith, on, new, limit, machine, over)

check_reported :
    (c : Connection) (m : TcpBackpressureMonitor)
    → m.reported ≡ true
    → IsNotRecovered m.options c
    → ((check c m).0 ≡ false)
      × ((check c m).2.reported ≡ true)
      × ((check c m).2.options ≡ m.options)
unfolding check observe
check_reported c m old high = ground (arith, old, high)

-- Once a report has been made none follows until the connection has recovered.
silent :
    (cs : List Connection) (m : TcpBackpressureMonitor)
    → m.reported ≡ true
    → AllNotRecovered m.options cs
    → (checks m cs).0 ≡ replicate (length cs) false
unfolding checks
silent [] m old h = refl
silent (c ∷ cs) m old (h, hs) =
    let (quiet, still, same) = check_reported c m old h in
    ap₂ ◌∷◌ quiet (silent cs (check c m).2 still (rw same hs))

-- The checks up to the report, and those behind it.
reports :
    (cs : List Connection) (c : Connection) (ds : List Connection) (m : TcpBackpressureMonitor)
    → m.options.enabled ≡ true
    → m.reported ≡ false
    → m.over_high_polls + length cs + 1 ≡ trigger_polls m.options
    → trigger_polls m.options < 2 ^ 32
    → AllOver m.options cs
    → IsOver m.options c
    → AllNotRecovered m.options ds
    → (checks m (cs ++ c ∷ ds)).0
      ≡ replicate (length cs) false ++ true ∷ replicate (length ds) false
unfolding checks
reports [] c ds m on new limit machine hs h ks =
    let (loud, old, same) = check_limit c m on new (omega (arith, limit)) machine h in
    ap₂ ◌∷◌ loud (silent ds (check c m).2 old (rw same ks))
reports (b ∷ cs) c ds m on new limit machine (h', hs) h ks =
    let m' = record m { over_high_polls = m.over_high_polls + 1 } in
    let (quiet, e) = check_below b m on new (omega (arith, limit)) machine h' in
    ap₂ ◌∷◌ quiet (
      ap (λ x. (checks x (cs ++ c ∷ ds)).0) e
      ∙ reports cs c ds m' on new (omega (arith, limit)) machine hs h ks)

-- An enabled monitor just reset, checked on a valid connection that stays over the high mark,
-- reports it at the check whose number is the limit (1 for a limit of 0), not before, and not again
-- as long as the connection does not come down to the low mark, however often it is checked.
pub reports_once :
    (m : TcpBackpressureMonitor) (cs : List Connection) (c : Connection) (ds : List Connection)
    → m.options.enabled ≡ true
    → length cs + 1 ≡ trigger_polls m.options
    → trigger_polls m.options < 2 ^ 32
    → AllOver m.options cs
    → IsOver m.options c
    → AllNotRecovered m.options ds
    → (checks (reset m) (cs ++ c ∷ ds)).0
      ≡ replicate (length cs) false ++ true ∷ replicate (length ds) false
unfolding reset
reports_once m cs c ds on limit machine hs h ks =
    reports cs c ds (reset m) on refl (omega (arith, limit)) machine hs h ks

-- A check of a valid connection that is at the low mark or below, the low mark not above the high
-- one, does not report, and leaves an enabled monitor as one just reset.
pub recovers :
    (c : Connection) (m : TcpBackpressureMonitor)
    → m.options.enabled ≡ true
    → c.valid ≡ true
    → m.options.low_water_bytes ≤ m.options.high_water_bytes
    → c.output_size ≤ m.options.low_water_bytes
    → ((check c m).0 ≡ false) × ((check c m).2 ≡ reset m)
unfolding check observe reset
recovers c m on valid marks low = ground (arith, on, valid, marks, low)
