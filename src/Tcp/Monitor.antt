-- ===== src/Tcp/Monitor.antt =====
-- TcpBackpressureMonitor of async_event_loop/tcp.hpp.
pub mod Report
use pypilot_event_loop.Prelude.{
  ℕ, ◌+◌, Bool, true, false, not, ◌&&◌, ◌||◌, Option, none, some, ltb, leb, ◌==◌, if◌then◌else◌,
  uint32_max, List, [], ◌∷◌,
}

pub record TcpBackpressureOptions : Type 0 where
  pub enabled : Bool
  pub high_water_bytes : ℕ
  pub low_water_bytes : ℕ
  pub max_over_high_polls : ℕ
  pub close_on_limit : Bool

abbrev pub disabled : TcpBackpressureOptions
disabled = record {
  enabled = false;
  high_water_bytes = 32768;
  low_water_bytes = 8192;
  max_over_high_polls = 3;
  close_on_limit = true;
}

abbrev pub server_default : TcpBackpressureOptions
server_default = record disabled { enabled = true }

abbrev pub embedded_default : TcpBackpressureOptions
embedded_default = record disabled {
  enabled = true;
  high_water_bytes = 768;
  low_water_bytes = 256;
  max_over_high_polls = 2;
}

pub record TcpBackpressureInfo : Type 0 where
  pub pending_bytes : ℕ
  pub high_water_bytes : ℕ
  pub low_water_bytes : ℕ
  pub over_high_polls : ℕ
  pub close_on_limit : Bool

pub record TcpBackpressureMonitor : Type 0 where
  pub options : TcpBackpressureOptions
  pub over_high_polls : ℕ
  pub reported : Bool

-- What the monitor reads of an ITcpConnection.
pub record Connection : Type 0 where
  pub valid : Bool
  pub output_size : ℕ

pub new : TcpBackpressureOptions → TcpBackpressureMonitor
new options = record { options = options; over_high_polls = 0; reported = false }

unfoldable pub reset : TcpBackpressureMonitor → TcpBackpressureMonitor
reset m = record m { over_high_polls = 0; reported = false }

unfoldable pub configure : TcpBackpressureOptions → TcpBackpressureMonitor → TcpBackpressureMonitor
unfolding reset
configure options m = reset (record m { options = options })

unfoldable pub fill_info : TcpBackpressureMonitor → Connection → TcpBackpressureInfo
fill_info m c = record {
  pending_bytes = if c.valid then c.output_size else 0;
  high_water_bytes = m.options.high_water_bytes;
  low_water_bytes = m.options.low_water_bytes;
  over_high_polls = m.over_high_polls;
  close_on_limit = m.options.close_on_limit;
}

-- The counter and the flag after a look at `pending` bytes.
unfoldable pub observe : ℕ → TcpBackpressureMonitor → TcpBackpressureMonitor
observe pending m =
    if ltb m.options.high_water_bytes pending
    then (if ltb m.over_high_polls uint32_max
        then record m { over_high_polls = m.over_high_polls + 1 }
        else m)
    else if leb pending m.options.low_water_bytes
    then record m { over_high_polls = 0; reported = false }
    else m

abbrev pub trigger_polls : TcpBackpressureOptions → ℕ
trigger_polls options = if options.max_over_high_polls == 0 then 1 else options.max_over_high_polls

-- `check`: its result, what it writes to `info`, and the monitor after it.
unfoldable pub check :
    Connection → TcpBackpressureMonitor → Bool × TcpBackpressureInfo × TcpBackpressureMonitor
unfolding fill_info observe
check c m =
    if not m.options.enabled || not c.valid
    then (false, fill_info m c, m)
    else let m' = observe c.output_size m in
      if leb (trigger_polls m'.options) m'.over_high_polls && not m'.reported
      then (true, fill_info m' c, record m' { reported = true })
      else (false, fill_info m' c, m')

-- The results of successive checks, and the monitor after the last.
pub checks : TcpBackpressureMonitor → List Connection → List Bool × TcpBackpressureMonitor
checks m [] = ([], m)
checks m (c ∷ cs) = let (b, info, m') = check c m in let (bs, m'') = checks m' cs in (b ∷ bs, m'')
