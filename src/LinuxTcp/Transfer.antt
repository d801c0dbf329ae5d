-- ===== src/LinuxTcp/Transfer.antt =====
-- The transfers of LinuxTcpConnection, async_event_loop_linux/linux_tcp_server.hpp, over the buffers
-- of libevent. `none` in place of a bufferevent is the null pointer. The caller's array is not null;
-- with a null one a transfer returns at once, as it does on a connection that is closed.
pub mod Queue
pub mod Same
mod Tests
use pypilot_event_loop.Prelude.{
  ℕ, Bool, true, false, Option, none, some, List, [], ltb, ◌==◌, ◌||◌, not, if◌then◌else◌, length,
  ◌&&◌, ◌-◌, get_or, take,
}
use pypilot_event_loop.Libevent.{Timeval}
use pypilot_event_loop.LinuxTcp.{timeout_ms}

-- What the code calls of libevent: the lengths, evbuffer_remove and evbuffer_copyout of the input
-- (`none` for -1), evbuffer_readln with EVBUFFER_EOL_LF (`none` for null), bufferevent_write
-- (`true` for 0), and the settings.
pub record Bufferevents (B : Type 0) : Type 0 where
  pub input_length : B → ℕ
  pub output_length : B → ℕ
  pub remove : ℕ → B → Option (List ℕ) × B
  pub copyout : ℕ → B → Option (List ℕ)
  pub readln : B → Option (List ℕ) × B
  pub write_bytes : List ℕ → B → Bool × B
  pub setwatermark_read : ℕ → ℕ → B → B
  pub setwatermark_write : ℕ → ℕ → B → B
  pub set_bev_timeouts : Option Timeval → Option Timeval → B → B

pub record TcpWatermarkOptions : Type 0 where
  pub read_low : ℕ
  pub read_high : ℕ
  pub write_low : ℕ
  pub write_high : ℕ

-- The bytes that came, if they are as many as were asked for.
abbrev pub exactly : ℕ → Option (List ℕ) → Option (List ℕ)
exactly len none = none
exactly len (some bytes) = if length bytes == len then some bytes else none

module _ {B : Type 0} (api : Bufferevents B) where
  unfoldable pub input_size : Option B → ℕ
  input_size none = 0
  input_size (some b) = api.input_length b

  unfoldable pub output_size : Option B → ℕ
  output_size none = 0
  output_size (some b) = api.output_length b

  -- The bytes read, `none` for -1.
  unfoldable pub read : ℕ → Option B → Option (List ℕ) × Option B
  read max_len none = (some [], none)
  read max_len (some b) =
      let (bytes, b') = api.remove max_len b in
      if max_len == 0 then (some [], some b) else (bytes, some b')

  -- The number of bytes written, `none` for -1.
  unfoldable pub write : List ℕ → Option B → Option ℕ × Option B
  write src none = (some 0, none)
  write src (some b) =
      let (done, b') = api.write_bytes src b in
      if length src == 0
      then (some 0, some b)
      else (if done then (some (length src), some b') else (none, some b'))

  -- The bytes for the result true.
  unfoldable pub peek : ℕ → Option B → Option (List ℕ)
  unfolding input_size
  peek len none = none
  peek len (some b) =
      if ltb (input_size (some b)) len then none else exactly len (api.copyout len b)

  unfoldable pub read_exact : ℕ → Option B → Option (List ℕ) × Option B
  unfolding input_size
  read_exact len none = (none, none)
  read_exact len (some b) =
      let (bytes, b') = api.remove len b in
      if ltb (input_size (some b)) len then (none, some b) else (exactly len bytes, some b')

  -- `read_line`, given the line that evbuffer_readln returned.
  unfoldable pub trim_line : ℕ → Bool → List ℕ → List ℕ
  trim_line max_len strip_cr line =
      let n =
        if strip_cr && (ltb 0 (length line) && (get_or line (length line - 1) 0 == b'\r'))
        then length line - 1
        else length line in
      let copy = if ltb n (max_len - 1) then n else max_len - 1 in take copy line

  abbrev pub line_read : ℕ → Bool → Option (List ℕ) × B → Option (List ℕ) × Option B
  line_read max_len strip_cr (none, b) = (none, some b)
  line_read max_len strip_cr (some line, b) = (some (trim_line max_len strip_cr line), some b)

  unfoldable pub read_line : ℕ → Bool → Option B → Option (List ℕ) × Option B
  read_line max_len strip_cr none = (none, none)
  read_line max_len strip_cr (some b) =
      if max_len == 0 then (none, some b) else line_read max_len strip_cr (api.readln b)

  unfoldable pub set_timeouts : ℕ → ℕ → Option B → Bool × Option B
  set_timeouts read_timeout_ms write_timeout_ms none = (false, none)
  set_timeouts read_timeout_ms write_timeout_ms (some b) = (
    true,
    some (api.set_bev_timeouts (timeout_ms read_timeout_ms) (timeout_ms write_timeout_ms) b),
  )

  unfoldable pub set_watermarks : TcpWatermarkOptions → Option B → Bool × Option B
  set_watermarks options none = (false, none)
  set_watermarks options (some b) = (
    true,
    some (
        api.setwatermark_write options.write_low options.write_high
          (api.setwatermark_read options.read_low options.read_high b)),
  )
