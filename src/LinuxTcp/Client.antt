-- ===== src/LinuxTcp/Client.antt =====
-- LinuxTcpClient and its LinuxTcpClientConnection, async_event_loop_linux/linux_tcp_client.hpp. The
-- answers of the system are arguments, and what the client does to descriptors is a log.
pub mod Transfer
mod Tests
use pypilot_event_loop.Prelude.{
  ℕ, Bool, true, false, not, ◌&&◌, ◌||◌, Option, none, some, List, [], ◌∷◌, ◌==◌, if◌then◌else◌,
}

-- `opens` is a `socket`, `closes` a `close`; `registers` and `unregisters` are the calls of the loop.
pub data Command : Type 0 where
  opens : ℕ → Command
  closes : ℕ → Command
  registers : ℕ → Command
  unregisters : ℕ → Command

pub data State : Type 0 where
  idle : State
  connecting : State
  connected : State

-- `fd` is the descriptor of the connection, `none` for -1, and so are `pending_fd` and
-- `registered_fd`; `handler` says that the pointer is not null. The latest command comes first.
pub record Client : Type 0 where
  pub handler : Bool
  pub fd : Option ℕ
  pub pending_fd : Option ℕ
  pub registered_fd : Option ℕ
  pub state : State
  pub log : List Command

abbrev pub new : Client
new = record {
  handler = false;
  fd = none;
  pending_fd = none;
  registered_fd = none;
  state = idle;
  log = [];
}

-- The calls of an ITcpClientHandler, which may call the client in their turn.
pub record Handler : Type 0 where
  pub on_connect : Client → Client
  pub on_data : Client → Client
  pub on_close : Client → Client
  pub on_error : Client → Client

abbrev pub is_some : Option ℕ → Bool
is_some none = false
is_some (some fd) = true

-- `close` of a descriptor, and the removal of one from the loop, where there is one.
abbrev pub log_close : Option ℕ → List Command → List Command
log_close none log = log
log_close (some fd) log = closes fd ∷ log

abbrev pub log_unregister : Option ℕ → List Command → List Command
log_unregister none log = log
log_unregister (some fd) log = unregisters fd ∷ log

-- `close` of the connection.
unfoldable pub close_connection : Client → Client
close_connection s = record s { fd = none; log = log_close s.fd s.log }

unfoldable pub unregister_fd : Client → Client
unregister_fd s = record s { registered_fd = none; log = log_unregister s.registered_fd s.log }

unfoldable pub close_client : Client → Client
close_client s = record s {
  handler = false;
  fd = none;
  pending_fd = none;
  registered_fd = none;
  state = idle;
  log = log_close s.fd (log_close s.pending_fd (log_unregister s.registered_fd s.log));
}

-- A connection in progress, and its registration.
abbrev pub pending : ℕ → Client → Client
pending fd s = record s {
  handler = true;
  pending_fd = some fd;
  state = connecting;
  log = opens fd ∷ s.log;
}

abbrev pub waiting : ℕ → Client → Client
waiting fd s = record (pending fd s) {
  registered_fd = some fd;
  log = registers fd ∷ opens fd ∷ s.log;
}

-- What the system makes of one address.
pub data Attempt : Type 0 where
  no_socket : Attempt
  no_nonblocking : ℕ → Attempt
  connects : ℕ → Attempt
  in_progress : ℕ → Attempt
  refuses : ℕ → Attempt

-- What the probe of a connected socket gives.
pub data Probe : Type 0 where
  data_waits : Probe
  end_of_file : Probe
  would_block : Probe
  fails : Probe

-- The steps of `activate_connected_fd`: the connection is attached, and then given up when the loop
-- does not take its descriptor, or registered.
abbrev pub attached : ℕ → Client → Client
attached fd s = record (close_connection s) { fd = some fd; state = connected }

abbrev pub lost : ℕ → Client → Client
lost fd s = record (close_connection (attached fd s)) { state = idle; handler = false }

abbrev pub live : ℕ → Client → Client
live fd s = record (attached fd s) {
  registered_fd = some fd;
  log = registers fd ∷ (close_connection s).log;
}

module _ (h : Handler) where
  -- `added`: the loop has taken the descriptor.
  unfoldable pub activate_connected_fd : ℕ → Bool → Client → Bool × Client
  activate_connected_fd fd added s =
      if not added
      then (false, if s.handler then h.on_error (lost fd s) else lost fd s)
      else (true, if s.handler then h.on_connect (live fd s) else live fd s)

  -- The loop of `connect` over the addresses.
  unfoldable pub try_addresses : List Attempt → Bool → Client → Bool × Client
  unfolding close_client
  try_addresses [] added s = (false, h.on_error s)
  try_addresses (no_socket ∷ rest) added s = try_addresses rest added s
  try_addresses (no_nonblocking fd ∷ rest) added s =
      try_addresses rest added (record s { log = closes fd ∷ opens fd ∷ s.log })
  try_addresses (connects fd ∷ rest) added s =
      activate_connected_fd fd added (record s { handler = true; log = opens fd ∷ s.log })
  try_addresses (in_progress fd ∷ rest) added s =
      if not added then (false, h.on_error (close_client (pending fd s))) else (true, waiting fd s)
  try_addresses (refuses fd ∷ rest) added s =
      try_addresses rest added (record s { log = closes fd ∷ opens fd ∷ s.log })

  -- `attempts`: `none` when the options or the name give no address.
  unfoldable pub connect : Option (List Attempt) → Bool → Client → Bool × Client
  connect none added s = (false, h.on_error (close_client s))
  connect (some attempts) added s = try_addresses attempts added (close_client s)

  abbrev pub complete_pending : Bool → Bool → Option ℕ → Client → Client
  complete_pending failed added none s = close_client s
  complete_pending failed added (some fd) s =
      if not s.handler
      then close_client s
      else if failed
      then close_client (h.on_error s)
      else (activate_connected_fd fd added (record (unregister_fd s) { pending_fd = none })).1

  -- `failed`: the pending connection has an error.
  unfoldable pub complete_connect : Bool → Bool → Client → Client
  complete_connect failed added s = complete_pending failed added s.pending_fd s

  unfoldable pub serve : Probe → Client → Client
  serve data_waits s = h.on_data s
  serve end_of_file s = close_client (h.on_close s)
  serve would_block s = s
  serve fails s = close_client (h.on_error s)

  abbrev pub poll_in : State → Probe → Bool → Bool → Client → Client
  poll_in idle probe failed added s = s
  poll_in connecting probe failed added s = complete_connect failed added s
  poll_in connected probe failed added s =
      let served = serve probe s in if not s.handler || not (is_some s.fd) then s else served

  unfoldable pub poll : Probe → Bool → Bool → Client → Client
  poll probe failed added s = poll_in s.state probe failed added s
