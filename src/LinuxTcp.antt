-- ===== src/LinuxTcp.antt =====
-- LinuxTcpServer and LinuxTcpConnection of async_event_loop_linux/linux_tcp_server.hpp. libevent is a
-- parameter: whether its calls succeed is an argument. A connection is named by its number, and
-- `none` is the outcome of a callback that uses a connection that has been destroyed.
pub mod Limit
pub mod Events
pub mod Ledger
pub mod Transfer
pub mod Client
pub mod Descriptors
mod Tests
use pypilot_event_loop.Prelude.{
  ℕ, zero, suc, ◌+◌, ◌*◌, ◌/◌, ◌%◌, ◌-◌, Bool, true, false, not, ◌&&◌, ◌||◌, Option, none, some,
  List, [], ◌∷◌, ◌++◌, ltb, leb, ◌==◌, if◌then◌else◌, get_or, take, length,
}
use pypilot_event_loop.Libevent.{Timeval}

-- `bev` says that the pointer to the bufferevent is not null.
pub record Connection : Type 0 where
  pub id : ℕ
  pub bev : Bool
  pub remove_requested : Bool

-- `listener` and `handler` say that the pointers are not null. The sockets that the listener has
-- accepted have the numbers below `next_id`, and a connection has the number of its socket. `freed`
-- are the sockets that went with a bufferevent, by bufferevent_free, and `refused` those given to
-- evutil_closesocket, the latest first.
pub record Server : Type 0 where
  pub max_connections : ℕ
  pub listener : Bool
  pub handler : Bool
  pub bound_port : ℕ
  pub connections : List Connection
  pub next_id : ℕ
  pub freed : List ℕ
  pub refused : List ℕ
  pub listeners_made : ℕ
  pub listeners_freed : ℕ

abbrev pub new : ℕ → Server
new max_connections = record {
  max_connections = max_connections;
  listener = false;
  handler = false;
  bound_port = 0;
  connections = [];
  next_id = 0;
  freed = [];
  refused = [];
  listeners_made = 0;
  listeners_freed = 0;
}

abbrev pub close_bev : Connection → List ℕ → List ℕ
close_bev c freed = if c.bev then c.id ∷ freed else freed

-- The destruction of all connections, and of those that `sweep_closed` erases.
abbrev pub destroy_all : List Connection → List ℕ → List ℕ
destroy_all [] freed = freed
destroy_all (c ∷ cs) freed = destroy_all cs (close_bev c freed)

abbrev pub sweep : List Connection → List ℕ → List Connection × List ℕ
sweep [] freed = ([], freed)
sweep (c ∷ cs) freed =
    let dropped = sweep cs (close_bev c freed) in
    let kept = sweep cs freed in if c.remove_requested then dropped else (c ∷ kept.0, kept.1)

-- `close` of the connection of a number.
abbrev pub close_in : ℕ → List Connection → List ℕ → List Connection × List ℕ
close_in id [] freed = ([], freed)
close_in id (c ∷ cs) freed =
    let closed = close_in id cs (close_bev c freed) in
    let rest = close_in id cs freed in
    if c.id == id
    then (record c { bev = false; remove_requested = true } ∷ closed.0, closed.1)
    else (c ∷ rest.0, rest.1)

abbrev pub has : ℕ → List Connection → Bool
has id [] = false
has id (c ∷ cs) = (c.id == id) || has id cs

abbrev pub count_valid : List Connection → ℕ
count_valid [] = 0
count_valid (c ∷ cs) = if c.bev then suc (count_valid cs) else count_valid cs

unfoldable pub connection_count : Server → ℕ
connection_count s = count_valid s.connections

unfoldable pub sweep_closed : Server → Server
sweep_closed s =
    let (cs, freed) = sweep s.connections s.freed in record s { connections = cs; freed = freed }

unfoldable pub close_connection : ℕ → Server → Server
close_connection id s =
    let (cs, freed) = close_in id s.connections s.freed in
    record s { connections = cs; freed = freed }

unfoldable pub remove : ℕ → Server → Server
unfolding close_connection sweep_closed
remove id s = sweep_closed (close_connection id s)

unfoldable pub close_server : Server → Server
close_server s = record s {
  connections = [];
  freed = destroy_all s.connections s.freed;
  listener = false;
  listeners_freed = if s.listener then suc s.listeners_freed else s.listeners_freed;
  handler = false;
  bound_port = 0;
}

-- `host_valid` says that the host is null, 0.0.0.0 or an address; `bound` that libevent made the
-- listener; `port` is the port that the socket reports.
unfoldable pub listen : Bool → Bool → ℕ → Server → Bool × Server
listen host_valid bound port s0 =
    let s = close_server s0 in
    if not host_valid then (false, s) else if not bound then (false, s) else (
      true,
      record s {
        listener = true;
        listeners_made = suc s.listeners_made;
        handler = true;
        bound_port = port;
      },
    )

-- What a handler may call.
pub data Call : Type 0 where
  closes : ℕ → Call
  removes : ℕ → Call
  shuts : Call

abbrev pub call : Call → Server → Server
call (closes id) s = close_connection id s
call (removes id) s = remove id s
call shuts s = close_server s

abbrev pub calls : List Call → Server → Server
calls [] s = s
calls (c ∷ cs) s = calls cs (call c s)

-- evutil_closesocket of the socket that has just been accepted.
abbrev pub refuse : Server → Server
refuse s = record s { refused = s.next_id ∷ s.refused; next_id = suc s.next_id }

-- `made` says that libevent made the bufferevent; `cs` are the calls of the handler.
unfoldable pub accept_callback : Bool → List Call → Server → Server
accept_callback made cs s0 =
    let s = sweep_closed s0 in
    let c : Connection = record { id = s.next_id; bev = true; remove_requested = false } in
    let s' = record s { connections = s.connections ++ c ∷ []; next_id = suc s.next_id } in
    if not s0.handler
    then refuse s0
    else if leb s.max_connections (connection_count s)
    then refuse s
    else if not made
    then refuse s
    else sweep_closed (calls cs s')

abbrev pub find : ℕ → List Connection → Option Connection
find id [] = none
find id (c ∷ cs) = if c.id == id then some c else find id cs

-- `read_callback` and `write_callback`, which differ in the call of the handler.
abbrev pub transfer : List Call → Server → Option Connection → Option Server
transfer cs s none = none
transfer cs s (some c) = some (sweep_closed (if c.bev then calls cs s else s))

unfoldable pub transfer_callback : ℕ → List Call → Server → Option Server
transfer_callback id cs s = transfer cs s (find id s.connections)

-- The flags of `notify_event`.
pub record Flags : Type 0 where
  pub timeout : Bool
  pub error : Bool
  pub eof : Bool

-- The `close` of the connection behind the call of the handler.
abbrev pub close_notified : ℕ → Server → Option Server
close_notified id s = if has id s.connections then some (close_connection id s) else none

abbrev pub notify_event : Flags → ℕ → List Call → Server → Option Server
notify_event flags id cs s =
    if flags.timeout
    then close_notified id (calls cs s)
    else if flags.error
    then close_notified id (calls cs s)
    else if flags.eof
    then close_notified id (calls cs s)
    else some s

abbrev pub sweep_notified : Option Server → Option Server
sweep_notified none = none
sweep_notified (some s) = some (sweep_closed s)

unfoldable pub event_callback : Flags → ℕ → List Call → Server → Option Server
event_callback flags id cs s =
    let notified = sweep_notified (notify_event flags id cs s) in
    if has id s.connections then notified else none

-- The timeouts of `set_timeouts`: `none` for no timeout.
unfoldable pub timeout_ms : ℕ → Option Timeval
timeout_ms ms =
    if ms == 0 then none else some (record { tv_sec = ms / 1000; tv_usec = (ms % 1000) * 1000 })
