-- ===== src/LinuxTcp/Descriptors.antt =====
-- The descriptors of LinuxTcpClient, async_event_loop_linux/linux_tcp_client.hpp.
use pypilot_event_loop.Prelude.{
  ℕ, ◌+◌, ◌≡◌, refl, Bool, true, false, not, ◌||◌, Option, none, some, List, [], ◌∷◌, ◌==◌,
  if◌then◌else◌, arith, branch, ap,
}
use pypilot_event_loop.LinuxTcp.Client.{
  Command, opens, closes, registers, unregisters, State, idle, connecting, connected, Client,
  Handler, is_some, log_close, log_unregister, close_connection, unregister_fd, close_client,
  activate_connected_fd, Attempt, no_socket, no_nonblocking, connects, in_progress, refuses,
  try_addresses, connect, complete_pending, complete_connect, lost, live, pending, waiting, Probe,
  data_waits, end_of_file, would_block, fails, serve, poll_in, poll,
}

-- How often a descriptor has been opened, closed, registered and unregistered.
pub record Counts : Type 0 where
  pub opened : ℕ
  pub closed : ℕ
  pub registered : ℕ
  pub unregistered : ℕ

abbrev one : ℕ → ℕ → ℕ
one fd f = if f == fd then 1 else 0

abbrev pub counts : ℕ → List Command → Counts
counts fd [] = record { opened = 0; closed = 0; registered = 0; unregistered = 0 }
counts fd (opens f ∷ log) = let c = counts fd log in record c { opened = one fd f + c.opened }
counts fd (closes f ∷ log) = let c = counts fd log in record c { closed = one fd f + c.closed }
counts fd (registers f ∷ log) =
    let c = counts fd log in record c { registered = one fd f + c.registered }
counts fd (unregisters f ∷ log) =
    let c = counts fd log in record c { unregistered = one fd f + c.unregistered }

abbrev pub holds : ℕ → Option ℕ → ℕ
holds fd none = 0
holds fd (some f) = one fd f

-- Every descriptor opened is held by the client or has been closed, and every registration with
-- the loop is held or has been taken back.
abbrev pub Balances : ℕ → Client → Type 0
Balances fd s =
    let c = counts fd s.log in
    (c.opened ≡ holds fd s.fd + holds fd s.pending_fd + c.closed)
    × (c.registered ≡ holds fd s.registered_fd + c.unregistered)

unfoldable pub IsBalanced : Client → Type 0
IsBalanced s = (fd : ℕ) → Balances fd s

log_close-counts :
    (fd : ℕ) (o : Option ℕ) (log : List Command)
    → let c = counts fd log in
      let d = counts fd (log_close o log) in
      (d.opened ≡ c.opened)
      × (d.closed ≡ holds fd o + c.closed)
      × (d.registered ≡ c.registered)
      × (d.unregistered ≡ c.unregistered)
log_close-counts fd none log = (refl, omega arith, refl, refl)
log_close-counts fd (some f) log = (refl, refl, refl, refl)

log_unregister-counts :
    (fd : ℕ) (o : Option ℕ) (log : List Command)
    → let c = counts fd log in
      let d = counts fd (log_unregister o log) in
      (d.opened ≡ c.opened)
      × (d.closed ≡ c.closed)
      × (d.registered ≡ c.registered)
      × (d.unregistered ≡ holds fd o + c.unregistered)
log_unregister-counts fd none log = (refl, refl, refl, omega arith)
log_unregister-counts fd (some f) log = (refl, refl, refl, refl)

close_connection-IsBalanced : (s : Client) → IsBalanced s → IsBalanced (close_connection s)
unfolding close_connection IsBalanced
close_connection-IsBalanced s b fd =
    let k = b fd in
    let c = log_close-counts fd s.fd s.log in (omega (arith, k, c), omega (arith, k, c))

unregister_fd-IsBalanced : (s : Client) → IsBalanced s → IsBalanced (unregister_fd s)
unfolding unregister_fd IsBalanced
unregister_fd-IsBalanced s b fd =
    let k = b fd in
    let c = log_unregister-counts fd s.registered_fd s.log in
    (omega (arith, k, c), omega (arith, k, c))

close_client-IsBalanced : (s : Client) → IsBalanced s → IsBalanced (close_client s)
unfolding close_client IsBalanced
close_client-IsBalanced s b fd =
    let k = b fd in
    let log1 = log_unregister s.registered_fd s.log in
    let c1 = log_unregister-counts fd s.registered_fd s.log in
    let c2 = log_close-counts fd s.pending_fd log1 in
    let c3 = log_close-counts fd s.fd (log_close s.pending_fd log1) in
    (omega (arith, k, c1, c2, c3), omega (arith, k, c1, c2, c3))

-- A handler that keeps the balance, as one that only calls the client does.
pub record Keeps (h : Handler) : Type 0 where
  pub on_connect : (s : Client) → IsBalanced s → IsBalanced (h.on_connect s)
  pub on_data : (s : Client) → IsBalanced s → IsBalanced (h.on_data s)
  pub on_close : (s : Client) → IsBalanced s → IsBalanced (h.on_close s)
  pub on_error : (s : Client) → IsBalanced s → IsBalanced (h.on_error s)

-- The client owns the open descriptor `fd`, and has registered none.
abbrev Owns : ℕ → Client → Type 0
Owns fd s =
    (s.registered_fd ≡ none)
    × ((f : ℕ)
        → let c = counts f s.log in
          (c.opened ≡ one f fd + holds f s.fd + holds f s.pending_fd + c.closed)
          × (c.registered ≡ c.unregistered))

lost-IsBalanced : (fd : ℕ) (s : Client) → Owns fd s → IsBalanced (lost fd s)
unfolding close_connection IsBalanced
lost-IsBalanced fd s (n, o) f =
    let c = log_close-counts f s.fd s.log in
    let k = o f in (omega (arith, k, c), rw n (omega (arith, k, c)))

live-IsBalanced : (fd : ℕ) (s : Client) → Owns fd s → IsBalanced (live fd s)
unfolding close_connection IsBalanced
live-IsBalanced fd s (n, o) f =
    let c = log_close-counts f s.fd s.log in
    let k = o f in (omega (arith, k, c), omega (arith, k, c))

pending-IsBalanced :
    (fd : ℕ) (s : Client) → IsBalanced s → s.pending_fd ≡ none → IsBalanced (pending fd s)
unfolding IsBalanced
pending-IsBalanced fd s b p f = let x = b f in let e = ap (holds f) p in (omega (arith, x, e), x.1)

waiting-IsBalanced :
    (fd : ℕ) (s : Client)
    → IsBalanced s
    → s.pending_fd ≡ none
    → s.registered_fd ≡ none
    → IsBalanced (waiting fd s)
unfolding IsBalanced
waiting-IsBalanced fd s b p n f =
    let x = b f in
    let e = ap (holds f) p in let d = ap (holds f) n in (omega (arith, x, e), omega (arith, x, d))

-- A pending descriptor is taken out of the loop and out of its place.
taken-Owns :
    (fd : ℕ) (s : Client)
    → s.pending_fd ≡ some fd
    → IsBalanced s
    → Owns fd (record (unregister_fd s) { pending_fd = none })
unfolding unregister_fd IsBalanced
taken-Owns fd s p b = (
  refl,
  λ f.
      let x = b f in
      let e = ap (holds f) p in
      let c = log_unregister-counts f s.registered_fd s.log in
      (omega (arith, x, e, c), omega (arith, x, c)),
)

-- The client holds nothing, as `close` leaves it.
abbrev IsClosed : Client → Type 0
IsClosed s = (s.fd ≡ none) × (s.pending_fd ≡ none) × (s.registered_fd ≡ none)

close_client-IsClosed : (s : Client) → IsClosed (close_client s)
unfolding close_client
close_client-IsClosed s = (refl, refl, refl)

module _ (h : Handler) (k : Keeps h) where
  activate-IsBalanced :
      (fd : ℕ) (added : Bool) (s : Client)
      → Owns fd s
      → IsBalanced (activate_connected_fd h fd added s).1
  unfolding activate_connected_fd
  activate-IsBalanced fd added s o =
      let l = lost-IsBalanced fd s o in
      let v = live-IsBalanced fd s o in
      branch (λ (x : Bool × Client). IsBalanced x.1) (not added)
        (false, if s.handler then h.on_error (lost fd s) else lost fd s)
        (true, if s.handler then h.on_connect (live fd s) else live fd s)
        (λ _.
          branch IsBalanced s.handler (h.on_error (lost fd s)) (lost fd s)
            (λ _. k.on_error (lost fd s) l) (λ _. l))
        (λ _.
          branch IsBalanced s.handler (h.on_connect (live fd s)) (live fd s)
            (λ _. k.on_connect (live fd s) v) (λ _. v))

  try_addresses-IsBalanced :
      (addresses : List Attempt) (added : Bool) (s : Client)
      → IsBalanced s
      → IsClosed s
      → IsBalanced (try_addresses h addresses added s).1
  unfolding try_addresses IsBalanced
  try_addresses-IsBalanced [] added s b c = k.on_error s b
  try_addresses-IsBalanced (no_socket ∷ rest) added s b c =
      try_addresses-IsBalanced rest added s b c
  try_addresses-IsBalanced (no_nonblocking fd ∷ rest) added s b c =
      try_addresses-IsBalanced rest added (record s { log = closes fd ∷ opens fd ∷ s.log })
        (λ f. let x = b f in (omega arith, x.1)) c
  try_addresses-IsBalanced (refuses fd ∷ rest) added s b c =
      try_addresses-IsBalanced rest added (record s { log = closes fd ∷ opens fd ∷ s.log })
        (λ f. let x = b f in (omega arith, x.1)) c
  try_addresses-IsBalanced (connects fd ∷ rest) added s b (_, _, n) =
      activate-IsBalanced fd added (record s { handler = true; log = opens fd ∷ s.log })
        (n, λ f. let x = b f in (omega arith, let e = ap (holds f) n in omega (arith, x, e)))
  try_addresses-IsBalanced (in_progress fd ∷ rest) added s b (_, p, n) =
      let v = pending-IsBalanced fd s b p in
      branch (λ (x : Bool × Client). IsBalanced x.1) (not added)
        (false, h.on_error (close_client (pending fd s))) (true, waiting fd s)
        (λ _. k.on_error (close_client (pending fd s)) (close_client-IsBalanced (pending fd s) v))
        (λ _. waiting-IsBalanced fd s b p n)

  connect-IsBalanced :
      (addresses : Option (List Attempt)) (added : Bool) (s : Client)
      → IsBalanced s
      → IsBalanced (connect h addresses added s).1
  unfolding connect
  connect-IsBalanced none added s b = k.on_error (close_client s) (close_client-IsBalanced s b)
  connect-IsBalanced (some addresses) added s b =
      try_addresses-IsBalanced addresses added (close_client s) (close_client-IsBalanced s b)
        (close_client-IsClosed s)

  complete_pending-IsBalanced :
      (failed added : Bool) (o : Option ℕ) (s : Client)
      → s.pending_fd ≡ o
      → IsBalanced s
      → IsBalanced (complete_pending h failed added o s)
  complete_pending-IsBalanced failed added none s e b = close_client-IsBalanced s b
  complete_pending-IsBalanced failed added (some fd) s e b =
      branch IsBalanced (not s.handler) (close_client s) _ (λ _. close_client-IsBalanced s b)
        (λ _.
          branch IsBalanced failed (close_client (h.on_error s)) _
            (λ _. close_client-IsBalanced (h.on_error s) (k.on_error s b))
            (λ _.
              activate-IsBalanced fd added (record (unregister_fd s) { pending_fd = none })
                (taken-Owns fd s e b)))

  serve-IsBalanced : (probe : Probe) (s : Client) → IsBalanced s → IsBalanced (serve h probe s)
  unfolding serve
  serve-IsBalanced data_waits s b = k.on_data s b
  serve-IsBalanced end_of_file s b = close_client-IsBalanced (h.on_close s) (k.on_close s b)
  serve-IsBalanced would_block s b = b
  serve-IsBalanced fails s b = close_client-IsBalanced (h.on_error s) (k.on_error s b)

  poll_in-IsBalanced :
      (state : State) (probe : Probe) (failed added : Bool) (s : Client)
      → IsBalanced s
      → IsBalanced (poll_in h state probe failed added s)
  unfolding complete_connect
  poll_in-IsBalanced idle probe failed added s b = b
  poll_in-IsBalanced connecting probe failed added s b =
      complete_pending-IsBalanced failed added s.pending_fd s refl b
  poll_in-IsBalanced connected probe failed added s b =
      branch IsBalanced (not s.handler || not (is_some s.fd)) s (serve h probe s) (λ _. b)
        (λ _. serve-IsBalanced probe s b)

  -- `connect`, `poll` and `close` of the client, and `close` of its connection, neither lose a
  -- descriptor nor close one twice: at every descriptor, those opened are those held and those
  -- closed, and those registered with the loop are the one held and those unregistered. So a closed
  -- client has closed and unregistered as often as it has opened and registered. This holds for
  -- every outcome of the system's calls, with a handler that keeps the balance.
  pub calls-IsBalanced :
      (addresses : Option (List Attempt)) (added failed : Bool) (probe : Probe) (s : Client)
      → IsBalanced s
      → IsBalanced (connect h addresses added s).1
        × IsBalanced (poll h probe failed added s)
        × IsBalanced (close_client s)
        × IsBalanced (close_connection s)
  unfolding poll
  calls-IsBalanced addresses added failed probe s b = (
    connect-IsBalanced addresses added s b,
    poll_in-IsBalanced s.state probe failed added s b,
    close_client-IsBalanced s b,
    close_connection-IsBalanced s b,
  )
