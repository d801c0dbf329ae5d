-- ===== src/LinuxTcp/Events.antt =====
-- The runs of LinuxTcpServer, async_event_loop_linux/linux_tcp_server.hpp: calls from outside and the
-- callbacks of libevent.
use pypilot_event_loop.Prelude.{
  ℕ, suc, ◌≤◌, ◌<◌, ◌≡◌, refl, subst, Bool, true, false, not, Option, none, some, List, [], ◌∷◌,
  ◌++◌, leb, leb→gt, branch, if◌then◌else◌, arith,
}
use pypilot_event_loop.LinuxTcp.{
  Connection, Server, new, has, count_valid, connection_count, sweep_closed, close_connection,
  close_server, listen, Call, call, calls, refuse, accept_callback, find, transfer,
  transfer_callback, Flags, close_notified, notify_event, sweep_notified, event_callback,
}
use pypilot_event_loop.LinuxTcp.Limit.{
  IsValid, append-count, close_connection-Fewer, call-Fewer, calls-Fewer, Fewer-IsValid, IsSwept,
  swept,
}

pub data Reaches : Server → Type 0 where
  starts : (max_connections : ℕ) → Reaches (new max_connections)
  listens :
      (host_valid bound : Bool) (port : ℕ) (s : Server)
      → Reaches s
      → Reaches (listen host_valid bound port s).1
  called : (c : Call) (s : Server) → Reaches s → Reaches (call c s)
  accepted :
      (made : Bool) (cs : List Call) (s : Server) → Reaches s → Reaches (accept_callback made cs s)
  transferred :
      (id : ℕ) (cs : List Call) (s s' : Server)
      → Reaches s
      → transfer_callback id cs s ≡ some s'
      → Reaches s'
  notified :
      (flags : Flags) (id : ℕ) (cs : List Call) (s s' : Server)
      → Reaches s
      → event_callback flags id cs s ≡ some s'
      → Reaches s'

-- A property of the outcome of a callback that does not use a destroyed connection.
abbrev pub OnSome : (Server → Type 0) → Option Server → Type 0
OnSome P none = Unit {0}
OnSome P (some s) = P s

abbrev Good : Server → Type 0
Good s = IsValid s × IsSwept s

calls-IsValid : (cs : List Call) (s : Server) → IsValid s → IsValid (calls cs s)
calls-IsValid cs s v = Fewer-IsValid s (calls cs s) v (calls-Fewer cs s v.consistent)

accept_callback-Good :
    (made : Bool) (cs : List Call) (s : Server)
    → IsValid s
    → IsValid (accept_callback made cs s) × (s.handler ≡ true → IsSwept (accept_callback made cs s))
unfolding accept_callback connection_count
accept_callback-Good made cs s v =
    let s1 = sweep_closed s in
    let (v1, w1) = swept s v in
    let c : Connection = record { id = s1.next_id; bev = true; remove_requested = false } in
    let s2 : Server = record s1 {
      connections = s1.connections ++ c ∷ [];
      next_id = suc s1.next_id;
    } in
    let refused : IsValid (refuse s1) = record { within = v1.within; consistent = v1.consistent } in
    let pushed = append-count s1.connections c v1.consistent refl in
    let P : Server → Type 0 = λ x. IsValid x × (s.handler ≡ true → IsSwept x) in
    branch P (not s.handler) (refuse s) _
      (λ h. (record { within = v.within; consistent = v.consistent }, λ g. absurd (ground arith)))
      (λ h.
        branch P (leb s1.max_connections (connection_count s1)) (refuse s1) _
          (λ full. (refused, λ g. w1))
          (λ room.
            let some_room : count_valid s1.connections < s1.max_connections = leb→gt _ _ room in
            let v2 : IsValid s2 = record {
              within = omega (arith, pushed.0);
              consistent = pushed.1;
            } in
            let (v3, w3) = swept (calls cs s2) (calls-IsValid cs s2 v2) in
            branch P (not made) (refuse s1) (sweep_closed (calls cs s2)) (λ _. (refused, λ g. w1))
              (λ _. (v3, λ g. w3))))

transfer_callback-Good :
    (id : ℕ) (cs : List Call) (s : Server) → IsValid s → OnSome Good (transfer_callback id cs s)
unfolding transfer_callback
transfer_callback-Good id cs s v = at (find id s.connections)
  where
    at : (o : Option Connection) → OnSome Good (transfer cs s o)
    at none = tt
    at (some c) = elim c.bev as (λ b. Good (sweep_closed (if b then calls cs s else s))) [
      | true ↦ swept (calls cs s) (calls-IsValid cs s v)
      | false ↦ swept s v
    ]

close_notified-OnSome :
    (id : ℕ) (s : Server) → IsValid s → OnSome Good (sweep_notified (close_notified id s))
close_notified-OnSome id s v =
    elim (has id s.connections)
      as (λ b. OnSome Good (sweep_notified (if b then some (close_connection id s) else none))) [
        | true ↦
            swept (close_connection id s)
              (Fewer-IsValid s (close_connection id s) v (close_connection-Fewer id s v.consistent))
        | false ↦ tt
      ]

event_callback-Good :
    (flags : Flags) (id : ℕ) (cs : List Call) (s : Server)
    → IsValid s
    → OnSome Good (event_callback flags id cs s)
unfolding event_callback
event_callback-Good flags id cs s v =
    let closed = close_notified-OnSome id (calls cs s) (calls-IsValid cs s v) in
    let P : Option Server → Type 0 = λ o. OnSome Good (sweep_notified o) in
    let o = close_notified id (calls cs s) in
    let notified_good : P (notify_event flags id cs s) =
      branch P flags.timeout o _ (λ _. closed)
        (λ _.
          branch P flags.error o _ (λ _. closed)
            (λ _. branch P flags.eof o (some s) (λ _. closed) (λ _. swept s v))) in
    branch (OnSome Good) (has id s.connections) (sweep_notified (notify_event flags id cs s)) none
      (λ _. notified_good) (λ _. tt)

pub OnSome-at :
    (P : Server → Type 0) (o : Option Server) (s : Server) → o ≡ some s → OnSome P o → P s
OnSome-at P o s e h = subst (OnSome P) e h

Reaches-IsValid : (s : Server) → Reaches s → IsValid s
unfolding listen close_server
Reaches-IsValid _ (starts n) = record { within = omega arith; consistent = tt }
Reaches-IsValid _ (listens h b p s r) =
    branch (λ (x : Bool × Server). IsValid x.1) (not h) (false, close_server s) _
      (λ _. record { within = omega arith; consistent = tt })
      (λ _.
        branch (λ (x : Bool × Server). IsValid x.1) (not b) (false, close_server s) _
          (λ _. record { within = omega arith; consistent = tt })
          (λ _. record { within = omega arith; consistent = tt }))
Reaches-IsValid _ (called c s r) =
    let v = Reaches-IsValid s r in Fewer-IsValid s (call c s) v (call-Fewer c s v.consistent)
Reaches-IsValid _ (accepted made cs s r) = (accept_callback-Good made cs s (Reaches-IsValid s r)).0
Reaches-IsValid _ (transferred id cs s s' r e) =
    (OnSome-at Good _ s' e (transfer_callback-Good id cs s (Reaches-IsValid s r))).0
Reaches-IsValid _ (notified flags id cs s s' r e) =
    (OnSome-at Good _ s' e (event_callback-Good flags id cs s (Reaches-IsValid s r))).0

-- In every run the server has at most `max_connections` valid connections, and when a callback of
-- libevent has come to its end, every connection that it keeps is valid, whatever the handler
-- closed, removed or shut.
pub callbacks-IsSwept :
    (s : Server)
    → Reaches s
    → (id : ℕ) (flags : Flags) (made : Bool) (cs : List Call)
    → (connection_count s ≤ s.max_connections)
      × (s.handler ≡ true → IsSwept (accept_callback made cs s))
      × OnSome Good (transfer_callback id cs s)
      × OnSome Good (event_callback flags id cs s)
unfolding connection_count
callbacks-IsSwept s r id flags made cs =
    let v = Reaches-IsValid s r in
    (
      v.within,
      (accept_callback-Good made cs s v).1,
      transfer_callback-Good id cs s v,
      event_callback-Good flags id cs s v,
    )
