-- ===== src/LinuxTcp/Ledger.antt =====
-- What LinuxTcpServer, async_event_loop_linux/linux_tcp_server.hpp, makes of the sockets that it
-- accepts and of its listeners.
use pypilot_event_loop.Prelude.{
  ℕ, suc, ◌+◌, ◌≡◌, refl, ap, Bool, true, false, not, Option, none, some, List, [], ◌∷◌, ◌++◌, ◌==◌,
  ltb, leb, branch, if◌then◌else◌, arith,
}
use pypilot_event_loop.LinuxTcp.{
  Connection, Server, close_bev, destroy_all, sweep, close_in, has, sweep_closed, close_connection,
  remove, close_server, listen, Call, closes, removes, shuts, call, calls, refuse, accept_callback,
  find, transfer, transfer_callback, Flags, close_notified, notify_event, sweep_notified,
  event_callback, connection_count,
}
use pypilot_event_loop.LinuxTcp.Events.{
  Reaches, starts, listens, called, accepted, transferred, notified, OnSome, OnSome-at,
}

abbrev pub times : ℕ → List ℕ → ℕ
times n [] = 0
times n (m ∷ ms) = (if m == n then 1 else 0) + times n ms

-- How many connections hold the socket.
abbrev pub held : ℕ → List Connection → ℕ
held n [] = 0
held n (c ∷ cs) = (if c.bev then (if c.id == n then 1 else 0) else 0) + held n cs

-- How often the socket was closed, or is held by a connection.
abbrev pub accounted : ℕ → Server → ℕ
accounted n s = times n s.refused + times n s.freed + held n s.connections

-- Each accepted socket is accounted for once, and each listener that was made is freed or is there.
pub record IsBalanced (s : Server) : Type 0 where
  pub sockets : (n : ℕ) → accounted n s ≡ (if ltb n s.next_id then 1 else 0)
  pub listeners :
      s.listeners_made ≡ (if s.listener then suc s.listeners_freed else s.listeners_freed)

times-close_bev :
    (n : ℕ) (c : Connection) (freed : List ℕ)
    → times n (close_bev c freed) ≡ held n (c ∷ []) + times n freed
times-close_bev n c freed = ground arith

destroy_all-times :
    (n : ℕ) (cs : List Connection) (freed : List ℕ)
    → times n (destroy_all cs freed) ≡ held n cs + times n freed
destroy_all-times n [] freed = omega arith
destroy_all-times n (c ∷ cs) freed =
    omega (arith, destroy_all-times n cs (close_bev c freed), times-close_bev n c freed)

sweep-times :
    (n : ℕ) (cs : List Connection) (freed : List ℕ)
    → let (cs', freed') = sweep cs freed in held n cs' + times n freed' ≡ held n cs + times n freed
sweep-times n [] freed = refl
sweep-times n (c ∷ cs) freed =
    let dropped = sweep-times n cs (close_bev c freed) in
    let kept = sweep-times n cs freed in
    let t = times-close_bev n c freed in
    branch
      (λ (r : List Connection × List ℕ). held n r.0 + times n r.1 ≡ held n (c ∷ cs) + times n freed)
      c.remove_requested _ _ (λ _. omega (arith, dropped, t)) (λ _. omega (arith, kept))

close_in-times :
    (n id : ℕ) (cs : List Connection) (freed : List ℕ)
    → let (cs', freed') = close_in id cs freed in
      held n cs' + times n freed' ≡ held n cs + times n freed
close_in-times n id [] freed = refl
close_in-times n id (c ∷ cs) freed =
    let closed = close_in-times n id cs (close_bev c freed) in
    let rest = close_in-times n id cs freed in
    let t = times-close_bev n c freed in
    branch
      (λ (r : List Connection × List ℕ). held n r.0 + times n r.1 ≡ held n (c ∷ cs) + times n freed)
      (c.id == id) _ _ (λ _. omega (arith, closed, t)) (λ _. omega (arith, rest))

held-append :
    (n : ℕ) (cs : List Connection) (c : Connection)
    → held n (cs ++ c ∷ []) ≡ held n cs + held n (c ∷ [])
held-append n [] c = omega arith
held-append n (d ∷ cs) c = omega (arith, held-append n cs c)

sweep_closed-IsBalanced : (s : Server) → IsBalanced s → IsBalanced (sweep_closed s)
unfolding sweep_closed
sweep_closed-IsBalanced s b = record {
  sockets = λ n. omega (arith, sweep-times n s.connections s.freed, b.sockets n);
  listeners = b.listeners;
}

close_connection-IsBalanced :
    (id : ℕ) (s : Server) → IsBalanced s → IsBalanced (close_connection id s)
unfolding close_connection
close_connection-IsBalanced id s b = record {
  sockets = λ n. omega (arith, close_in-times n id s.connections s.freed, b.sockets n);
  listeners = b.listeners;
}

close_server-IsBalanced : (s : Server) → IsBalanced s → IsBalanced (close_server s)
unfolding close_server
close_server-IsBalanced s b = record {
  sockets = λ n. omega (arith, destroy_all-times n s.connections s.freed, b.sockets n);
  listeners = b.listeners;
}

call-IsBalanced : (c : Call) (s : Server) → IsBalanced s → IsBalanced (call c s)
unfolding remove
call-IsBalanced (closes id) s b = close_connection-IsBalanced id s b
call-IsBalanced (removes id) s b =
    sweep_closed-IsBalanced (close_connection id s) (close_connection-IsBalanced id s b)
call-IsBalanced shuts s b = close_server-IsBalanced s b

calls-IsBalanced : (cs : List Call) (s : Server) → IsBalanced s → IsBalanced (calls cs s)
calls-IsBalanced [] s b = b
calls-IsBalanced (c ∷ cs) s b = calls-IsBalanced cs (call c s) (call-IsBalanced c s b)

refuse-IsBalanced : (s : Server) → IsBalanced s → IsBalanced (refuse s)
refuse-IsBalanced s b = record {
  sockets = λ n. ground (arith, b.sockets n);
  listeners = b.listeners;
}

listen-IsBalanced :
    (host_valid bound : Bool) (port : ℕ) (s : Server)
    → IsBalanced s
    → IsBalanced (listen host_valid bound port s).1
unfolding listen close_server
listen-IsBalanced h k port s b =
    let closed = close_server-IsBalanced s b in
    branch (λ (x : Bool × Server). IsBalanced x.1) (not h) (false, close_server s) _ (λ _. closed)
      (λ _.
        branch (λ (x : Bool × Server). IsBalanced x.1) (not k) (false, close_server s) _
          (λ _. closed)
          (λ _. record { sockets = closed.sockets; listeners = ap suc closed.listeners }))

accept_callback-IsBalanced :
    (made : Bool) (cs : List Call) (s : Server)
    → IsBalanced s
    → IsBalanced (accept_callback made cs s)
unfolding accept_callback
accept_callback-IsBalanced made cs s b =
    let s1 = sweep_closed s in
    let b1 = sweep_closed-IsBalanced s b in
    let c : Connection = record { id = s1.next_id; bev = true; remove_requested = false } in
    let s2 : Server = record s1 {
      connections = s1.connections ++ c ∷ [];
      next_id = suc s1.next_id;
    } in
    let b2 : IsBalanced s2 = record {
      sockets = λ n. ground (arith, held-append n s1.connections c, b1.sockets n);
      listeners = b1.listeners;
    } in
    branch IsBalanced (not s.handler) (refuse s) _ (λ _. refuse-IsBalanced s b)
      (λ _.
        branch IsBalanced (leb s1.max_connections (connection_count s1)) (refuse s1) _
          (λ _. refuse-IsBalanced s1 b1)
          (λ _.
            branch IsBalanced (not made) (refuse s1) (sweep_closed (calls cs s2))
              (λ _. refuse-IsBalanced s1 b1)
              (λ _. sweep_closed-IsBalanced (calls cs s2) (calls-IsBalanced cs s2 b2))))

transfer_callback-OnSome :
    (id : ℕ) (cs : List Call) (s : Server)
    → IsBalanced s
    → OnSome IsBalanced (transfer_callback id cs s)
unfolding transfer_callback
transfer_callback-OnSome id cs s b = at (find id s.connections)
  where
    at : (o : Option Connection) → OnSome IsBalanced (transfer cs s o)
    at none = tt
    at (some c) =
        sweep_closed-IsBalanced _
          (branch IsBalanced c.bev (calls cs s) s (λ _. calls-IsBalanced cs s b) (λ _. b))

event_callback-OnSome :
    (flags : Flags) (id : ℕ) (cs : List Call) (s : Server)
    → IsBalanced s
    → OnSome IsBalanced (event_callback flags id cs s)
unfolding event_callback
event_callback-OnSome flags id cs s b =
    let s' = calls cs s in
    let P : Option Server → Type 0 = λ o. OnSome IsBalanced (sweep_notified o) in
    let closed : P (close_notified id s') =
      branch P (has id s'.connections) (some (close_connection id s')) none
        (λ _.
          sweep_closed-IsBalanced (close_connection id s')
            (close_connection-IsBalanced id s' (calls-IsBalanced cs s b)))
        (λ _. tt) in
    branch (OnSome IsBalanced) (has id s.connections) (sweep_notified (notify_event flags id cs s))
      none
      (λ _.
        branch P flags.timeout _ _ (λ _. closed)
          (λ _.
            branch P flags.error _ _ (λ _. closed)
              (λ _.
                branch P flags.eof _ (some s) (λ _. closed) (λ _. sweep_closed-IsBalanced s b))))
      (λ _. tt)

Reaches-IsBalanced : (s : Server) → Reaches s → IsBalanced s
Reaches-IsBalanced _ (starts n) = record { sockets = λ m. ground arith; listeners = refl }
Reaches-IsBalanced _ (listens h k port s r) = listen-IsBalanced h k port s (Reaches-IsBalanced s r)
Reaches-IsBalanced _ (called c s r) = call-IsBalanced c s (Reaches-IsBalanced s r)
Reaches-IsBalanced _ (accepted made cs s r) =
    accept_callback-IsBalanced made cs s (Reaches-IsBalanced s r)
Reaches-IsBalanced _ (transferred id cs s s' r e) =
    OnSome-at IsBalanced _ s' e (transfer_callback-OnSome id cs s (Reaches-IsBalanced s r))
Reaches-IsBalanced _ (notified flags id cs s s' r e) =
    OnSome-at IsBalanced _ s' e (event_callback-OnSome flags id cs s (Reaches-IsBalanced s r))

-- In every run each accepted socket is accounted for once: turned away, closed with its
-- bufferevent, or held by a connection of the server; and a listener that was made is freed or is
-- the one that the server has. So after `close`, which the destructor calls, every accepted socket
-- has been closed once and no other, and every listener has been freed.
pub close_server-accounted :
    (s : Server)
    → Reaches s
    → let s' = close_server s in
      ((n : ℕ) → accounted n s ≡ (if ltb n s.next_id then 1 else 0))
      × ((n : ℕ) → times n s'.refused + times n s'.freed ≡ (if ltb n s.next_id then 1 else 0))
      × (s'.listeners_made ≡ s'.listeners_freed)
unfolding close_server
close_server-accounted s r =
    let b = Reaches-IsBalanced s r in
    let closed = close_server-IsBalanced s b in
    (b.sockets, λ n. omega (arith, closed.sockets n), closed.listeners)
