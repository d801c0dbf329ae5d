-- ===== src/LinuxTcp/Limit.antt =====
-- The number of connections of LinuxTcpServer, async_event_loop_linux/linux_tcp_server.hpp.
use pypilot_event_loop.Prelude.{
  ℕ, suc, ◌≤◌, ◌≡◌, refl, sym, ap, ◌∙◌, subst, Bool, true, false, not, List, [], ◌∷◌, ◌++◌, ◌==◌,
  if◌then◌else◌, length, arith, inl, inr, Bool-cases,
}
use pypilot_event_loop.LinuxTcp.{
  Connection, Server, close_bev, sweep, close_in, count_valid, connection_count, sweep_closed,
  close_connection, remove, close_server, Call, closes, removes, shuts, call, calls,
}

-- A connection is to be removed exactly when its bufferevent is gone.
abbrev pub AllConsistent : List Connection → Type 0
AllConsistent [] = Unit {0}
AllConsistent (c ∷ cs) = (c.bev ≡ not c.remove_requested) × AllConsistent cs

-- The server is within its limit, and its connections are consistent.
pub record IsValid (s : Server) : Type 0 where
  pub within : count_valid s.connections ≤ s.max_connections
  pub consistent : AllConsistent s.connections

sweep-count :
    (cs : List Connection) (freed : List ℕ)
    → AllConsistent cs
    → (count_valid (sweep cs freed).0 ≡ count_valid cs)
      × AllConsistent (sweep cs freed).0
      × (count_valid (sweep cs freed).0 ≡ length (sweep cs freed).0)
sweep-count [] freed a = (refl, tt, refl)
sweep-count (c ∷ cs) freed (e, a) =
    let dropped = sweep-count cs (close_bev c freed) a in
    let kept = sweep-count cs freed a in
    let out : Bool → List Connection = λ b.
      (if b
        then sweep cs (close_bev c freed)
        else (c ∷ (sweep cs freed).0, (sweep cs freed).1)).0 in
    let P : Bool → Type 0 = λ b.
      (count_valid (out b) ≡ count_valid (c ∷ cs))
      × AllConsistent (out b)
      × (count_valid (out b) ≡ length (out b)) in
    elim (Bool-cases c.remove_requested) [
      | inl r ↦
          let dead : c.bev ≡ false = e ∙ ap not r in
          subst P (sym r) (
            dropped.0 ∙ sym (ap (λ b. if b then suc (count_valid cs) else count_valid cs) dead),
            dropped.1,
            dropped.2,
          )
      | inr r ↦
          let live : c.bev ≡ true = e ∙ ap not r in
          let counted : (xs : List Connection) → count_valid (c ∷ xs) ≡ suc (count_valid xs) =
            λ xs. ap (λ b. if b then suc (count_valid xs) else count_valid xs) live in
          let xs = (sweep cs freed).0 in
          subst P (sym r)
            (counted xs ∙ ap suc kept.0 ∙ sym (counted cs), (e, kept.1), counted xs ∙ ap suc kept.2)
    ]

close_in-count :
    (id : ℕ) (cs : List Connection) (freed : List ℕ)
    → AllConsistent cs
    → (count_valid (close_in id cs freed).0 ≤ count_valid cs)
      × AllConsistent (close_in id cs freed).0
close_in-count id [] freed a = (omega arith, tt)
close_in-count id (c ∷ cs) freed (e, a) =
    let closed = close_in-count id cs (close_bev c freed) a in
    let rest = close_in-count id cs freed a in
    let closed_in = close_in id cs (close_bev c freed) in
    let rest_in = close_in id cs freed in
    elim (c.id == id)
      as (λ b.
        let out : List Connection × List ℕ =
          if b
          then (record c { bev = false; remove_requested = true } ∷ closed_in.0, closed_in.1)
          else (c ∷ rest_in.0, rest_in.1) in
        (count_valid out.0 ≤ count_valid (c ∷ cs)) × AllConsistent out.0) [
          | true ↦ (ground (arith, closed), (refl, closed.1))
          | false ↦ (ground (arith, rest), (e, rest.1))
        ]

pub append-count :
    (cs : List Connection) (c : Connection)
    → AllConsistent cs
    → (c.bev ≡ not c.remove_requested)
    → (count_valid (cs ++ c ∷ []) ≤ suc (count_valid cs)) × AllConsistent (cs ++ c ∷ [])
append-count [] c a e = (ground arith, (e, tt))
append-count (d ∷ cs) c (f, a) e = let ih = append-count cs c a e in (ground (arith, ih), (f, ih.1))

-- A server that may have lost connections.
abbrev pub Fewer : Server → Server → Type 0
Fewer s s' =
    (count_valid s'.connections ≤ count_valid s.connections)
    × AllConsistent s'.connections
    × (s'.max_connections ≡ s.max_connections)

pub close_connection-Fewer :
    (id : ℕ) (s : Server) → AllConsistent s.connections → Fewer s (close_connection id s)
unfolding close_connection
close_connection-Fewer id s a =
    let c = close_in-count id s.connections s.freed a in (c.0, c.1, refl)

-- `sweep_closed` keeps the valid connections and no other.
pub sweep_closed-Fewer :
    (s : Server)
    → AllConsistent s.connections
    → Fewer s (sweep_closed s)
      × (connection_count (sweep_closed s) ≡ length (sweep_closed s).connections)
      × ((sweep_closed s).handler ≡ s.handler)
unfolding sweep_closed connection_count
sweep_closed-Fewer s a =
    let c = sweep-count s.connections s.freed a in ((omega (arith, c.0), c.1, refl), c.2, refl)

pub call-Fewer : (c : Call) (s : Server) → AllConsistent s.connections → Fewer s (call c s)
unfolding remove close_server
call-Fewer (closes id) s a = close_connection-Fewer id s a
call-Fewer (removes id) s a =
    let c = close_connection-Fewer id s a in
    let w = (sweep_closed-Fewer (close_connection id s) c.1).0 in
    (omega (arith, c.0, w.0), w.1, w.2 ∙ c.2)
call-Fewer shuts s a = (omega arith, tt, refl)

pub calls-Fewer : (cs : List Call) (s : Server) → AllConsistent s.connections → Fewer s (calls cs s)
calls-Fewer [] s a = (omega arith, a, refl)
calls-Fewer (c ∷ cs) s a =
    let x = call-Fewer c s a in
    let y = calls-Fewer cs (call c s) x.1 in (omega (arith, x.0, y.0), y.1, y.2 ∙ x.2)

pub Fewer-IsValid : (s s' : Server) → IsValid s → Fewer s s' → IsValid s'
Fewer-IsValid s s' v (a, b, e) = record {
  within = rw e (omega (arith, a, v.within));
  consistent = b;
}

-- After `sweep_closed` no closed connection is left.
abbrev pub IsSwept : Server → Type 0
IsSwept s = connection_count s ≡ length s.connections

pub swept : (s : Server) → IsValid s → IsValid (sweep_closed s) × IsSwept (sweep_closed s)
swept s v =
    let w = sweep_closed-Fewer s v.consistent in (Fewer-IsValid s (sweep_closed s) v w.0, w.1)
