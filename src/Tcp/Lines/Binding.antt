-- ===== src/Tcp/Lines/Binding.antt =====
-- What the calls of TcpLineServerHandler, async_event_loop/tcp_line_protocol.hpp, do to the binding
-- of its slots.
use pypilot_event_loop.Prelude.{
  ℕ, zero, suc, ◌≤◌, ◌≡◌, ◌≢◌, refl, sym, ap, ◌∙◌, subst, Option, none, some, List, [], ◌∷◌,
  get_elem?, arith, inl, inr, Bool-cases, ◌==◌,
}
use pypilot_event_loop.Reader.Line.{LineReader}
use pypilot_event_loop.Tcp.Monitor.{TcpBackpressureOptions}
use pypilot_event_loop.Tcp.Lines.{
  Connections, LineServerHandler, Slot, is_bound_to, find_slot, update_slot, reset_slot, acquire,
  release,
}
use pypilot_event_loop.Tcp.Lines.Server.{
  check_bound, check_backpressure, check_all_backpressure, accept_at, on_accept, poll_done,
  poll_slot, data_at, on_data, check_at, write_ready_at, on_write_ready, on_close, on_error,
  set_reader, Event, accepts, data_arrives, write_ready, closes, fails, handle,
}
use pypilot_event_loop.Tcp.Lines.Slots.{
  one, times, IsUnique, readers, update_slot-readers, Acquires, acquire-Acquires, release-Releases,
}

module _ {W : Type 0} where
  abbrev bound_in : ℕ → Option (Slot W) → ℕ
  bound_in d none = 0
  bound_in d (some s) = one d s.connection

  -- A change of a slot that binds nothing.
  update-times :
      (i : ℕ) (f : Slot W → Slot W) (ss : List (Slot W))
      → ((d : ℕ) (s : Slot W)
          → get_elem? ss i ≡ some s
          → one d (f s).connection ≤ one d s.connection)
      → (d : ℕ) → times d (update_slot i f ss) ≤ times d ss
  update-times i f [] h d = omega arith
  update-times zero f (s ∷ ss) h d = let x = h d s refl in omega arith
  update-times (suc i) f (s ∷ ss) h d = let x = update-times i f ss h d in omega arith

module _ {W : Type 0} (net : Connections W) (handler : LineServerHandler W)
    (options : TcpBackpressureOptions) (buffer_size : ℕ) where
  check_bound-one :
      (o : Option ℕ) (s : Slot W) (w : W) (d : ℕ)
      → one d (check_bound net handler options buffer_size o s w).0.connection ≤ one d s.connection
  check_bound-one none s w d = omega arith
  check_bound-one (some c) s w d = ground arith

  check_backpressure-one :
      (s : Slot W) (w : W) (d : ℕ)
      → one d (check_backpressure net handler options buffer_size s w).0.connection
        ≤ one d s.connection
  unfolding check_backpressure
  check_backpressure-one s w d = check_bound-one s.connection s w d

  check_all-times :
      (ss : List (Slot W)) (w : W) (d : ℕ)
      → times d (check_all_backpressure net handler options buffer_size ss w).0 ≤ times d ss
  unfolding check_all_backpressure
  check_all-times [] w d = omega arith
  check_all-times (s ∷ ss) w d =
      let x = check_backpressure-one s w d in
      let y = check_all-times ss (check_backpressure net handler options buffer_size s w).1 d in
      omega arith

  fewer-IsUnique :
      (ss ss' : List (Slot W)) → IsUnique ss → ((d : ℕ) → times d ss' ≤ times d ss) → IsUnique ss'
  unfolding IsUnique
  fewer-IsUnique ss ss' u h d = let x = u d in let y = h d in omega arith

  -- The slots with one connection more or less.
  changed-IsUnique :
      (c : ℕ) (ss ss' : List (Slot W))
      → IsUnique ss
      → times c ss' ≤ 1
      → ((d : ℕ) → d ≢ c → times d ss' ≡ times d ss)
      → IsUnique ss'
  unfolding IsUnique
  changed-IsUnique c ss ss' u h others d = elim (Bool-cases (d == c)) [
    | inl same ↦ let e : c ≡ d = ground arith in subst (λ k. times k ss' ≤ 1) e h
    | inr other ↦ let ne : d ≢ c = ground arith in let x = others d ne in let y = u d in omega arith
  ]

  release-IsUnique : (c : ℕ) (ss : List (Slot W)) → IsUnique ss → IsUnique (release c ss)
  release-IsUnique c ss u =
      let (gone, others, _) = release-Releases c ss u in
      changed-IsUnique c ss (release c ss) u (omega arith) others

  -- The slots are in order after a call that comes to an end.
  abbrev pub Ordered : Option (List (Slot W) × W) → Type 0
  Ordered none = Unit {0}
  Ordered (some (ss, w)) = IsUnique ss

  accept_at-IsUnique :
      (c : ℕ) (o : Option (ℕ × List (Slot W))) (ss : List (Slot W)) (w : W)
      → IsUnique ss
      → Acquires c ss o
      → IsUnique (accept_at net handler options buffer_size c o ss w).0
  accept_at-IsUnique c none ss w u a = u
  accept_at-IsUnique c (some (i, ss')) ss w u (mine, others, _, _) =
      fewer-IsUnique ss' (update_slot i reset_slot ss')
        (changed-IsUnique c ss ss' u (omega arith) others)
        (update-times i reset_slot ss' (λ d s f. omega arith))

  poll_done-Ordered :
      (i : ℕ) (ss : List (Slot W)) (o : Option (LineReader W × W))
      → IsUnique ss
      → Ordered (poll_done net handler options buffer_size i ss o)
  poll_done-Ordered i ss none u = tt
  poll_done-Ordered i ss (some (r, w)) u = fewer-IsUnique ss _ u (λ d.
      let x = update-times i (set_reader r) ss (λ d s f. omega arith) d in
      let y = check_all-times (update_slot i (set_reader r) ss) w d in omega arith)

  poll_slot-Ordered :
      (fuel i : ℕ) (o : Option (Slot W)) (ss : List (Slot W)) (w : W)
      → IsUnique ss
      → Ordered (poll_slot net handler options buffer_size fuel i o ss w)
  poll_slot-Ordered fuel i none ss w u = fewer-IsUnique ss _ u (check_all-times ss w)
  poll_slot-Ordered fuel i (some s) ss w u = poll_done-Ordered i ss _ u

  data_at-Ordered :
      (fuel c : ℕ) (o : Option (ℕ × List (Slot W))) (ss : List (Slot W)) (w : W)
      → IsUnique ss
      → Acquires c ss o
      → Ordered (data_at net handler options buffer_size fuel c o ss w)
  data_at-Ordered fuel c none ss w u a = u
  data_at-Ordered fuel c (some (i, ss')) ss w u (mine, others, _, _) =
      poll_slot-Ordered fuel i (get_elem? ss' i) ss' w
        (changed-IsUnique c ss ss' u (omega arith) others)

  write_ready_at-IsUnique :
      (o : Option ℕ) (ss : List (Slot W)) (w : W)
      → IsUnique ss
      → IsUnique (write_ready_at net handler options buffer_size o ss w).0
  write_ready_at-IsUnique none ss w u = u
  write_ready_at-IsUnique (some i) ss w u = at (get_elem? ss i) refl
    where
      at :
          (o : Option (Slot W))
          → get_elem? ss i ≡ o
          → IsUnique (check_at net handler options buffer_size i o ss w).0
      at none e = u
      at (some s) e =
          let s' = (check_backpressure net handler options buffer_size s w).0 in
          fewer-IsUnique ss (update_slot i (λ x. s') ss) u (
            update-times i (λ x. s') ss
              (λ d t f.
                let x = check_backpressure-one s w d in
                let y = ap (bound_in d) (sym f ∙ e) in omega arith))

  -- No event of the connections gives a connection a second slot: when no connection has two slots
  -- before it, none has two after it, whatever the handler does to the connections.
  pub handle-Ordered :
      (e : Event) (ss : List (Slot W)) (w : W)
      → IsUnique ss
      → Ordered (handle net handler options buffer_size e ss w)
  unfolding on_accept on_data on_write_ready on_close on_error
  handle-Ordered (accepts c) ss w u =
      accept_at-IsUnique c (acquire c ss) ss w u (acquire-Acquires c ss u)
  handle-Ordered (data_arrives fuel c) ss w u =
      data_at-Ordered fuel c (acquire c ss) ss w u (acquire-Acquires c ss u)
  handle-Ordered (write_ready c) ss w u =
      write_ready_at-IsUnique (find_slot (is_bound_to c) 0 ss) ss w u
  handle-Ordered (closes c) ss w u = release-IsUnique c ss u
  handle-Ordered (fails c code) ss w u = release-IsUnique c ss u

  accept_at-readers :
      (c : ℕ) (o : Option (ℕ × List (Slot W))) (ss : List (Slot W)) (w : W)
      → Acquires c ss o
      → readers (accept_at net handler options buffer_size c o ss w).0 ≡ readers ss
  accept_at-readers c none ss w a = refl
  accept_at-readers c (some (i, ss')) ss w (_, _, same, _) =
      update_slot-readers i reset_slot ss' (λ s. refl) ∙ same

  -- The close of a connection and the acceptance of another leave every reader as it is: a line
  -- that the closed connection has begun is still in the reader of its slot when the next
  -- connection takes the slot.
  pub on_accept-readers :
      (c d : ℕ) (ss : List (Slot W)) (w : W)
      → IsUnique ss
      → let (closed, w') = on_close net handler options buffer_size c ss w in
        readers (on_accept net handler options buffer_size d closed w').0 ≡ readers ss
  unfolding on_close on_accept
  on_accept-readers c d ss w u =
      let closed = release c ss in
      accept_at-readers d (acquire d closed) closed (handler.on_close c w)
        (acquire-Acquires d closed (release-IsUnique c ss u))
      ∙ (release-Releases c ss u).2
