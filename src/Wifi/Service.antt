-- ===== src/Wifi/Service.antt =====
-- How ArduinoWiFiTcpServer of async_event_loop_arduino/arduino_wifi_tcp.hpp takes, serves and closes
-- connections.
use pypilot_event_loop.Prelude.{
  ℕ, zero, suc, ◌+◌, ◌≤◌, ◌<◌, ◌≡◌, refl, sym, Bool, true, false, not, Option, none, some, List, [],
  ◌∷◌, ◌==◌, if◌then◌else◌, arith, ◌⊎◌, inl, inr, Bool-cases, subst,
}
use pypilot_event_loop.Wifi.{Client, Connection, valid, attach, close}
use pypilot_event_loop.Wifi.Server.{
  ServerApi, Server, Handler, put, slot, close_valid, close_all, close_server, count_valid,
  connection_count, free_slot, take_client, accept_ready_clients, poll_server, poll,
}

module _ {C : Type 0} (api : Client C) (esp : Bool) where
  close_valid-valid : (c : Connection C) → valid api esp (close_valid api esp c) ≡ false
  unfolding valid close
  close_valid-valid c = ground arith

  close_all-count : (cs : List (Connection C)) → count_valid api esp (close_all api esp cs) ≡ 0
  unfolding count_valid close_all
  close_all-count [] = refl
  close_all-count (c ∷ cs) = rw (close_valid-valid c) (close_all-count cs)

  -- A connection that the peer has closed, with nothing left to read.
  pub record IsIdle (c : Connection C) : Type 0 where
    pub no_input : api.available c.client ≡ 0
    pub disconnected : api.connected c.client ≡ false

module _ {S C : Type 0} (api : Client C) (esp : Bool) (blank : Connection C) where
  -- Where the search for a free slot ends.
  abbrev pub SlotFound : ℕ → ℕ → Server S C → Option ℕ → Type 0
  SlotFound left i s none =
      (j : ℕ) → i ≤ j → j < i + left → valid api esp (slot api esp blank j s) ≡ true
  SlotFound left i s (some k) =
      (i ≤ k)
      × (k < i + left)
      × (valid api esp (slot api esp blank k s) ≡ false)
      × ((j : ℕ) → i ≤ j → j < k → valid api esp (slot api esp blank j s) ≡ true)

  free_slot-SlotFound :
      (left i : ℕ) (s : Server S C) → SlotFound left i s (free_slot api esp blank left i s)
  unfolding free_slot
  free_slot-SlotFound zero i s = λ j h k. absurd (omega arith)
  free_slot-SlotFound (suc left) i s =
      let rest = free_slot api esp blank left (i + 1) s in
      let ih = free_slot-SlotFound left (i + 1) s in
      elim (Bool-cases (valid api esp (slot api esp blank i s))) [
        | inl v ↦
            subst (λ b. SlotFound (suc left) i s (if not b then some i else rest)) (sym v)
              (step rest v ih)
        | inr v ↦
            subst (λ b. SlotFound (suc left) i s (if not b then some i else rest)) (sym v)
              (omega arith, omega arith, v, λ j h k. absurd (omega arith))
      ]
    where
      step :
          (o : Option ℕ)
          → valid api esp (slot api esp blank i s) ≡ true
          → SlotFound left (i + 1) s o
          → SlotFound (suc left) i s o
      step none v f = λ j h k. elim (Bool-cases (j == i)) [
        | inl here ↦
            let e : i ≡ j = ground arith in
            subst (λ k. valid api esp (slot api esp blank k s) ≡ true) e v
        | inr later ↦ f j (ground arith) (omega arith)
      ]
      step (some m) v (a, b, d, f) = (
        omega arith,
        omega arith,
        d,
        λ j h k. elim (Bool-cases (j == i)) [
          | inl here ↦
              let e : i ≡ j = ground arith in
              subst (λ k. valid api esp (slot api esp blank k s) ≡ true) e v
          | inr later ↦ f j (ground arith) k
        ],
      )

  module _ {W : Type 0} (handler : Handler S C W) where
    -- What becomes of a client that the library has at hand.
    abbrev pub Accepts : C → Server S C → W → Server S C × W → Type 0
    Accepts client s w out =
        (((j : ℕ) → j < s.max_connections → valid api esp (slot api esp blank j s) ≡ true)
          × (out ≡ (record s { refused = api.stop client ∷ s.refused }, w)))
        ⊎ ((k : ℕ) × (k < s.max_connections)
            × (valid api esp (slot api esp blank k s) ≡ false)
            × ((j : ℕ) → j < k → valid api esp (slot api esp blank j s) ≡ true)
            × (out
                ≡ handler.on_accept k (put k (attach api esp client (slot api esp blank k s)).1 s)
                    w))

    take_client-Accepts :
        (client : C) (s : Server S C) (w : W) (o : Option ℕ)
        → SlotFound s.max_connections 0 s o
        → Accepts client s w (take_client api esp blank handler client o s w)
    unfolding take_client
    take_client-Accepts client s w none f = inl ((λ j k. f j (omega arith) (omega arith)), refl)
    take_client-Accepts client s w (some k) (a, b, d, f) =
        inr (k, omega arith, d, (λ j h. f j (omega arith) h), refl)

    -- A client at hand goes to the first slot without a valid connection, so that no connection is
    -- overwritten, and the handler hears of it there; when every slot has one, it is stopped, and
    -- the handler hears nothing. When there is no client, nothing happens.
    pub accept_ready_clients-Accepts :
        (server_api : ServerApi S C) (server : S) (s : Server S C) (w : W)
        → let client = (server_api.available server).0 in
          let s' = record s { server = some (server_api.available server).1 } in
          let out = accept_ready_clients api esp blank handler server_api server s w in
          ((api.truthy client ≡ false) × (out ≡ (s', w)))
          ⊎ ((api.truthy client ≡ true) × Accepts client s' w out)
    unfolding accept_ready_clients
    accept_ready_clients-Accepts server_api server s w =
        let client = (server_api.available server).0 in
        let s' : Server S C = record s { server = some (server_api.available server).1 } in
        let o = free_slot api esp blank s'.max_connections 0 s' in
        let out = take_client api esp blank handler client o s' w in
        let P : Server S C × W → Type 0 = λ out.
          ((api.truthy client ≡ false) × (out ≡ (s', w)))
          ⊎ ((api.truthy client ≡ true) × Accepts client s' w out) in
        elim (Bool-cases (api.truthy client)) [
          | inl t ↦
              subst (λ b. P (if not b then (s', w) else out)) (sym t)
                (inr (
                  t,
                  take_client-Accepts client s' w o (free_slot-SlotFound s'.max_connections 0 s'),
                ))
          | inr t ↦ subst (λ b. P (if not b then (s', w) else out)) (sym t) (inl (t, refl))
        ]

    -- A closed server has no valid connection, and its polls do nothing until it listens again.
    pub close_server-quiet :
        (server_api : ServerApi S C) (s : Server S C) (w : W)
        → let s' = close_server api esp blank s in
          (connection_count api esp blank s' ≡ 0)
          × (poll api esp blank handler server_api s' w ≡ (s', w))
    unfolding close_server connection_count poll poll_server
    close_server-quiet server_api s w = (close_all-count api esp s.connections, refl)
