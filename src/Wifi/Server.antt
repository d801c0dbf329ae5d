-- ===== src/Wifi/Server.antt =====
-- ArduinoWiFiTcpServer of async_event_loop_arduino/arduino_wifi_tcp.hpp. `S` is the state of the
-- library's WiFiServer, `W` the world that the handler acts on beside the server.
use pypilot_event_loop.Prelude.{
  ℕ, zero, suc, ◌+◌, Bool, true, false, not, ◌||◌, Option, none, some, List, [], ◌∷◌, ltb, ◌==◌,
  if◌then◌else◌, get_or, set, replicate,
}
use pypilot_event_loop.Wifi.{
  Client, Connection, valid, attach, close, flush_output, input_size, closed_by_peer,
}

pub record ServerApi (S C : Type 0) : Type 0 where
  pub make : ℕ → S
  pub available : S → C × S

-- `server`: `none` for the null pointer; `handler` says that the pointer to the handler is not
-- null; `refused` are the clients that were stopped at once, the latest first.
pub record Server (S C : Type 0) : Type 0 where
  pub max_connections : ℕ
  pub server : Option S
  pub handler : Bool
  pub bound_port : ℕ
  pub active : Bool
  pub connections : List (Connection C)
  pub refused : List C

-- The calls of an ITcpServerHandler, each on the connection of an index. A handler may do anything
-- to the server.
pub record Handler (S C W : Type 0) : Type 0 where
  pub on_accept : ℕ → Server S C → W → Server S C × W
  pub on_write_ready : ℕ → Server S C → W → Server S C × W
  pub on_data : ℕ → Server S C → W → Server S C × W
  pub on_close : ℕ → Server S C → W → Server S C × W

abbrev pub max_slots : ℕ
max_slots = 4

module _ {C : Type 0} (api : Client C) (esp : Bool) where
  abbrev pub close_valid : Connection C → Connection C
  close_valid c = if valid api esp c then close api esp c else c

  unfoldable pub close_all : List (Connection C) → List (Connection C)
  close_all [] = []
  close_all (c ∷ cs) = close_valid c ∷ close_all cs

  unfoldable pub count_valid : List (Connection C) → ℕ
  count_valid [] = 0
  count_valid (c ∷ cs) = if valid api esp c then suc (count_valid cs) else count_valid cs

module _ {S C : Type 0} where
  abbrev pub put : ℕ → Connection C → Server S C → Server S C
  put i c s = record s { connections = set s.connections i c }

  abbrev pub is_open : Server S C → Bool
  is_open s = elim s.server [ none ↦ false | some server ↦ s.active ]

  module _ (api : Client C) (esp : Bool) (blank : Connection C) where
    abbrev pub new : ℕ → Server S C
    new max_connections = record {
      max_connections = if ltb max_slots max_connections then max_slots else max_connections;
      server = none;
      handler = false;
      bound_port = 0;
      active = false;
      connections = replicate max_slots blank;
      refused = [];
    }

    abbrev pub slot : ℕ → Server S C → Connection C
    slot i s = get_or s.connections i blank

    unfoldable pub close_server : Server S C → Server S C
    close_server s = record s {
      connections = close_all api esp s.connections;
      server = none;
      active = false;
      handler = false;
      bound_port = 0;
    }

    unfoldable pub connection_count : Server S C → ℕ
    unfolding count_valid
    connection_count s = count_valid api esp s.connections

    unfoldable pub listen : ServerApi S C → ℕ → Server S C → Bool × Server S C
    listen server_api port s =
        let s' = close_server s in
        if port == 0 then (false, s') else (
          true,
          record s' {
            server = some (server_api.make port);
            handler = true;
            bound_port = port;
            active = true;
          },
        )

    -- The search of `accept_ready_clients` for the first slot without a valid connection.
    unfoldable pub free_slot : ℕ → ℕ → Server S C → Option ℕ
    free_slot zero i s = none
    free_slot (suc left) i s =
        let rest = free_slot left (i + 1) s in
        if not (valid api esp (slot i s)) then some i else rest

    module _ {W : Type 0} (handler : Handler S C W) where
      unfoldable pub take_client : C → Option ℕ → Server S C → W → Server S C × W
      take_client client none s w = (record s { refused = api.stop client ∷ s.refused }, w)
      take_client client (some i) s w =
          handler.on_accept i (put i (attach api esp client (slot i s)).1 s) w

      unfoldable pub accept_ready_clients : ServerApi S C → S → Server S C → W → Server S C × W
      unfolding take_client
      accept_ready_clients server_api server s w =
          let (client, server') = server_api.available server in
          let s' = record s { server = some server' } in
          if not (api.truthy client)
          then (s', w)
          else take_client client (free_slot s'.max_connections 0 s') s' w

      -- The three parts of a round of `poll_connections`, each on what the one before leaves.
      unfoldable pub write_part : ℕ → Server S C → W → Server S C × W
      write_part i s w =
          let (flushed, c) = flush_output api esp (slot i s) in
          if ltb 0 flushed then handler.on_write_ready i (put i c s) w else (put i c s, w)

      unfoldable pub data_part : ℕ → Server S C → W → Server S C × W
      data_part i s w =
          if ltb 0 (input_size api esp (slot i s)) then handler.on_data i s w else (s, w)

      unfoldable pub close_part : ℕ → Server S C → W → Server S C × W
      close_part i s w =
          let (s', w') = handler.on_close i s w in
          if closed_by_peer api esp (slot i s)
          then (put i (close api esp (slot i s')) s', w')
          else (s, w)

      unfoldable pub poll_connection : ℕ → Server S C → W → Server S C × W
      unfolding write_part data_part close_part
      poll_connection i s w =
          let (s1, w1) = write_part i s w in
          let (s2, w2) = data_part i s1 w1 in
          if not (valid api esp (slot i s)) then (s, w) else close_part i s2 w2

      unfoldable pub poll_connections : ℕ → ℕ → Server S C → W → Server S C × W
      poll_connections zero i s w = (s, w)
      poll_connections (suc left) i s w =
          let (s', w') = poll_connection i s w in poll_connections left (i + 1) s' w'

      -- `poll` on the pointer to the WiFiServer.
      unfoldable pub poll_server : ServerApi S C → Option S → Server S C → W → Server S C × W
      poll_server server_api none s w = (s, w)
      poll_server server_api (some server) s w =
          let (s', w') = accept_ready_clients server_api server s w in
          if not s.active || not s.handler
          then (s, w)
          else poll_connections s'.max_connections 0 s' w'

      unfoldable pub poll : ServerApi S C → Server S C → W → Server S C × W
      unfolding poll_server
      poll server_api s w = poll_server server_api s.server s w
