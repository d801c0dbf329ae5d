-- ===== src/Wifi/Endpoint.antt =====
-- ArduinoWiFiTcpClient of async_event_loop_arduino/arduino_wifi_tcp.hpp. `W` is the world that the
-- handler acts on beside the client.
use pypilot_event_loop.Prelude.{Bool, true, false, not, ◌||◌, ltb, if◌then◌else◌}
use pypilot_event_loop.Wifi.{
  Client, Connection, valid, attach, close, flush_output, input_size, closed_by_peer,
}

-- `handler` says that the pointer to the handler is not null.
pub record Endpoint (C : Type 0) : Type 0 where
  pub handler : Bool
  pub connection : Connection C

-- The calls of an ITcpClientHandler. A handler may do anything to the client.
pub record Handler (C W : Type 0) : Type 0 where
  pub on_connect : Endpoint C → W → Endpoint C × W
  pub on_write_ready : Endpoint C → W → Endpoint C × W
  pub on_data : Endpoint C → W → Endpoint C × W
  pub on_close : Endpoint C → W → Endpoint C × W
  pub on_error : Endpoint C → W → Endpoint C × W

module _ {C : Type 0} (api : Client C) (esp : Bool) where
  unfoldable pub close_endpoint : Endpoint C → Endpoint C
  close_endpoint e = record { handler = false; connection = close api esp e.connection }

  module _ {W : Type 0} (handler : Handler C W) where
    -- `given` says that the host is not null and the port not 0; `made` is the WiFiClient behind
    -- its `connect`, and whether that succeeded.
    unfoldable pub connect : Bool → Bool × C → Endpoint C → W → Bool × Endpoint C × W
    connect given made e w =
        let e0 = close_endpoint e in
        let (e1, w1) = handler.on_error e0 w in
        let opened : Endpoint C = record {
          handler = true;
          connection = (attach api esp made.1 e0.connection).1;
        } in
        let (e2, w2) = handler.on_connect opened w in
        if not given || not made.0 then (false, e1, w1) else (true, e2, w2)

    unfoldable pub write_part : Endpoint C → W → Endpoint C × W
    write_part e w =
        let (flushed, c) = flush_output api esp e.connection in
        let e' = record e { connection = c } in
        if ltb 0 flushed then handler.on_write_ready e' w else (e', w)

    unfoldable pub data_part : Endpoint C → W → Endpoint C × W
    data_part e w = if ltb 0 (input_size api esp e.connection) then handler.on_data e w else (e, w)

    unfoldable pub close_part : Endpoint C → W → Endpoint C × W
    close_part e w =
        let (e', w') = handler.on_close e w in
        if closed_by_peer api esp e.connection
        then (record { handler = false; connection = close api esp e'.connection }, w')
        else (e, w)

    unfoldable pub poll : Endpoint C → W → Endpoint C × W
    unfolding write_part data_part close_part
    poll e w =
        let (e1, w1) = write_part e w in
        let (e2, w2) = data_part e1 w1 in
        if not e.handler || not (valid api esp e.connection) then (e, w) else close_part e2 w2
