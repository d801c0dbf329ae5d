-- ===== src/Lib.antt =====
-- Verification library of pypilot-event-loop: the portable event loop of the modular C++ pypilot
-- (src/async_event_loop and its Arduino and Linux backends).
--
-- Clock models src/async_event_loop/micros32_extender.hpp, Timer and Task the timers and
-- CallbackTask of src/async_event_loop/scheduler.hpp, FixedVector fixed_vector.hpp, Ring the
-- circular buffer that memory_stream.hpp and memory_pin_event_source.hpp share, MemoryStream
-- memory_stream.hpp, Reader the protocol readers of protocol_reader.hpp, EventLoop the facade of
-- event_loop.hpp over any scheduler with the operations of IScheduler, and ArduinoLoop the
-- cooperative scheduler of src/async_event_loop_arduino/arduino_loop.hpp. Libevent models the
-- other scheduler, src/async_event_loop_linux/libevent_loop.hpp. Tcp models the backpressure
-- monitor and the connection registry of src/async_event_loop/tcp.hpp, Tcp.Lines the line server
-- and the line client of src/async_event_loop/tcp_line_protocol.hpp over the line reader and the
-- monitor, and Wifi the connection, the server and the client of
-- src/async_event_loop_arduino/arduino_wifi_tcp.hpp. LinuxTcp models the connections and the
-- server of src/async_event_loop_linux/linux_tcp_server.hpp, and LinuxTcp.Client the client of
-- linux_tcp_client.hpp beside it; LinuxTcp.Transfer and LinuxTcp.Client.Transfer have the
-- transfers of their connections. Gpiod models linux_gpiod_pin_event_source.hpp and
-- linux_gpiod_pin_io.hpp there. Pins models the pin event sources arduino_pin_event_source.hpp
-- and arduino_interrupt_pin_event_source.hpp of src/async_event_loop_arduino, and Wifi.Join
-- joining a network in arduino_wifi.hpp there. Each module carries the C++ name of what it
-- models; a method takes the object's record and returns the new record beside its result.
-- Numbers are natural numbers; where the C++ type wraps, the wrap-around is written out
-- (Prelude.Words), size_t and uint64_t being 64 bits wide.
--
-- Arrays are lists of their full length and indices are kept as in the code. A callback is a
-- function on the state W that the stream and the callbacks share; a callback does not call the
-- reader that called it. What a reader's theorem asks of a stream and a callback is the record
-- Device (Stream.Device), which a MemoryByteStream with a recording callback meets
-- (Stream.Memory).
--
-- Loops take fuel where their end depends on a computed value: `PeriodicTimer::ready` gets one
-- round for each microsecond of the time, and `poll` of a reader any fuel above the number of
-- bytes in the stream; a round of ArduinoLoop visits MaxTasks entries at most. The theorems show
-- that this is enough. `consume` of the JSON reader may call itself, and does so at most once;
-- `try_emit` of the header+payload reader has one call for each byte that it holds, and makes
-- one.
--
-- A program that runs on an EventLoop is a sequence of steps (EventLoop.Running): calls of the
-- loop, and the parts of the polls of its tasks, between which a callback makes calls of its own.
--
-- EventLoop.Arduino puts the two together: the operations of ArduinoLoop are the Scheduler of a
-- loop.
--
-- Libraries are parameters. What LinuxLibeventLoop asks of libevent is a log of commands, and the
-- answers of libevent and the clock are arguments; a callback whose item is gone has no result
-- (Libevent.Calls), and Libevent.Reachable has the runs of the loop. A WiFiClient is a record of
-- its functions (Wifi.Client); what the theorems ask of its `write` and `read` are the records
-- Wifi.Transmission.Sends and Wifi.Lines.Reads, of which the client of Wifi.Tests meets
-- the first and that of LinuxTcp.Transfer.Tests the second. The buffers of libevent are the record
-- LinuxTcp.Transfer.Bufferevents, and LinuxTcp.Transfer.Queue.IsQueue says what the theorems ask
-- of them; LinuxTcp.Client.Transfer.Socket and Same.Receives are this for a socket. The radio and
-- the clock of Wifi.Join are a record too, with what the theorem asks of the time in
-- Wifi.Join.Timeout.Keeps, which the clock of Wifi.Join.Tests meets; its fuel is the timeout in
-- milliseconds and one. The levels of a pin and its interrupts are lists. The answers of sockets
-- and of libgpiod are arguments, the calls that make, use and free an object of libgpiod a log
-- (Gpiod), and LinuxTcp.Events has the runs of the Linux server. The handlers of the servers are
-- functions on all that they may change. `flush_output` of a WiFi connection gets one round for
-- each waiting byte and `push_output` one for each byte given, which the theorems show to be
-- enough; `read_line` takes any fuel above the length of the line.
--
-- Not modelled: placement of callables in raw storage (alignment, sizes), the virtual interfaces
-- without code, and input and output through the sockets, files, pins and radios of the backends
-- that are not named above.
pub mod Prelude
pub mod Clock
pub mod Timer
pub mod Task
pub mod Tcp
pub mod Wifi
pub mod LinuxTcp
pub mod Libevent
pub mod EventLoop
pub mod ArduinoLoop
pub mod FixedVector
pub mod Ring
pub mod MemoryStream
pub mod Stream
pub mod Pins
pub mod Gpiod
pub mod Reader
