-- ===== src/Tcp.antt =====
-- The portable parts of async_event_loop/tcp.hpp: the backpressure monitor and the connection
-- registry.
pub mod Monitor
pub mod Registry
pub mod Lines
mod Tests
