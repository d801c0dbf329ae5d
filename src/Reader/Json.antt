-- ===== src/Reader/Json.antt =====
-- JsonProtocolReader of async_event_loop/protocol_reader.hpp.
pub mod Bytes
pub mod NumberText
pub mod Defs
pub mod Spec
pub mod Refine
pub mod Handlers
pub mod Containers
pub mod Steps
pub mod Poll
mod Tests
