-- ===== src/Timer.antt =====
-- PeriodicTimer and OneShotTimer of async_event_loop/scheduler.hpp.
pub mod Periodic
pub mod OneShot
