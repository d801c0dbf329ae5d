-- ===== src/EventLoop/Stale.antt =====
-- The handles left over from earlier uses of a slot.
use pypilot_event_loop.EventLoop.{EventLoop}
