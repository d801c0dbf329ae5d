-- ===== src/Pins.antt =====
-- The pin events of async_event_loop/pin_io.hpp, as the sources of async_event_loop_arduino report
-- them.
pub mod Digital
pub mod Interrupt
mod Tests
use pypilot_event_loop.Prelude.{ℕ, Bool}

pub data PinEventType : Type 0 where
  rising_edge : PinEventType
  falling_edge : PinEventType
  change : PinEventType
  high_level : PinEventType
  low_level : PinEventType

pub record PinEvent : Type 0 where
  pub type : PinEventType
  pub timestamp_us : ℕ
  pub source_id : ℕ
  pub sequence : ℕ
  pub level : Bool
