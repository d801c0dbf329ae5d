-- ===== src/Pins/Interrupt.antt =====
-- ArduinoInterruptPinEventSource of async_event_loop_arduino/arduino_interrupt_pin_event_source.hpp.
-- The body of the guard of arduino_interrupt_guard.hpp is one step; an interrupt comes before it or
-- after it.
pub mod Bursts
use pypilot_event_loop.Prelude.{
  ℕ, Bool, true, false, Option, none, some, List, [], ◌∷◌, add16, add32, ◌==◌, if◌then◌else◌,
}
use pypilot_event_loop.Pins.{PinEventType, PinEvent}

pub record InterruptEventInfo : Type 0 where
  pub source_id : ℕ
  pub count : ℕ
  pub dropped : ℕ
  pub last_timestamp_us : ℕ

pub record InterruptPinEventSource : Type 0 where
  pub pin : ℕ
  pub event_type : PinEventType
  pub source_id : ℕ
  pub sequence : ℕ
  pub last_info : InterruptEventInfo
  pub pending_count : ℕ
  pub dropped_count : ℕ
  pub last_timestamp_us : ℕ
  pub last_level : Bool
  pub has_level : Bool

-- An interrupt: what `micros` gives in it, and the level it passes.
pub record Notification : Type 0 where
  pub now : ℕ
  pub level : Bool

-- The constructor, with the member initialisers.
abbrev pub new : ℕ → PinEventType → ℕ → InterruptPinEventSource
new pin event_type source_id = record {
  pin = pin;
  event_type = event_type;
  source_id = if source_id == 0 then pin else source_id;
  sequence = 0;
  last_info = record { source_id = 0; count = 0; dropped = 0; last_timestamp_us = 0 };
  pending_count = 0;
  dropped_count = 0;
  last_timestamp_us = 0;
  last_level = false;
  has_level = false;
}

unfoldable pub notify_from_isr : InterruptPinEventSource → Notification → InterruptPinEventSource
notify_from_isr s n =
    if s.pending_count == 0xffff
    then record s { dropped_count = add16 s.dropped_count 1 }
    else record s {
      pending_count = add16 s.pending_count 1;
      last_timestamp_us = n.now;
      last_level = n.level;
      has_level = true;
    }

-- The local variables of `read_event` after the guarded block.
pub record Pending : Type 0 where
  pub count : ℕ
  pub dropped : ℕ
  pub timestamp : ℕ
  pub level : Bool
  pub has_level : Bool

-- The guarded block: `none` for the early return.
unfoldable pub take_pending : InterruptPinEventSource → Option Pending × InterruptPinEventSource
take_pending s = if s.pending_count == 0 then (none, s) else (
  some (record {
    count = s.pending_count;
    dropped = s.dropped_count;
    timestamp = s.last_timestamp_us;
    level = s.last_level;
    has_level = s.has_level;
  }),
  record s { pending_count = 0; dropped_count = 0 },
)

-- What follows the guarded block, outside of the guard.
unfoldable pub fill_event : Pending → InterruptPinEventSource → PinEvent × InterruptPinEventSource
fill_event p s =
    let sequence = add32 s.sequence 1 in
    let info : InterruptEventInfo = record {
      source_id = s.source_id;
      count = p.count;
      dropped = p.dropped;
      last_timestamp_us = p.timestamp;
    } in
    let event : PinEvent = record {
      type = s.event_type;
      timestamp_us = p.timestamp;
      source_id = s.source_id;
      sequence = sequence;
      level = if p.has_level then p.level else false;
    } in
    (event, record s { last_info = info; sequence = sequence })

abbrev pub notify_all : InterruptPinEventSource → List Notification → InterruptPinEventSource
notify_all s [] = s
notify_all s (n ∷ ns) = notify_all (notify_from_isr s n) ns

unfoldable pub finish_read :
    Option Pending → InterruptPinEventSource → Option PinEvent × InterruptPinEventSource
unfolding fill_event
finish_read none s = (none, s)
finish_read (some p) s = let (event, s') = fill_event p s in (some event, s')

-- `read_event` with the interrupts `during` between its guarded block and its end.
unfoldable pub read_event_during :
    List Notification → InterruptPinEventSource → Option PinEvent × InterruptPinEventSource
unfolding take_pending finish_read
read_event_during during s =
    let (taken, s') = take_pending s in finish_read taken (notify_all s' during)

abbrev pub read_event : InterruptPinEventSource → Option PinEvent × InterruptPinEventSource
read_event = read_event_during []
