-- ===== src/Pins/Digital.antt =====
-- ArduinoDigitalPinEventSource of async_event_loop_arduino/arduino_pin_event_source.hpp. A sample
-- is what `digitalRead` gives of the pin and what `micros` gives of the clock at a `read_event`.
pub mod Edges
use pypilot_event_loop.Prelude.{
  ℕ, Bool, true, false, not, ◌&&◌, ◌||◌, Option, none, some, List, [], ◌∷◌, add32, if◌then◌else◌,
}
use pypilot_event_loop.Pins.{
  PinEventType, rising_edge, falling_edge, change, high_level, low_level, PinEvent,
}

pub record DigitalPinEventSource : Type 0 where
  pub pin : ℕ
  pub event_type : PinEventType
  pub sequence : ℕ
  pub ready : Bool
  pub has_last : Bool
  pub last_level : Bool

abbrev pub Sample : Type 0
Sample = Bool × ℕ

-- The constructor. The mode is for `pinMode` alone.
abbrev pub new : ℕ → PinEventType → DigitalPinEventSource
new pin event_type = record {
  pin = pin;
  event_type = event_type;
  sequence = 0;
  ready = false;
  has_last = false;
  last_level = false;
}

unfoldable pub begin : DigitalPinEventSource → DigitalPinEventSource
begin s = record s { ready = true }

unfoldable pub matches : PinEventType → Bool → Bool → Bool
matches rising_edge previous current = not previous && current
matches falling_edge previous current = previous && not current
matches change previous current = (previous && not current) || (not previous && current)
matches high_level previous current = current
matches low_level previous current = not current

unfoldable pub edge_type : PinEventType → Bool → Bool → PinEventType
edge_type event_type previous current =
    if not previous && current
    then rising_edge
    else (if previous && not current then falling_edge else event_type)

-- The event of type `type`, with the next sequence number.
unfoldable pub report :
    DigitalPinEventSource → PinEventType → Sample → Option PinEvent × DigitalPinEventSource
report s type sample =
    let sequence = add32 s.sequence 1 in
    let event : PinEvent = record {
      type = type;
      timestamp_us = sample.1;
      source_id = s.pin;
      sequence = sequence;
      level = sample.0;
    } in
    (some event, record s { sequence = sequence })

unfoldable pub selects_level : PinEventType → Bool → Bool
selects_level rising_edge current = false
selects_level falling_edge current = false
selects_level change current = false
selects_level high_level current = current
selects_level low_level current = not current

unfoldable pub level_event :
    DigitalPinEventSource → Sample → Option PinEvent × DigitalPinEventSource
unfolding report selects_level
level_event s sample =
    if selects_level s.event_type sample.0 then report s s.event_type sample else (none, s)

unfoldable pub read_event : DigitalPinEventSource → Sample → Option PinEvent × DigitalPinEventSource
unfolding report matches edge_type level_event
read_event s sample =
    if not s.ready
    then (none, s)
    else (if not s.has_last
        then level_event (record s { last_level = sample.0; has_last = true }) sample
        else (let previous = s.last_level in
            let s' = record s { last_level = sample.0 } in
            if matches s.event_type previous sample.0
            then report s' (edge_type s.event_type previous sample.0) sample
            else (none, s')))

-- The results of a `read_event` for each sample.
abbrev pub reads : DigitalPinEventSource → List Sample → List (Option PinEvent)
reads s [] = []
reads s (sample ∷ samples) = let (event, s') = read_event s sample in event ∷ reads s' samples
