-- ===== src/Gpiod/Source.antt =====
-- LinuxGpiodPinEventSource of async_event_loop_linux/linux_gpiod_pin_event_source.hpp, in its builds
-- for versions 2 and 1 of libgpiod.
use pypilot_event_loop.Prelude.{
  ℕ, ◌*◌, ◌/◌, ◌%◌, ◌^◌, Bool, true, false, not, ◌&&◌, Option, none, some, List, [], ◌∷◌, ◌==◌,
  add32, add64, if◌then◌else◌,
}
use pypilot_event_loop.Pins.{
  PinEventType, rising_edge, falling_edge, change, high_level, low_level, PinEvent,
}
use pypilot_event_loop.Gpiod.{
  Command, makes, sets, chip, settings, request_config, request, buffer, line, input, edge,
  debounce_period_us, consumer, Answers, make, free, make_setup, cleanup_setup, complete,
}

-- The fields that are pointers, as whether they are not null: `request_` and `buffer_` of version 2,
-- `line_` of version 1.
pub record Source : Type 0 where
  pub has_chip : Bool
  pub has_request : Bool
  pub has_buffer : Bool
  pub has_line : Bool
  pub sequence : ℕ
  pub log : List Command

abbrev pub fresh : Source
fresh = record {
  has_chip = false;
  has_request = false;
  has_buffer = false;
  has_line = false;
  sequence = 0;
  log = [];
}

unfoldable pub to_gpiod_edge : PinEventType → ℕ
to_gpiod_edge rising_edge = 2
to_gpiod_edge falling_edge = 3
to_gpiod_edge change = 4
to_gpiod_edge high_level = 4
to_gpiod_edge low_level = 4

-- The settings of the line of version 2; `no_debounce` says that the debounce is 0.
abbrev pub set_up : PinEventType → ℕ → Bool → List Command → List Command
set_up type debounce_us no_debounce log =
    let log' = sets settings (edge (to_gpiod_edge type)) ∷ sets settings input ∷ log in
    if no_debounce then log' else sets settings (debounce_period_us debounce_us) ∷ log'

-- `open` of version 2, behind the opening of the chip.
abbrev pub request_v2 : Answers → PinEventType → ℕ → Bool → List Command → List Command
request_v2 a type debounce_us no_debounce log =
    let set = set_up type debounce_us no_debounce log in
    if not a.added then set else make a.has_request request (sets request_config consumer ∷ set)

unfoldable pub open_with : Answers → PinEventType → ℕ → Bool → Source → Source
unfolding make_setup cleanup_setup to_gpiod_edge
open_with a type debounce_us no_debounce s =
    let begun = make_setup a (makes chip ∷ s.log) in
    let log = cleanup_setup a (request_v2 a type debounce_us no_debounce begun) in
    if not a.has_chip
    then s
    else if not (complete a)
    then record s { has_chip = true; log = cleanup_setup a begun }
    else if not (a.added && a.has_request)
    then record s { has_chip = true; log = log }
    else record s {
      has_chip = true;
      has_request = true;
      has_buffer = a.has_buffer;
      log = make a.has_buffer buffer log;
    }

unfoldable pub open_v2 : Answers → PinEventType → ℕ → Source → Source
unfolding open_with
open_v2 a type debounce_us s = open_with a type debounce_us (debounce_us == 0) s

unfoldable pub close_v2 : Source → Source
close_v2 s = record s {
  has_chip = false;
  has_request = false;
  has_buffer = false;
  log = free s.has_chip chip (free s.has_request request (free s.has_buffer buffer s.log));
}

unfoldable pub valid_v2 : Source → Bool
valid_v2 s = s.has_request && s.has_buffer

unfoldable pub close_v1 : Source → Source
close_v1 s = record s {
  has_chip = false;
  has_line = false;
  log = free s.has_chip chip (free s.has_line line s.log);
}

-- `open` of version 1; the edges are those of `request_edge_events_v1`.
unfoldable pub open_v1 : Answers → PinEventType → Source → Source
unfolding close_v1 to_gpiod_edge
open_v1 a type s =
    let opened = record s { has_chip = true; log = makes chip ∷ s.log } in
    let found = record opened { has_line = true; log = makes line ∷ opened.log } in
    if not a.has_chip
    then s
    else if not a.has_line
    then close_v1 opened
    else if not a.requested
    then close_v1 found
    else record found { log = sets line (edge (to_gpiod_edge type)) ∷ found.log }

unfoldable pub valid_v1 : Source → Bool
valid_v1 s = s.has_chip && s.has_line

-- An event of libgpiod: its time is in nanoseconds in version 2, and in seconds and nanoseconds in
-- version 1.
pub record EdgeEvent : Type 0 where
  pub rising : Bool
  pub timestamp_ns : ℕ
  pub tv_sec : ℕ
  pub tv_nsec : ℕ
  pub line_offset : ℕ
  pub global_seqno : ℕ

abbrev pub edge_of : Bool → PinEventType
edge_of rising = if rising then rising_edge else falling_edge

-- `read`: `none` when there is no event to be read.
unfoldable pub read_event_v2 : Option EdgeEvent → Source → Option PinEvent × Source
unfolding valid_v2
read_event_v2 none s = (none, s)
read_event_v2 (some e) s = if not (valid_v2 s) then (none, s) else (
  some (record {
    type = edge_of e.rising;
    timestamp_us = e.timestamp_ns / 1000;
    source_id = e.line_offset;
    sequence = e.global_seqno % 2 ^ 32;
    level = e.rising;
  }),
  s,
)

unfoldable pub read_event_v1 : ℕ → Option EdgeEvent → Source → Option PinEvent × Source
unfolding valid_v1
read_event_v1 line_offset none s = (none, s)
read_event_v1 line_offset (some e) s =
    let sequence = add32 s.sequence 1 in
    if not (valid_v1 s) then (none, s) else (
      some (record {
        type = edge_of e.rising;
        timestamp_us = add64 (e.tv_sec * 1000000) (e.tv_nsec / 1000);
        source_id = line_offset;
        sequence = sequence;
        level = e.rising;
      }),
      record s { sequence = sequence },
    )
