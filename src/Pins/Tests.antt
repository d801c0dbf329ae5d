-- ===== src/Pins/Tests.antt =====
-- Runs of the pin event sources of async_event_loop_arduino.
use pypilot_event_loop.Prelude.{◌≡◌, refl, Bool, true, false, Option, none, some, List, [], ◌∷◌}
use pypilot_event_loop.Pins.{rising_edge, falling_edge, change, PinEvent}
use pypilot_event_loop.Pins.Digital.{Sample, begin, reads}
use pypilot_event_loop.Pins.Digital.Edges.{watching, follow, IsNumbered, reads-change}
use pypilot_event_loop.Pins.Digital
use pypilot_event_loop.Pins.Interrupt
use pypilot_event_loop.Pins.Interrupt.{
  InterruptPinEventSource, Notification, notify_from_isr, notify_all, take_pending, fill_event,
  finish_read, read_event_during, read_event,
}
use pypilot_event_loop.Pins.Interrupt.Bursts.{IsDrained, emptied, read_event-reported}

abbrev pulses : List Sample
pulses = (true, 10) ∷ (false, 20) ∷ (false, 30) ∷ (true, 40) ∷ []

abbrev changes : List (Option PinEvent)
changes =
    none
    ∷ some (record {
      type = falling_edge;
      timestamp_us = 20;
      source_id = 7;
      sequence = 1;
      level = false;
    })
    ∷ none
    ∷ some (record {
      type = rising_edge;
      timestamp_us = 40;
      source_id = 7;
      sequence = 2;
      level = true;
    })
    ∷ []

reads_pulses : reads (begin (Digital.new 7 change)) pulses ≡ changes
unfolding Digital.read_event Digital.level_event Digital.report Digital.matches Digital.edge_type
    Digital.selects_level begin
reads_pulses = refl

reads-change_example :
    let events = reads (watching 7 change 0 true) ((false, 20) ∷ (false, 30) ∷ (true, 40) ∷ []) in
    (reads (begin (Digital.new 7 change)) pulses ≡ none ∷ events)
    × (follow true events ≡ false ∷ false ∷ true ∷ [])
    × IsNumbered 0 events
reads-change_example = reads-change 7 (true, 10) ((false, 20) ∷ (false, 30) ∷ (true, 40) ∷ [])

abbrev source : InterruptPinEventSource
source = Interrupt.new 2 rising_edge 0

abbrev at : Bool → Notification
at level = record { now = 5; level = level }

read_event-reported_example :
    let emptied = emptied source (at true) (at false ∷ []) in
    (read_event_during (at true ∷ []) (notify_all source (at true ∷ at false ∷ [])) ≡ (
      some (record {
        type = rising_edge;
        timestamp_us = 5;
        source_id = 2;
        sequence = 1;
        level = false;
      }),
      notify_all emptied (at true ∷ []),
    ))
    × IsDrained emptied
    × (read_event emptied ≡ (none, emptied))
read_event-reported_example =
    read_event-reported source (at true) (at false ∷ []) (at true ∷ [])
      (record { no_pending = refl; no_dropped = refl })
