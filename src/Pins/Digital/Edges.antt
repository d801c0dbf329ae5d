-- ===== src/Pins/Digital/Edges.antt =====
-- What the sources of arduino_pin_event_source.hpp report of the levels of a pin.
use pypilot_event_loop.Prelude.{
  ℕ, ◌≡◌, refl, ap, ap₂, ◌∙◌, Bool, true, false, not, ◌&&◌, ◌||◌, Option, none, some, List, [], ◌∷◌,
  map, add32, branch, sym,
}
use pypilot_event_loop.Pins.{
  PinEventType, rising_edge, falling_edge, change, high_level, low_level, PinEvent,
}
use pypilot_event_loop.Pins.Digital.{
  DigitalPinEventSource, Sample, new, begin, matches, edge_type, report, selects_level, level_event,
  read_event, reads,
}

-- A source that has seen the level `last`, and has reported `n` events (modulo 2^32).
abbrev pub watching : ℕ → PinEventType → ℕ → Bool → DigitalPinEventSource
watching pin event_type n last = record {
  pin = pin;
  event_type = event_type;
  sequence = n;
  ready = true;
  has_last = true;
  last_level = last;
}

-- The level that the reader of the events takes the pin to have after each of them, `level` before.
abbrev pub follow : Bool → List (Option PinEvent) → List Bool
follow level [] = []
follow level (none ∷ events) = level ∷ follow level events
follow level (some e ∷ events) = e.level ∷ follow e.level events

abbrev pub level_of : Sample → Bool
level_of sample = sample.0

-- The sequence numbers go on from `n`.
abbrev pub IsNumbered : ℕ → List (Option PinEvent) → Type 0
IsNumbered n [] = Unit {0}
IsNumbered n (none ∷ events) = IsNumbered n events
IsNumbered n (some e ∷ events) = (e.sequence ≡ add32 n 1) × IsNumbered (add32 n 1) events

abbrev pub reported : Option PinEvent → Bool
reported none = false
reported (some e) = true

-- Whether there is an event, for each of the samples.
abbrev pub reports : ℕ → PinEventType → List Sample → List Bool
reports pin event_type samples = map reported (reads (begin (new pin event_type)) samples)

abbrev pub zip : (Bool → Bool → Bool) → List Bool → List Bool → List Bool
zip f [] bs = []
zip f (a ∷ rest) [] = []
zip f (a ∷ rest) (b ∷ rest') = f a b ∷ zip f rest rest'

follow-watching :
    (pin n : ℕ) (last : Bool) (samples : List Sample)
    → follow last (reads (watching pin change n last) samples) ≡ map level_of samples
unfolding read_event matches edge_type report
follow-watching pin n last [] = refl
follow-watching pin n true ((true, now) ∷ samples) =
    ap (◌∷◌ true) (follow-watching pin n true samples)
follow-watching pin n true ((false, now) ∷ samples) =
    ap (◌∷◌ false) (follow-watching pin (add32 n 1) false samples)
follow-watching pin n false ((true, now) ∷ samples) =
    ap (◌∷◌ true) (follow-watching pin (add32 n 1) true samples)
follow-watching pin n false ((false, now) ∷ samples) =
    ap (◌∷◌ false) (follow-watching pin n false samples)

reads-IsNumbered :
    (pin n : ℕ) (event_type : PinEventType) (last : Bool) (samples : List Sample)
    → IsNumbered n (reads (watching pin event_type n last) samples)
unfolding read_event report
reads-IsNumbered pin n event_type last [] = tt
reads-IsNumbered pin n event_type last (sample ∷ samples) =
    branch (λ (r : Option PinEvent × DigitalPinEventSource). IsNumbered n (r.0 ∷ reads r.1 samples))
      (matches event_type last sample.0) _ _
      (λ _. (refl, reads-IsNumbered pin (add32 n 1) event_type sample.0 samples))
      (λ _. reads-IsNumbered pin n event_type sample.0 samples)

-- The reports of a source of the type, from a sample on, when the level was `last` before it.
abbrev pub selected : PinEventType → Bool → List Sample → List Bool
selected event_type last [] = []
selected event_type last (sample ∷ samples) =
    matches event_type last sample.0 ∷ selected event_type sample.0 samples

reads-selected :
    (pin n : ℕ) (event_type : PinEventType) (last : Bool) (samples : List Sample)
    → map reported (reads (watching pin event_type n last) samples)
      ≡ selected event_type last samples
unfolding read_event report
reads-selected pin n event_type last [] = refl
reads-selected pin n event_type last (sample ∷ samples) =
    let m = matches event_type last sample.0 in
    branch
      (λ (r : Option PinEvent × DigitalPinEventSource).
        map reported (r.0 ∷ reads r.1 samples) ≡ m ∷ selected event_type sample.0 samples)
      m _ _ (λ e. ap₂ ◌∷◌ (sym e) (reads-selected pin (add32 n 1) event_type sample.0 samples))
      (λ e. ap₂ ◌∷◌ (sym e) (reads-selected pin n event_type sample.0 samples))

reads-first :
    (pin : ℕ) (event_type : PinEventType) (sample : Sample) (samples : List Sample)
    → reports pin event_type (sample ∷ samples)
      ≡ selects_level event_type sample.0 ∷ selected event_type sample.0 samples
unfolding read_event level_event report begin
reads-first pin event_type sample samples =
    let m = selects_level event_type sample.0 in
    branch
      (λ (r : Option PinEvent × DigitalPinEventSource).
        map reported (r.0 ∷ reads r.1 samples) ≡ m ∷ selected event_type sample.0 samples)
      m _ _ (λ e. ap₂ ◌∷◌ (sym e) (reads-selected pin 1 event_type sample.0 samples))
      (λ e. ap₂ ◌∷◌ (sym e) (reads-selected pin 0 event_type sample.0 samples))

-- A source of changes that has begun gives no event at its first sample. From there on the level of
-- the last event, or that of the first sample before there is one, is the level of the pin after
-- every sample; and the events have the sequence numbers 1, 2, 3, ... modulo 2^32.
pub reads-change :
    (pin : ℕ) (first : Sample) (samples : List Sample)
    → let events = reads (watching pin change 0 first.0) samples in
      (reads (begin (new pin change)) (first ∷ samples) ≡ none ∷ events)
      × (follow first.0 events ≡ map level_of samples)
      × IsNumbered 0 events
unfolding read_event level_event selects_level begin
reads-change pin first samples =
    (refl, follow-watching pin 0 first.0 samples, reads-IsNumbered pin 0 change first.0 samples)

exclusive : (last level : Bool) → (last && not level) && (not last && level) ≡ false
exclusive true true = refl
exclusive true false = refl
exclusive false true = refl
exclusive false false = refl

selected-edges :
    (last : Bool) (samples : List Sample)
    → let falls = selected falling_edge last samples in
      let rises = selected rising_edge last samples in
      (selected change last samples ≡ zip ◌||◌ falls rises)
      × (zip ◌&&◌ falls rises ≡ map (λ _. false) samples)
      × (selected high_level last samples ≡ map level_of samples)
      × (selected low_level last samples ≡ map (λ s. not s.0) samples)
unfolding matches
selected-edges last [] = (refl, refl, refl, refl)
selected-edges last ((level, now) ∷ samples) =
    let (h0, h1, h2, h3) = selected-edges level samples in
    (
      ap (◌∷◌ (matches change last level)) h0,
      ap₂ ◌∷◌ (exclusive last level) h1,
      ap (◌∷◌ level) h2,
      ap (◌∷◌ (not level)) h3,
    )

-- Let sources of each type begin on a pin, and read it at the same samples. At every sample a source
-- of changes has an event when one of falls or one of rises has, and these two never have one both.
-- A source of high levels has an event exactly at the samples that are high, and one of low levels
-- at those that are low, the first sample included.
pub reads-edges :
    (pin : ℕ) (samples : List Sample)
    → let falls = reports pin falling_edge samples in
      let rises = reports pin rising_edge samples in
      (reports pin change samples ≡ zip ◌||◌ falls rises)
      × (zip ◌&&◌ falls rises ≡ map (λ _. false) samples)
      × (reports pin high_level samples ≡ map level_of samples)
      × (reports pin low_level samples ≡ map (λ s. not s.0) samples)
unfolding selects_level
reads-edges pin [] = (refl, refl, refl, refl)
reads-edges pin (first ∷ samples) =
    let (h0, h1, h2, h3) = selected-edges first.0 samples in
    let starts : (t : PinEventType)
        → reports pin t (first ∷ samples) ≡ selects_level t first.0 ∷ selected t first.0 samples =
      λ t. reads-first pin t first samples in
    (
      starts change
          ∙ (ap (◌∷◌ false) h0 ∙ sym (ap₂ (zip ◌||◌) (starts falling_edge) (starts rising_edge))),
      ap₂ (zip ◌&&◌) (starts falling_edge) (starts rising_edge) ∙ ap (◌∷◌ false) h1,
      starts high_level ∙ ap (◌∷◌ first.0) h2,
      starts low_level ∙ ap (◌∷◌ (not first.0)) h3,
    )
