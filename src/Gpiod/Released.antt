-- ===== src/Gpiod/Released.antt =====
-- The objects of libgpiod, of linux_gpiod_pin_event_source.hpp and linux_gpiod_pin_io.hpp in
-- async_event_loop_linux, are freed once, whatever libgpiod answers.
use pypilot_event_loop.Prelude.{
  ℕ, ◌≡◌, Bool, true, false, not, ◌&&◌, ◌==◌, some, List, if◌then◌else◌,
}
use pypilot_event_loop.Pins.{PinEventType}
use pypilot_event_loop.Gpiod.{
  Handle, chip, settings, line_config, request_config, request, buffer, line, Setting, Command,
  Answers, made, freed, sound, complete,
}
use pypilot_event_loop.Gpiod.Source
use pypilot_event_loop.Gpiod.Pin

-- No object is used or freed but between its making and its first free, and each is freed.
pub record IsReleased (log : List Command) : Type 0 where
  pub in_order : sound log ≡ true
  pub balanced : (h : Handle) → made h log ≡ freed h log

-- The same as a test.
abbrev even : Handle → List Command → Bool
even h log = made h log == freed h log

abbrev released : List Command → Bool
released log =
    sound log
    && (even chip log
        && (even settings log
            && (even line_config log
                && (even request_config log
                    && (even request log && (even buffer log && even line log))))))

abbrev same : Bool → Bool → Bool
same a b = if a then b else not b

-- A test for every Boolean, and for all answers of libgpiod.
every : (Bool → Bool) → Bool
every f = f true && f false

abbrev every_answer : (Answers → Bool) → Bool
every_answer f = every (λ c. every (λ s. every (λ l. every (λ r. every (λ d. every (λ q. every (λ b.
    every (λ n. every (λ e. f (record {
      has_chip = c;
      has_settings = s;
      has_line_config = l;
      has_request_config = r;
      added = d;
      has_request = q;
      has_buffer = b;
      has_line = n;
      requested = e;
    }))))))))))

abbrev source_v2 : PinEventType → ℕ → Bool → Answers → Bool
source_v2 type debounce_us no_debounce a =
    let s = Source.open_with a type debounce_us no_debounce Source.fresh in
    released (Source.close_v2 s).log
    && same (Source.valid_v2 s)
        (a.has_chip && (complete a && (a.added && (a.has_request && a.has_buffer))))

abbrev source_v1 : PinEventType → Answers → Bool
source_v1 type a =
    let s = Source.open_v1 a type Source.fresh in
    released (Source.close_v1 s).log
    && same (Source.valid_v1 s) (a.has_chip && (a.has_line && a.requested))

-- A pin that has written a value once.
abbrev pin_v2 : List ℕ → Setting → Bool → Bool → Answers → Bool
pin_v2 path direction high taken a =
    let p = Pin.new_v2 (some path) a direction in
    released (Pin.close_v2 (Pin.write_v2 high taken p).1).log
    && same (Pin.valid_v2 p) (a.has_chip && (complete a && (a.added && a.has_request)))

abbrev pin_v1 : List ℕ → Setting → Bool → Bool → Answers → Bool
pin_v1 path direction high taken a =
    let p = Pin.new_v1 (some path) a direction in
    released (Pin.close_v1 (Pin.write_v1 high taken p).1).log
    && same (Pin.valid_v1 p) (a.has_chip && (a.has_line && a.requested))
