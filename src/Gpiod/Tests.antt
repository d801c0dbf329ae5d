-- ===== src/Gpiod/Tests.antt =====
-- An event source and a pin of async_event_loop_linux, over a libgpiod that gives all but the last
-- object.
use pypilot_event_loop.Prelude.{◌≡◌, refl, true, false, some, [], ◌∷◌}
use pypilot_event_loop.Gpiod.{Answers}
use pypilot_event_loop.Gpiod.Source
use pypilot_event_loop.Gpiod.Pin

abbrev no_buffer : Answers
no_buffer = record {
  has_chip = true;
  has_settings = true;
  has_line_config = true;
  has_request_config = true;
  added = true;
  has_request = true;
  has_buffer = false;
  has_line = true;
  requested = false;
}

path_of_name :
    Pin.gpiod_chip_path 9 (some (b'c' ∷ b'0' ∷ []))
    ≡ some (b'/' ∷ b'd' ∷ b'e' ∷ b'v' ∷ b'/' ∷ b'c' ∷ b'0' ∷ [])
unfolding Pin.gpiod_chip_path
path_of_name = refl
