-- ===== src/Gpiod.antt =====
-- The objects of libgpiod that async_event_loop_linux/linux_gpiod_pin_event_source.hpp and
-- linux_gpiod_pin_io.hpp make, set up and free, as a log; what libgpiod answers is an argument.
pub mod Source
pub mod Pin
pub mod Released
mod Tests
use pypilot_event_loop.Prelude.{
  ℕ, suc, Bool, true, false, not, ◌&&◌, List, [], ◌∷◌, ◌==◌, if◌then◌else◌,
}

-- An object of each kind is made at most once.
pub data Handle : Type 0 where
  chip : Handle
  settings : Handle
  line_config : Handle
  request_config : Handle
  request : Handle
  buffer : Handle
  line : Handle

abbrev pub rank : Handle → ℕ
rank chip = 0
rank settings = 1
rank line_config = 2
rank request_config = 3
rank request = 4
rank buffer = 5
rank line = 6

-- The edge is a number: 2 for rising, 3 for falling, 4 for both.
pub data Setting : Type 0 where
  input : Setting
  output : Bool → Setting
  edge : ℕ → Setting
  debounce_period_us : ℕ → Setting
  consumer : Setting

-- The calls that change what libgpiod holds: an object made or freed, or a setting of one.
pub data Command : Type 0 where
  makes : Handle → Command
  frees : Handle → Command
  sets : Handle → Setting → Command

abbrev pub made : Handle → List Command → ℕ
made h [] = 0
made h (makes i ∷ log) = if rank i == rank h then suc (made h log) else made h log
made h (frees i ∷ log) = made h log
made h (sets i x ∷ log) = made h log

abbrev pub freed : Handle → List Command → ℕ
freed h [] = 0
freed h (makes i ∷ log) = freed h log
freed h (frees i ∷ log) = if rank i == rank h then suc (freed h log) else freed h log
freed h (sets i x ∷ log) = freed h log

-- Every command but the making of an object is on one that has been made and not freed since. The
-- latest command comes first.
abbrev pub sound : List Command → Bool
sound [] = true
sound (makes i ∷ log) = (made i log == 0) && sound log
sound (frees i ∷ log) = (made i log == suc (freed i log)) && sound log
sound (sets i x ∷ log) = (made i log == suc (freed i log)) && sound log

-- What libgpiod answers: whether it makes each object, and whether it takes the settings of the
-- line.
pub record Answers : Type 0 where
  pub has_chip : Bool
  pub has_settings : Bool
  pub has_line_config : Bool
  pub has_request_config : Bool
  pub added : Bool
  pub has_request : Bool
  pub has_buffer : Bool
  -- Version 1: the line, and whether its request succeeds.
  pub has_line : Bool
  pub requested : Bool

abbrev pub make : Bool → Handle → List Command → List Command
make ok h log = if ok then makes h ∷ log else log

abbrev pub free : Bool → Handle → List Command → List Command
free present h log = if present then frees h ∷ log else log

-- The three objects of the setup, and `cleanup_setup`, in the order of the code.
unfoldable pub make_setup : Answers → List Command → List Command
make_setup a log =
    make a.has_request_config request_config
      (make a.has_line_config line_config (make a.has_settings settings log))

unfoldable pub cleanup_setup : Answers → List Command → List Command
cleanup_setup a log =
    free a.has_settings settings
      (free a.has_line_config line_config (free a.has_request_config request_config log))

abbrev pub complete : Answers → Bool
complete a = a.has_settings && (a.has_line_config && a.has_request_config)
