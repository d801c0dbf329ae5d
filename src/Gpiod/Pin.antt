-- ===== src/Gpiod/Pin.antt =====
-- LinuxGpiodDigitalInputPin and LinuxGpiodDigitalOutputPin of
-- async_event_loop_linux/linux_gpiod_pin_io.hpp, in their builds for versions 2 and 1 of libgpiod.
use pypilot_event_loop.Prelude.{
  ℕ, ◌-◌, Bool, true, false, not, ◌&&◌, Option, none, some, List, [], ◌∷◌, ◌==◌, take,
  if◌then◌else◌,
}
use pypilot_event_loop.Gpiod.{
  Setting, Command, makes, frees, sets, chip, settings, request_config, request, line, output,
  consumer, Answers, make, free, make_setup, cleanup_setup, complete,
}

-- `chip_`, `request_` of version 2 and `line_` of version 1, as whether they are not null.
pub record Pin : Type 0 where
  pub has_chip : Bool
  pub has_request : Bool
  pub has_line : Bool
  pub log : List Command

abbrev pub fresh : Pin
fresh = record { has_chip = false; has_request = false; has_line = false; log = [] }

-- The path of the chip in an array of `dst_size` bytes: `none` for the result false.
unfoldable pub gpiod_chip_path : ℕ → Option (List ℕ) → Option (List ℕ)
gpiod_chip_path dst_size none = none
gpiod_chip_path dst_size (some []) = none
gpiod_chip_path dst_size (some (c ∷ cs)) =
    if dst_size == 0
    then none
    else some (
        take (dst_size - 1)
          (if c == b'/' then c ∷ cs else b'/' ∷ b'd' ∷ b'e' ∷ b'v' ∷ b'/' ∷ c ∷ cs))

-- `request_one_gpiod_line_v2`: whether it returns a request, and the log behind it. `direction` is
-- the direction of the line, with the value of an output.
unfoldable pub request_one_v2 : Answers → Setting → List Command → Bool × List Command
unfolding make_setup cleanup_setup
request_one_v2 a direction log =
    let begun = make_setup a (makes chip ∷ log) in
    let set = sets settings direction ∷ begun in
    let configured = sets request_config consumer ∷ set in
    let close = λ (l : List Command). frees chip ∷ cleanup_setup a l in
    if not a.has_chip
    then (false, log)
    else if not (complete a)
    then (false, close begun)
    else if not a.added
    then (false, close set)
    else (a.has_request, close (make a.has_request request configured))

-- The constructors; `path` is the result of `gpiod_chip_path`.
unfoldable pub new_v2 : Option (List ℕ) → Answers → Setting → Pin
unfolding request_one_v2
new_v2 none a direction = fresh
new_v2 (some path) a direction =
    let (done, log) = request_one_v2 a direction [] in
    record fresh { has_request = done; log = log }

unfoldable pub close_v2 : Pin → Pin
close_v2 p = record p { has_request = false; log = free p.has_request request p.log }

unfoldable pub close_v1 : Pin → Pin
close_v1 p = record p {
  has_chip = false;
  has_line = false;
  log = free p.has_chip chip (free p.has_line line p.log);
}

unfoldable pub new_v1 : Option (List ℕ) → Answers → Setting → Pin
unfolding close_v1
new_v1 none a direction = fresh
new_v1 (some path) a direction =
    let opened = record fresh { has_chip = true; log = makes chip ∷ [] } in
    let found = record opened { has_line = true; log = makes line ∷ opened.log } in
    if not a.has_chip
    then fresh
    else if not a.has_line
    then close_v1 opened
    else if not a.requested
    then close_v1 found
    else record found { log = sets line direction ∷ found.log }

unfoldable pub valid_v2 : Pin → Bool
valid_v2 p = p.has_request

unfoldable pub valid_v1 : Pin → Bool
valid_v1 p = p.has_chip && p.has_line

-- `read`, given the value that libgpiod reports, and `write`, given whether libgpiod takes the value.
unfoldable pub read_v2 : Bool → Pin → Bool
read_v2 value p = p.has_request && value

unfoldable pub read_v1 : Bool → Pin → Bool
read_v1 value p = p.has_line && value

unfoldable pub write_v2 : Bool → Bool → Pin → Bool × Pin
write_v2 high taken p =
    if not p.has_request
    then (false, p)
    else (taken, record p { log = sets request (output high) ∷ p.log })

unfoldable pub write_v1 : Bool → Bool → Pin → Bool × Pin
write_v1 high taken p =
    if not p.has_line
    then (false, p)
    else (taken, record p { log = sets line (output high) ∷ p.log })
