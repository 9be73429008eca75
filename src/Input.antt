-- ===== src/Input.antt =====
-- The interrupt handler of the rotary encoder and the buttons, src/input.h and src/input.cpp, and
-- what the classes read of it.
pub mod Encoder
pub mod Pins
mod Tests
use ventilation_system_proje.Common.{ℕ, Bool, true, false, ◌||◌, ◌==◌, if◌then◌else◌}
use ventilation_system_proje.Common.Int.{ℤ, pos, ◌+ℤ◌, ◌-ℤ◌}

-- The global `data`.
pub record DataPass : Type 0 where
  pub data_value : ℤ
  pub button_pin : ℕ
  pub button_pressed : Bool

-- With the static variable of the handler.
pub record Inputs : Type 0 where
  pub pass : DataPass
  pub last_state : ℕ

abbrev pub is_button : ℕ → Bool
is_button gpio = (gpio == 9 || gpio == 8) || (gpio == 7 || gpio == 12)

-- `a` and `b` are what `gpio_get` gives for the pins 10 and 11, 0 or 1.
unfoldable pub handler : ℕ → ℕ → ℕ → Inputs → Inputs
handler gpio a b s =
    let one = pos 1 in
    let turned =
      if b == a
      then record (s.pass) { data_value = s.pass.data_value -ℤ one }
      else record (s.pass) { data_value = s.pass.data_value +ℤ one } in
    let seen = if s.last_state == a then s.pass else turned in
    if gpio == 10 || gpio == 11
    then record s { pass = seen; last_state = a }
    else if is_button gpio
    then record s { pass = record (s.pass) { button_pin = gpio; button_pressed = true } }
    else s

abbrev pub return_val : Inputs → ℤ
return_val s = s.pass.data_value

abbrev pub set_val : ℤ → Inputs → Inputs
set_val val s = record s { pass = record (s.pass) { data_value = val } }

abbrev pub return_state : Inputs → Bool
return_state s = s.pass.button_pressed

abbrev pub return_pin : Inputs → ℕ
return_pin s = s.pass.button_pin

abbrev pub set_state : Inputs → Inputs
set_state s = record s { pass = record (s.pass) { button_pressed = false } }
