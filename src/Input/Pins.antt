-- ===== src/Input/Pins.antt =====
-- `GpioPin` of src/pin.h and pin.cpp, and the constructors of src/input.cpp, as the calls of the SDK
-- that they make, the newest last; what a pin reads is an argument.
pub mod Start
use ventilation_system_proje.Common.{
  ℕ, ◌+◌, Bool, true, false, not, List, [], ◌∷◌, ◌++◌, if◌then◌else◌,
}

-- `gpio_set_irq_enabled_with_callback` is always made with `handler`; `edges` has 4 for a falling and
-- 8 for a rising edge.
pub data GpioCall : Type 0 where
  gpio_init : ℕ → GpioCall
  gpio_set_dir : ℕ → Bool → GpioCall
  gpio_pull_up : ℕ → GpioCall
  gpio_put : ℕ → ℕ → GpioCall
  gpio_set_irq_enabled_with_callback : (pin edges : ℕ) → Bool → GpioCall

abbrev pub edge_fall : ℕ
edge_fall = 4

abbrev pub edge_rise : ℕ
edge_rise = 8

pub record GpioPin : Type 0 where
  pub pin_number : ℕ

unfoldable pub gpio_pin : ℕ → Bool → Bool → GpioPin × List GpioCall
gpio_pin pin_number is_output pull_up = (
  record { pin_number = pin_number },
  (gpio_init pin_number ∷ gpio_set_dir pin_number is_output ∷ [])
      ++ (if pull_up then gpio_pull_up pin_number ∷ [] else []),
)

unfoldable pub set_high : GpioPin → List GpioCall
set_high p = gpio_put p.pin_number 1 ∷ []

unfoldable pub set_low : GpioPin → List GpioCall
set_low p = gpio_put p.pin_number 0 ∷ []

-- `read` is what `gpio_get` gives for each pin.
unfoldable pub is_high : (ℕ → Bool) → GpioPin → Bool
is_high read p = read p.pin_number

unfoldable pub is_low : (ℕ → Bool) → GpioPin → Bool
is_low read p = not (read p.pin_number)

unfoldable pub toggle : (ℕ → Bool) → GpioPin → List GpioCall
unfolding is_high set_low set_high
toggle read p = if is_high read p then set_low p else set_high p

unfoldable pub rotary_encoder : List GpioCall
unfolding gpio_pin
rotary_encoder =
    let (a, made_a) = gpio_pin 10 false false in
    let (b, made_b) = gpio_pin 11 false false in
    let (sw, made_sw) = gpio_pin 12 false true in
    made_a
    ++ made_b
    ++ made_sw
    ++ (gpio_set_irq_enabled_with_callback a.pin_number (edge_fall + edge_rise) true
        ∷ gpio_set_irq_enabled_with_callback b.pin_number (edge_fall + edge_rise) true
        ∷ gpio_set_irq_enabled_with_callback sw.pin_number edge_rise true
        ∷ [])

unfoldable pub button : ℕ → List GpioCall
unfolding gpio_pin
button pin =
    (gpio_pin pin false true).1 ++ (gpio_set_irq_enabled_with_callback pin edge_rise true ∷ [])

-- The buttons and the encoder at the start of `main`.
unfoldable pub init_inputs : List GpioCall
unfolding button rotary_encoder
init_inputs = button 7 ++ button 8 ++ button 9 ++ rotary_encoder
