-- ===== src/Input/Pins/Start.antt =====
-- The pins that interrupt are those that the handler is about.
use ventilation_system_proje.Common.{
  ℕ, bit_or, bit_xor, bit_and, ◌≡◌, refl, sym, ap, ◌∙◌, ◌≢◌, ◌↔◌, Bool, true, false, ◌||◌, List, [],
  ◌∷◌, arith, ◌==◌, if◌then◌else◌,
}
use ventilation_system_proje.Common.Or.{bit_or-zero}
use ventilation_system_proje.Common.Int.{pos}
use ventilation_system_proje.Input.{Inputs, is_button, handler, return_state}
use ventilation_system_proje.Input.Pins.{
  GpioCall, gpio_set_dir, gpio_set_irq_enabled_with_callback, gpio_pin, button, rotary_encoder,
  init_inputs,
}

-- What a list of calls leaves: the edges at which a pin interrupts, of which a call sets or clears
-- the bits that it names; and whether the pin is an output, at first or by the last call.
abbrev pub with_edges : Bool → ℕ → ℕ → ℕ
with_edges on e edges = if on then bit_or edges e else bit_xor edges (bit_and edges e)

abbrev pub edges_of : ℕ → ℕ → List GpioCall → ℕ
edges_of pin edges [] = edges
edges_of pin edges (gpio_set_irq_enabled_with_callback p e on ∷ calls) =
    edges_of pin (if p == pin then with_edges on e edges else edges) calls
edges_of pin edges (_ ∷ calls) = edges_of pin edges calls

abbrev pub is_output_of : ℕ → Bool → List GpioCall → Bool
is_output_of pin out [] = out
is_output_of pin out (gpio_set_dir p is_output ∷ calls) =
    is_output_of pin (if p == pin then is_output else out) calls
is_output_of pin out (_ ∷ calls) = is_output_of pin out calls

-- The edges that a pin is asked for: both, or the rising one, or none.
abbrev pub asked_edges : ℕ → ℕ
asked_edges pin = if pin == 10 || pin == 11 then 12 else if is_button pin then 8 else 0

-- Every pin is asked for once at most.
asked_once :
    (pin before : ℕ)
    → edges_of pin before init_inputs ≡ (
        if pin == 10 || pin == 11
        then bit_or before 12
        else if is_button pin
        then bit_or before 8
        else before)
unfolding init_inputs button rotary_encoder gpio_pin
asked_once pin before = ground arith

or_asked :
    (encoder other : Bool) (before : ℕ)
    → (if encoder then bit_or before 12 else if other then bit_or before 8 else before)
      ≡ bit_or before (if encoder then 12 else if other then 8 else 0)
or_asked true other before = refl
or_asked false true before = refl
or_asked false false before = sym (bit_or-zero before)

init_edges : (pin before : ℕ) → edges_of pin before init_inputs ≡ bit_or before (asked_edges pin)
init_edges pin before =
    asked_once pin before ∙ or_asked (pin == 10 || pin == 11) (is_button pin) before

init_direction :
    (pin : ℕ) (out : Bool)
    → is_output_of pin out init_inputs
      ≡ (if pin == 10 || pin == 11 || is_button pin then false else out)
unfolding init_inputs button rotary_encoder gpio_pin
init_direction pin out = ground arith

-- A handler that does nothing with any pass.
abbrev pub Ignores : ℕ → Type 0
Ignores pin = (a b : ℕ) (s : Inputs) → handler pin a b s ≡ s

abbrev idle : Inputs
idle = record {
  pass = record { data_value = pos 0; button_pin = 0; button_pressed = false };
  last_state = 0;
}

ignored : (pin : ℕ) → (pin == 10 || pin == 11 || is_button pin) ≡ false → Ignores pin
unfolding handler
ignored pin e a b s = ground arith

noticed : (pin : ℕ) → Ignores pin → (pin == 10 || pin == 11 || is_button pin) ≡ false
unfolding handler
noticed pin h =
    let encoder : (handler pin 1 0 idle).last_state ≡ 0 = ap (λ s. s.last_state) (h 1 0 idle) in
    let pressed : return_state (handler pin 0 0 idle) ≡ false = ap return_state (h 0 0 idle) in
    ground arith

asked_iff : (pin : ℕ) → (asked_edges pin ≡ 0) ↔ ((pin == 10 || pin == 11 || is_button pin) ≡ false)
asked_iff pin = ground arith

input_of :
    (pin : ℕ) (out : Bool)
    → asked_edges pin ≢ 0
    → (if pin == 10 || pin == 11 || is_button pin then false else out) ≡ false
input_of pin out on = ground arith

asked_zero : (pin : ℕ) → edges_of pin 0 init_inputs ≡ asked_edges pin
asked_zero pin = asked_once pin 0 ∙ ground arith

-- The buttons and the encoder, once they are made, add to the edges at which a pin interrupted
-- before, whichever these were: both edges for the encoder's lines, the rising one for the buttons,
-- and none for other pins. None are added exactly when the handler would do nothing for the pin;
-- and a pin that is asked for edges is an input, whatever it was before.
pub init_inputs_lem :
    (pin before : ℕ) (out : Bool)
    → (edges_of pin before init_inputs
        ≡ bit_or before (if pin == 10 || pin == 11 then 12 else if is_button pin then 8 else 0))
      × ((edges_of pin 0 init_inputs ≡ 0) ↔ Ignores pin)
      × (edges_of pin 0 init_inputs ≢ 0 → is_output_of pin out init_inputs ≡ false)
init_inputs_lem pin before out =
    let silent = asked_iff pin in
    let e : edges_of pin 0 init_inputs ≡ asked_edges pin = asked_zero pin in
    (
      init_edges pin before,
      (λ off. ignored pin (silent.0 (sym e ∙ off)), λ h. e ∙ silent.1 (noticed pin h)),
      λ on. init_direction pin out ∙ input_of pin out (λ none_asked. on (e ∙ none_asked)),
    )
