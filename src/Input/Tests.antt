-- ===== src/Input/Tests.antt =====
-- Concrete runs of the interrupt handler.
use ventilation_system_proje.Common.{◌≡◌, refl, ◌≢◌, ◌↔◌, true, false, [], ◌∷◌}
use ventilation_system_proje.Common.Int.{pos, negsuc}
use ventilation_system_proje.Input.Pins.{init_inputs, gpio_put, toggle, set_low, set_high, is_high}
use ventilation_system_proje.Input.Pins.Start.{edges_of, is_output_of, Ignores, init_inputs_lem}
use ventilation_system_proje.Input.{Inputs, handler, return_val, return_pin}
use ventilation_system_proje.Input.Encoder.{still, clockwise, back, Counts, Walk-Counts}

abbrev at_start : Inputs
at_start = record {
  pass = record { data_value = pos 0; button_pin = 0; button_pressed = false };
  last_state = 0;
}

-- After one step clockwise, after two, and after one back again.
abbrev one_on : Inputs
one_on = handler 10 1 0 at_start

abbrev two_on : Inputs
two_on = handler 11 1 1 one_on

abbrev one_back : Inputs
one_back = handler 11 1 0 two_on

Walk-Counts_example : Counts (pos 0) one_back 1
Walk-Counts_example =
    Walk-Counts (pos 0) at_start 0 one_back 1
      (back two_on 1 (clockwise one_on 1 (clockwise at_start 0 still)))
      (record { seen = refl; value = refl })

-- The other way round the value falls below zero.
backwards : return_val (handler 10 1 1 at_start) ≡ negsuc 0
unfolding handler
backwards = refl

pressed : return_pin (handler 12 0 0 at_start) ≡ 12
unfolding handler
pressed = refl

init_inputs_lem_example :
    (edges_of 9 4 init_inputs ≡ 12)
    × ((edges_of 9 0 init_inputs ≡ 0) ↔ Ignores 9)
    × (edges_of 9 0 init_inputs ≢ 0 → is_output_of 9 true init_inputs ≡ false)
init_inputs_lem_example = init_inputs_lem 9 4 true

-- A pin that reads high is put to low, and one that reads low to high.
toggled :
    (toggle (λ _. true) (record { pin_number = 4 }) ≡ gpio_put 4 0 ∷ [])
    × (toggle (λ _. false) (record { pin_number = 4 }) ≡ gpio_put 4 1 ∷ [])
unfolding toggle set_low set_high is_high
toggled = (refl, refl)
