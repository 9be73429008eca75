-- ===== src/Display/Menus/Tests.antt =====
-- Runs of the pages and of the text input.
use ventilation_system_proje.Common.{
  ℕ, ◌<◌, ◌≡◌, refl, ◌↔◌, ◌⊎◌, true, none, some, List, [], ◌∷◌, arith, length, replicate,
}
use ventilation_system_proje.Common.Int.{ℤ, pos, negsuc}
use ventilation_system_proje.Input.{Inputs, set_state}
use ventilation_system_proje.Display.MonoVlsb.{MonoVlsb, mono_vlsb}
use ventilation_system_proje.Display.Canvas.{mono_virtual, mono_vlsb-IsValid}
use ventilation_system_proje.Display.Menus.{draw, start_menu, Readings, MainState, main_menu}
use ventilation_system_proje.Display.Menus.TextInput.{
  TextState, c_string, press, neighbours, text_page, text_input_from, text_input, return_input,
}
use ventilation_system_proje.Display.Menus.Editing.{IsText, letters, around}
use ventilation_system_proje.Display.Menus.Typing.{text_input-IsText}
use ventilation_system_proje.Display.Menus.Overrun.{IsFull, IsBeyond, text_input_iff}
use ventilation_system_proje.Display.Menus.Pages.{IsScreen, Keeps, pages_lem}
use ventilation_system_proje.Display.Menus.Modes.{next_modes, page_of, main_menu_lem}
use ventilation_system_proje.Display.Menus.Returning.{return_input-c_string}

abbrev pressing : ℕ → Inputs
pressing pin = record {
  pass = record { data_value = pos 0; button_pin = pin; button_pressed = true };
  last_state = 0;
}

-- The text "Hi", with the small letters turned to.
abbrev hi : TextState
hi = record { current_array = 1; input_string = 72 ∷ 105 ∷ replicate 58 0 }

hi-IsText : IsText (72 ∷ 105 ∷ []) hi
hi-IsText = record { held = refl; short = omega arith; printing = omega arith; array = omega arith }

text_input-IsText_example :
    (s' : TextState) × (text_input 0 (pos 10007) hi (pressing 8)
      ≡ some (
        s',
        set_state (pressing 8),
        text_page 0 (72 ∷ 105 ∷ 120 ∷ []) 2 (around (letters s'.current_array) 23 26),
      ))
    × IsText (72 ∷ 105 ∷ 120 ∷ []) s'
    × (s'.current_array ≡ 1)
text_input-IsText_example =
    text_input-IsText 0 10007 (72 ∷ 105 ∷ []) hi (pressing 8) hi-IsText (λ on pin. omega arith)
      (λ on pin. omega arith)

text_input_iff_example :
    (text_input 0 (pos 10007) hi (pressing 8) ≡ none)
    ↔ (IsFull (72 ∷ 105 ∷ []) (pressing 8) ⊎ IsBeyond 23 1 (pressing 8))
text_input_iff_example = text_input_iff 0 10007 (72 ∷ 105 ∷ []) hi (pressing 8) hi-IsText

-- The array turned from the special characters at the place 20.
turned_away : text_input 0 (pos 20) (record hi { current_array = 2 }) (pressing 9) ≡ none
unfolding text_input text_input_from press neighbours
turned_away = refl

-- Turned below its start, the encoder gives a place before the array.
turned_below : text_input 0 (negsuc 0) hi (pressing 12) ≡ none
unfolding text_input text_input_from press neighbours
turned_below = refl

return_input-c_string_example :
    (s' : TextState) × (dst' : List ℕ) × (return_input hi (replicate 64 0xAA) ≡ some (s', dst'))
    × (c_string dst' ≡ some (72 ∷ 105 ∷ []))
    × (length dst' ≡ 64)
    × IsText [] s'
return_input-c_string_example =
    return_input-c_string (72 ∷ 105 ∷ []) (replicate 64 0xAA) hi hi-IsText (omega arith)

abbrev screen : MonoVlsb
screen = mono_vlsb 128 64 0 1

screen-IsScreen : IsScreen screen
unfolding mono_vlsb
screen-IsScreen = record {
  valid = (mono_vlsb-IsValid 128 64 1 (omega arith) (omega arith) (omega arith)).0;
  width = refl;
  height = refl;
}

pages_lem_example :
    ((p : ℤ) → Keeps (draw mono_virtual (start_menu p) screen))
    × ((r : Readings) (s : MainState) → Keeps (draw mono_virtual (main_menu r s).1 screen))
    × ((stage input_len : ℕ) (str : List ℕ) (three : ℕ × ℕ × ℕ)
        → Keeps (draw mono_virtual (text_page stage str input_len three) screen))
pages_lem_example = pages_lem screen screen-IsScreen

abbrev readings : Readings
readings = record {
  fan_speed = pos 40;
  pressure = negsuc 2;
  target_pressure = pos 60;
  temp = pos 21;
  co2 = pos 400;
  rh = pos 35;
  ah = pos 7;
}

abbrev automatic : MainState
automatic = record { display_mode = 1; mode = 0; inputs = pressing 9 }

main_menu_lem_example :
    ((main_menu readings automatic).0 ≡ next_modes automatic)
    × ((main_menu readings automatic).1 ≡ page_of readings (next_modes automatic))
    × (1 < 2)
main_menu_lem_example = main_menu_lem readings automatic (omega arith)

goes_manual : (main_menu readings automatic).0.mode ≡ 1
unfolding main_menu
goes_manual = refl
