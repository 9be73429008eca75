-- ===== src/Setup/Tests.antt =====
-- Runs of the start-up loop.
use ventilation_system_proje.Common.{
  ℕ, ◌%◌, ◌<◌, ◌≡◌, refl, ◌≢◌, ◌↔◌, Bool, true, false, none, some, List, [], ◌∷◌, arith, ◌>>=◌,
  replicate,
}
use ventilation_system_proje.Common.Int.{ℤ, pos, negsuc}
use ventilation_system_proje.Input.{Inputs, return_state, handler}
use ventilation_system_proje.Control.{Interrupt}
use ventilation_system_proje.Display.Menus.{Command}
use ventilation_system_proje.Display.Menus.TextInput.{
  c_string, TextState, text_input, text_input_from, press, neighbours, return_input,
}
use ventilation_system_proje.Display.Menus.Editing.{IsText, letters}
use ventilation_system_proje.Display.Menus.Typing.{edited_by}
use ventilation_system_proje.Setup.{
  Setup, Visit, begin_setup, number_of, skip_spaces, stoi, store_text, confirm,
}
use ventilation_system_proje.Setup.Body.{
  confirm_part, text_behind, text_part, choose, choose_part, visit,
}
use ventilation_system_proje.Setup.Storing.{field, confirm_port_iff}
use ventilation_system_proje.Setup.Seen.{text_part-stores}
use ventilation_system_proje.Setup.Swallowed.{IsWaiting, in_page, text_part-IsWaiting}

abbrev untouched : Inputs
untouched = record {
  pass = record { data_value = pos 0; button_pin = 0; button_pressed = false };
  last_state = 0;
}

-- The text "80".
abbrev eighty : TextState
eighty = record { current_array = 3; input_string = 56 ∷ 48 ∷ replicate 58 0 }

eighty-IsText : IsText (56 ∷ 48 ∷ []) eighty
eighty-IsText = record {
  held = refl;
  short = omega arith;
  printing = omega arith;
  array = omega arith;
}

abbrev typing : ℕ → Setup
typing ssid_stage = record {
  inputs = untouched;
  text = eighty;
  stage = 1;
  ssid_stage = ssid_stage;
  rotvalue = pos 0;
  i = pos 10000;
  prevval = pos 0;
  input = replicate 64 0;
  ssid = replicate 64 83;
  pw = replicate 64 80;
  hostname = replicate 64 72;
  port = pos 0;
  done = false;
  use_wifi = true;
  network_done = false;
}

abbrev quiet : Visit
quiet = record {
  before_first = [];
  before_second = [];
  before_third = [];
  before_page = [];
  before_seven = [];
  before_twelve = [];
  before_nine = [];
  scratch = replicate 64 0xAA;
}

-- A visit in which the button of the pin 12 is pressed before the page.
abbrev early : Visit
early = record quiet { before_page = (12, 0, 0) ∷ [] }

-- A visit that types a character; pin 12 is pressed while the page is shown.
abbrev storing : Visit
storing = record quiet { before_page = (8, 0, 0) ∷ []; before_seven = (10, 1, 0) ∷ (12, 0, 0) ∷ [] }

text_part-stores_example :
    (u : Setup) × (commands : List Command) × (text_part storing (typing 1) ≡ some (u, commands))
    × (c_string u.pw
        ≡ some (edited_by (in_page storing (typing 1)) (letters 3) (10000 % 10) (56 ∷ 48 ∷ [])))
    × ((j : ℕ) → j < 3 → j ≢ 1 → field j u ≡ field j (typing 1))
    × IsText [] u.text
    × (u.ssid_stage ≡ 2)
    × (return_state u.inputs ≡ false)
unfolding handler
text_part-stores_example =
    text_part-stores storing (typing 1) 1 10000 (56 ∷ 48 ∷ []) (omega arith) refl (omega arith)
      eighty-IsText refl (record { seven = omega arith; twelve = refl }) (λ on pin. omega arith)
      (λ on pin. omega arith)

confirm_port_iff_example :
    ((confirm (replicate 64 0xAA) (typing 3) ≡ none)
      ↔ (number_of (skip_spaces (56 ∷ 48 ∷ [])) ≡ none))
    × ((n : ℤ)
        → number_of (skip_spaces (56 ∷ 48 ∷ [])) ≡ some n
        → (u : Setup) × (confirm (replicate 64 0xAA) (typing 3) ≡ some u)
          × (u.port ≡ n)
          × (u.ssid_stage ≡ 4))
confirm_port_iff_example =
    confirm_port_iff (replicate 64 0xAA) (56 ∷ 48 ∷ []) (typing 3) eighty-IsText (omega arith) refl

text_part-IsWaiting_example :
    (u : Setup) × (commands : List Command) × (text_part early (typing 0) ≡ some (u, commands))
    × IsText (edited_by (in_page early (typing 0)) (letters 0) (10000 % 26) (56 ∷ 48 ∷ [])) u.text
    × IsWaiting (typing 0) u
    × (return_state u.inputs ≡ false)
unfolding handler
text_part-IsWaiting_example =
    text_part-IsWaiting early (typing 0) 10000 (56 ∷ 48 ∷ []) eighty-IsText refl
      (record { seven = refl; twelve = refl }) (λ on pin. omega arith) (λ on pin. omega arith)

numbers :
    (stoi (32 ∷ 45 ∷ 52 ∷ 50 ∷ 120 ∷ 0 ∷ []) ≡ some (negsuc 41))
    × (stoi (0 ∷ []) ≡ none)
    × (stoi (57 ∷ 57 ∷ 57 ∷ 57 ∷ 57 ∷ 57 ∷ 57 ∷ 57 ∷ 57 ∷ 57 ∷ 0 ∷ []) ≡ none)
    × (stoi (49 ∷ 56 ∷ 56 ∷ 51 ∷ 0 ∷ []) ≡ some (pos 1883))
numbers = (refl, refl, refl, refl)

abbrev port_of : Setup → ℤ × ℕ
port_of s = (s.port, s.ssid_stage)

abbrev ends_of : Setup → Bool × Bool × Bool
ends_of s = (s.done, s.use_wifi, s.network_done)

-- Pressed between the page and the read of the pin 12, the text is stored.
stored_late :
    (text_part (record quiet { before_twelve = (12, 0, 0) ∷ [] }) (typing 3) >>= λ r.
    some (port_of r.0))
    ≡ some (pos 80, 4)
unfolding text_part text_behind confirm_part confirm store_text text_input text_input_from press
    neighbours return_input handler
stored_late = refl

abbrev four_turns : List Interrupt
four_turns = (10, 1, 0) ∷ (10, 0, 1) ∷ (10, 1, 0) ∷ (10, 0, 1) ∷ []

-- The entry four of the start page: no network at all.
chosen :
    (visit
        (record quiet { before_first = four_turns; before_nine = (9, 0, 0) ∷ [] })
        (begin_setup (typing 2))
      >>= λ r. some (ends_of r.0))
    ≡ some (true, false, true)
unfolding visit choose_part choose handler
chosen = refl
