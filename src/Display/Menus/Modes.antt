-- ===== src/Display/Menus/Modes.antt =====
-- What the buttons do on the main page.
use ventilation_system_proje.Common.{
  ℕ, zero, suc, ◌-◌, ◌<◌, ◌≡◌, refl, inl, inr, ◌&&◌, List, arith, ◌==◌, if◌then◌else◌, Bool-cases,
}
use ventilation_system_proje.Input.{Inputs, set_state}
use ventilation_system_proje.Display.Menus.{
  Command, sensor_page, control_page, Readings, MainState, is_pressed, main_menu,
}

-- The state behind `mainMenu`, for a display mode of 0 or 1.
abbrev pub next_modes : MainState → MainState
next_modes s =
    if is_pressed 8 s.inputs
    then record s { display_mode = 1 - s.display_mode; inputs = set_state s.inputs }
    else if is_pressed 9 s.inputs && s.display_mode == 1
    then record s { mode = if s.mode == 0 then 1 else 0; inputs = set_state s.inputs }
    else s

abbrev pub page_of : Readings → MainState → List Command
page_of r s =
    if s.display_mode == 0
    then sensor_page r.temp r.co2 r.rh r.ah
    else control_page (s.mode == 1) r.fan_speed r.pressure r.target_pressure

by_mode :
    (r : Readings) (display_mode mode : ℕ) (inputs : Inputs)
    → display_mode < 2
    → let s : MainState = record { display_mode = display_mode; mode = mode; inputs = inputs } in
      ((main_menu r s).0 ≡ next_modes s)
      × ((main_menu r s).1 ≡ page_of r (next_modes s))
      × ((next_modes s).display_mode < 2)
unfolding main_menu
by_mode r zero mode inputs h = elim (Bool-cases (is_pressed 8 inputs)) [
  | inl e ↦ rw e (refl, refl, omega arith)
  | inr e ↦ elim (Bool-cases (is_pressed 9 inputs)) [
    | inl e' ↦ rw (e, e') (refl, refl, omega arith)
    | inr e' ↦ rw (e, e') (refl, refl, omega arith)
  ]
]
by_mode r (suc zero) mode inputs h = elim (Bool-cases (is_pressed 8 inputs)) [
  | inl e ↦ rw e (refl, refl, omega arith)
  | inr e ↦ elim (Bool-cases (is_pressed 9 inputs)) [
    | inl e' ↦ rw (e, e') (refl, refl, omega arith)
    | inr e' ↦ rw (e, e') (refl, refl, omega arith)
  ]
]
by_mode r (suc (suc d)) mode inputs h = absurd (omega arith)

-- In a display mode of 0 or 1, `mainMenu` acts on at most one button: pin 8 changes the page, pin 9
-- on the control page changes the mode between 0 and 1, in both cases the button is released, and
-- any other press is left for its reader with nothing changed; the page that is drawn is that of
-- the new state, and the new display mode is 0 or 1 again.
pub main_menu_lem :
    (r : Readings) (s : MainState)
    → s.display_mode < 2
    → ((main_menu r s).0 ≡ next_modes s)
      × ((main_menu r s).1 ≡ page_of r (next_modes s))
      × ((next_modes s).display_mode < 2)
main_menu_lem r s h = by_mode r s.display_mode s.mode s.inputs h
