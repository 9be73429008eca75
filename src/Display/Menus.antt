-- ===== src/Display/Menus.antt =====
-- The pages of src/display/graphics.h and graphics.cpp: what they draw, and what the buttons do.
pub mod TextInput
pub mod Editing
pub mod Typing
pub mod Overrun
pub mod Pages
pub mod Modes
pub mod Returning
mod Tests
use ventilation_system_proje.Common.{
  ℕ, ◌+◌, Bool, true, false, not, ◌&&◌, ◌||◌, Option, some, List, [], ◌∷◌, ◌++◌, ◌==◌,
  if◌then◌else◌, ◌>>=◌, take,
}
use ventilation_system_proje.Common.Int.{ℤ, pos, negsuc}
use ventilation_system_proje.Display.Framebuf.{Virtual, rect, fill, text}
use ventilation_system_proje.Input.{Inputs, return_state, return_pin, set_state}
use ventilation_system_proje.Log.Credentials.{decimal}

-- The calls that the pages make of the display, in their order.
pub data Command : Type 0 where
  draw_fill : ℕ → Command
  draw_rect : ℕ → ℕ → ℕ → ℕ → ℕ → Bool → Command
  draw_text : List ℕ → ℕ → ℕ → ℕ → Command

module _ (fb : Virtual) where
  unfoldable pub draw_one : Command → fb.Canvas → Option fb.Canvas
  draw_one (draw_fill color) c = fill fb color c
  draw_one (draw_rect x y w h color filled) c = rect fb x y w h color filled c
  draw_one (draw_text str x y color) c = text fb str x y color c

  unfoldable pub draw : List Command → fb.Canvas → Option fb.Canvas
  unfolding draw_one
  draw [] c = some c
  draw (k ∷ ks) c = do c' ← draw_one k c; draw ks c'

-- The texts.
abbrev pub select_ssid : List ℕ
select_ssid = b'S' ∷ b'E' ∷ b'L' ∷ b'E' ∷ b'C' ∷ b'T' ∷ b' ' ∷ b'S' ∷ b'S' ∷ b'I' ∷ b'D' ∷ []

abbrev pub use_previous : List ℕ
use_previous =
    b'U' ∷ b'S' ∷ b'E' ∷ b' ' ∷ b'P' ∷ b'R' ∷ b'E' ∷ b'V' ∷ b'I' ∷ b'O' ∷ b'U' ∷ b'S' ∷ []

abbrev pub no_wifi : List ℕ
no_wifi = b'N' ∷ b'O' ∷ b' ' ∷ b'W' ∷ b'I' ∷ b'F' ∷ b'I' ∷ []

abbrev pub is_number : ℤ → ℕ → Bool
is_number (pos n) k = n == k
is_number (negsuc n) k = false

-- An entry of the start page at a height, filled if it is the chosen one.
abbrev pub menu_entry : Bool → List ℕ → ℕ → List Command → List Command
menu_entry chosen label y rest =
    if chosen
    then draw_rect 9 y 110 14 1 true ∷ draw_text label 12 (y + 3) 0 ∷ rest
    else draw_rect 9 y 110 14 1 false ∷ draw_text label 12 (y + 3) 1 ∷ rest

unfoldable pub start_menu : ℤ → List Command
start_menu p =
    draw_fill 0
    ∷ menu_entry (is_number p 0 || is_number p 1) select_ssid 5 (
        menu_entry (is_number p 2 || is_number p 3) use_previous 25
          (menu_entry (is_number p 4 || is_number p 5) no_wifi 45 []))

-- A label with a number behind it, as `snprintf` writes it into 30 bytes.
abbrev pub labelled : List ℕ → ℤ → List ℕ
labelled label v = take 29 (label ++ decimal v)

abbrev pub sensor_page : ℤ → ℤ → ℤ → ℤ → List Command
sensor_page temp co2 rh ah =
    draw_fill 0
    ∷ draw_text (labelled (b't' ∷ b'e' ∷ b'm' ∷ b'p' ∷ b':' ∷ b' ' ∷ []) temp) 2 10 1
    ∷ draw_text (labelled (b'c' ∷ b'o' ∷ b'2' ∷ b':' ∷ b' ' ∷ []) co2) 2 20 1
    ∷ draw_text (labelled (b'r' ∷ b'h' ∷ b':' ∷ b' ' ∷ []) rh) 2 30 1
    ∷ draw_text (labelled (b'a' ∷ b'h' ∷ b':' ∷ b' ' ∷ []) ah) 2 40 1
    ∷ []

-- The two tabs of the control page; `manual` is the filled one if it is set.
abbrev pub tabs : Bool → List Command → List Command
tabs manual rest =
    draw_fill 0
    ∷ draw_rect 4 4 58 20 1 manual
    ∷ draw_rect 66 4 58 20 1 (not manual)
    ∷ draw_text (b'M' ∷ b'A' ∷ b'N' ∷ b'U' ∷ b'A' ∷ b'L' ∷ []) 10 10 (if manual then 0 else 1)
    ∷ draw_text (b'A' ∷ b'U' ∷ b'T' ∷ b'O' ∷ []) 80 10 (if manual then 1 else 0)
    ∷ rest

abbrev pub fanspeed : List ℕ
fanspeed = b'f' ∷ b'a' ∷ b'n' ∷ b's' ∷ b'p' ∷ b'e' ∷ b'e' ∷ b'd' ∷ b':' ∷ b' ' ∷ []

abbrev pub pressure_label : List ℕ
pressure_label = b'p' ∷ b'r' ∷ b'e' ∷ b's' ∷ b's' ∷ b'u' ∷ b'r' ∷ b'e' ∷ b':' ∷ b' ' ∷ []

abbrev pub target_label : List ℕ
target_label = b't' ∷ b'a' ∷ b'r' ∷ b'g' ∷ b'e' ∷ b't' ∷ b' ' ∷ pressure_label

abbrev pub control_page : Bool → ℤ → ℤ → ℤ → List Command
control_page manual fan_speed pressure target_pressure =
    if manual
    then tabs true (draw_text (labelled fanspeed fan_speed) 4 30 1 ∷ [])
    else tabs false (
        draw_text (labelled pressure_label pressure) 2 30 1
        ∷ draw_text target_label 2 40 1
        ∷ draw_text (labelled [] target_pressure) 2 50 1
        ∷ [])

-- The numbers that `mainMenu` shows; the floats are those behind its casts to `int`.
pub record Readings : Type 0 where
  pub fan_speed : ℤ
  pub pressure : ℤ
  pub target_pressure : ℤ
  pub temp : ℤ
  pub co2 : ℤ
  pub rh : ℤ
  pub ah : ℤ

-- What `mainMenu` works on: the global `display_mode`, the caller's `mode`, and the buttons.
pub record MainState : Type 0 where
  pub display_mode : ℕ
  pub mode : ℕ
  pub inputs : Inputs

abbrev pub is_pressed : ℕ → Inputs → Bool
is_pressed pin inputs = return_state inputs && return_pin inputs == pin

abbrev pub switch_display : MainState → MainState
switch_display s =
    if is_pressed 8 s.inputs
    then record s {
      inputs = set_state s.inputs;
      display_mode = if s.display_mode == 0 then 1 else 0;
    }
    else s

abbrev pub switch_mode : MainState → MainState
switch_mode s =
    if is_pressed 9 s.inputs
    then record s { inputs = set_state s.inputs; mode = if s.mode == 0 then 1 else 0 }
    else s

unfoldable pub main_menu : Readings → MainState → MainState × List Command
main_menu r s =
    let s1 = switch_display s in
    let s2 = switch_mode s1 in
    if s1.display_mode == 0
    then (s1, sensor_page r.temp r.co2 r.rh r.ah)
    else if s1.display_mode == 1
    then (s2, control_page (s2.mode == 1) r.fan_speed r.pressure r.target_pressure)
    else (s1, [])
