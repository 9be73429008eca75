-- ===== src/Control.antt =====
-- The control loop of main.cpp: its state and its small steps. Control.Body is one round of it over the
-- pages, the fan, the two settings and the clock, with the interrupts that come in between.
pub mod Body
pub mod Bounds
pub mod Counting
pub mod Timing
pub mod Message
mod Tests
use ventilation_system_proje.Common.{ℕ, Bool, not, ◌&&◌, Option, List, [], ◌∷◌, if◌then◌else◌}
use ventilation_system_proje.Common.Int.{ℤ, pos, negsuc, ◌+ℤ◌, ◌-ℤ◌, ◌*ℤ◌, quot, ltb_ℤ, to_u16}
use ventilation_system_proje.Input.{Inputs, handler, return_val}
use ventilation_system_proje.Fan.{FanHardware, Fan, set_speed, adjust_speed}
use ventilation_system_proje.CommHandler.{is_zero}
use ventilation_system_proje.CommHandler.Settings.{Settings, set_manual}
use ventilation_system_proje.Display.Menus.{
  Command, draw_fill, draw_rect, draw_text, draw_one, draw, select_ssid, no_wifi, is_number,
  menu_entry, start_menu, labelled, sensor_page, tabs, fanspeed, pressure_label, target_label,
  control_page, Readings, MainState, is_pressed, switch_display, switch_mode, main_menu,
}

abbrev pub send_delay : ℕ
send_delay = 5000

abbrev pub adjust_delay : ℕ
adjust_delay = 5000

-- The fan's hardware with the four sensor registers beside it: what `get_float` gives for the
-- answer that each holds, C's cast of it to `int`, and the four transfers with the wait for them.
pub record Board : Type 1 where
  pub hw : FanHardware
  pub F : Type 0
  pub temp : hw.World → F
  pub co : hw.World → F
  pub rh : hw.World → F
  pub absh : hw.World → F
  pub to_int : F → ℤ
  pub transfers : hw.World → hw.World

-- An interrupt: the pin, and the levels of the encoder's two lines.
abbrev pub Interrupt : Type 0
Interrupt = ℕ × ℕ × ℕ

abbrev pub served : List Interrupt → Inputs → Inputs
served [] s = s
served ((gpio, a, b) ∷ rest) s = served rest (handler gpio a b s)

-- What comes from outside in one round: the interrupts before the page and before each of the three
-- reads of the encoder, the two times that are read, and the message that `yield` delivers, if any:
-- its "value" and its "auto".
pub record Round : Type 0 where
  pub before_page : List Interrupt
  pub before_first : List Interrupt
  pub before_second : List Interrupt
  pub before_third : List Interrupt
  pub adjust_at : ℕ
  pub send_at : ℕ
  pub message : Option (ℤ × ℤ)

-- The variables of `main` and the objects that the loop works on.
pub record Loop (board : Board) : Type 0 where
  pub world : board.hw.World
  pub fan : Fan
  pub settings : Settings
  pub inputs : Inputs
  pub display_mode : ℕ
  pub adjust_time : ℕ
  pub send_time : ℕ
  pub old_set_point : ℤ
  pub speed_val : ℤ
  pub pres_val : ℤ
  pub prevval : ℤ

-- What `CommHandler::send` is called with.
pub record Status (F : Type 0) : Type 0 where
  pub speed : ℤ
  pub setpoint : ℤ
  pub pressure : ℤ
  pub automatic : Bool
  pub error : Bool
  pub co2 : F
  pub ah : F
  pub rh : F
  pub temp : F

-- The three reads: a step up, a step down, and the value that is kept.
pub record Turned : Type 0 where
  pub turned_val : ℤ
  pub kept_val : ℤ
  pub left_inputs : Inputs

abbrev pub turn : Round → ℤ → ℤ → Inputs → Turned
turn r val prevval s =
    let s1 = served r.before_first s in
    let v1 = if ltb_ℤ prevval (return_val s1) then val +ℤ pos 1 else val in
    let s2 = served r.before_second s1 in
    let v2 = if ltb_ℤ (return_val s2) prevval then v1 -ℤ pos 1 else v1 in
    let s3 = served r.before_third s2 in
    record { turned_val = v2; kept_val = return_val s3; left_inputs = s3 }

abbrev pub equal_ℤ : ℤ → ℤ → Bool
equal_ℤ a b = not (ltb_ℤ a b) && not (ltb_ℤ b a)

-- A new set point takes the place of the value.
abbrev pub take_over : ℤ → ℤ → ℤ → ℤ
take_over set_point old val = if equal_ℤ set_point old then val else set_point

abbrev pub limited : ℕ → ℤ → ℤ
limited high val =
    let low = if ltb_ℤ val (pos 0) then pos 0 else val in
    if ltb_ℤ (pos high) low then pos high else low
