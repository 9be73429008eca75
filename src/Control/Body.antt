-- ===== src/Control/Body.antt =====
-- The parts of one round of the control loop of main.cpp, and the round.
use ventilation_system_proje.Common.{
  ℕ, Bool, not, Option, none, some, List, [], ◌∷◌, ltb, ◌==◌, if◌then◌else◌, sub_u32,
}
use ventilation_system_proje.Common.Int.{◌*ℤ◌, quot, to_u16}
use ventilation_system_proje.Fan.{set_speed, adjust_speed}
use ventilation_system_proje.CommHandler.{is_zero}
use ventilation_system_proje.CommHandler.Settings.{set_manual}
use ventilation_system_proje.Display.Menus.{Command, Readings, MainState, main_menu}
use ventilation_system_proje.Control.{
  send_delay, adjust_delay, Board, served, Round, Loop, Status, turn, take_over, limited,
}

module _ (board : Board) where
  open board use {hw, F, temp, co, rh, absh, to_int, transfers}

  abbrev pub readings : Loop board → Readings
  readings s = record {
    fan_speed = quot s.fan.speed 10;
    pressure = s.fan.pressure;
    target_pressure = s.pres_val;
    temp = to_int (temp s.world);
    co2 = to_int (co s.world);
    rh = to_int (rh s.world);
    ah = to_int (absh s.world);
  }

  abbrev pub menu_state : Round → Loop board → MainState
  menu_state r s = record {
    display_mode = s.display_mode;
    mode = if s.settings.manual then 1 else 0;
    inputs = served r.before_page s.inputs;
  }

  -- The page, and the mode that its buttons leave.
  unfoldable pub page_part : Round → Loop board → Loop board × List Command
  page_part r s =
      let (m, commands) = main_menu (readings s) (menu_state r s) in
      (
        record s {
          inputs = m.inputs;
          display_mode = m.display_mode;
          settings = set_manual (not (m.mode == 0)) s.settings;
        },
        commands,
      )

  unfoldable pub manual_part : Round → Loop board → Loop board
  manual_part r s =
      let t = turn r s.speed_val s.prevval s.inputs in
      let set_point = s.settings.setpoint in
      let val = limited 100 (take_over set_point s.old_set_point t.turned_val) in
      let (f, w) = set_speed hw (to_u16 (val *ℤ 10)) s.fan s.world in
      record s {
        speed_val = val;
        prevval = t.kept_val;
        inputs = t.left_inputs;
        old_set_point = set_point;
        fan = f;
        world = w;
      }

  abbrev pub is_adjust_time : ℕ → ℕ → Bool
  is_adjust_time now last = ltb adjust_delay (sub_u32 now last)

  -- `adjust_speed` at the time that was read.
  unfoldable pub adjust_now : Round → Loop board → Loop board
  adjust_now r s =
      let (f, w) = adjust_speed hw s.pres_val s.fan s.world in
      record s { adjust_time = r.adjust_at; fan = f; world = w }

  unfoldable pub automatic_part : Round → Loop board → Loop board
  automatic_part r s =
      let t = turn r s.pres_val s.prevval s.inputs in
      let set_point = s.settings.setpoint in
      let val = limited 120 (take_over set_point s.old_set_point t.turned_val) in
      let s1 : Loop board = record s {
        pres_val = val;
        prevval = t.kept_val;
        inputs = t.left_inputs;
        old_set_point = set_point;
      } in
      if is_adjust_time r.adjust_at s1.adjust_time then adjust_now r s1 else s1

  abbrev pub control_part : Round → Loop board → Loop board
  control_part r s = if s.settings.manual then manual_part r s else automatic_part r s

  -- The message, for the variable `mode` that the page has left.
  abbrev pub status_of : Bool → Loop board → Status F
  status_of mode s = record {
    speed = quot s.fan.speed 10;
    setpoint = if mode then s.speed_val else s.pres_val;
    pressure = s.fan.pressure;
    automatic = not s.settings.manual;
    error = s.fan.error;
    co2 = co s.world;
    ah = absh s.world;
    rh = rh s.world;
    temp = temp s.world;
  }

  -- The sensors, and the message if there is Wi-Fi.
  unfoldable pub send_part : Bool → Bool → Round → Loop board → Loop board × Option (Status F)
  send_part use_wifi mode r s =
      let s1 : Loop board = record s { send_time = r.send_at; world = transfers s.world } in
      if ltb send_delay (sub_u32 r.send_at s.send_time)
      then (s1, (if use_wifi then some (status_of mode s1) else none))
      else (s, none)

  -- What `message_arrived` makes of the settings, in a `yield` that there is with Wi-Fi only.
  unfoldable pub yield_part : Bool → Round → Loop board → Loop board
  yield_part use_wifi r s =
      if use_wifi
      then elim r.message [
        | none ↦ s
        | some m ↦ record s { settings = record { setpoint = m.0; manual = is_zero m.1 } }
      ]
      else s

  unfoldable pub round : Bool → Round → Loop board → Loop board × List Command × Option (Status F)
  round use_wifi r s =
      let (s1, commands) = page_part r s in
      let s2 = control_part r s1 in
      let (s3, status) = send_part use_wifi s1.settings.manual r s2 in
      (yield_part use_wifi r s3, commands, status)

  unfoldable pub rounds : Bool → List Round → Loop board → Loop board
  rounds use_wifi [] s = s
  rounds use_wifi (r ∷ rs) s = rounds use_wifi rs (round use_wifi r s).0
