-- ===== src/Fan.antt =====
-- `FAN` of src/fan_controller/fan.h and fan.cpp. The two registers, the pressure sensor and the
-- clock behind its pointers are the parameter `hw`.
pub mod Speed
pub mod Control
mod Tests
use ventilation_system_proje.Common.{
  ℕ, zero, suc, Bool, true, false, not, ◌==◌, ltb, if◌then◌else◌, u16, sub_u32,
}
use ventilation_system_proje.Common.Int.{ℤ, pos, ◌+ℤ◌, ◌-ℤ◌, ◌*ℤ◌, quot, abs, ltb_ℤ, to_u16}

-- `get_pressure` is `PressureRegister::get`, `read_counter` a transfer of the counter register
-- with the wait for its answer and `get16`, `send_speed` the transfer of a 16-bit speed, and
-- `now_ms` the 32-bit time since boot.
pub record FanHardware : Type 1 where
  pub World : Type 0
  pub get_pressure : World → ℤ × World
  pub read_counter : World → ℕ × World
  pub send_speed : ℕ → World → World
  pub now_ms : World → ℕ

pub record Fan : Type 0 where
  pub speed : ℤ
  pub pressure : ℤ
  pub counter : ℕ
  pub error_time_ms : ℕ
  pub error : Bool

abbrev pub pressure_target_tolerance : ℕ
pressure_target_tolerance = 5

abbrev pub counter_check_retries : ℕ
counter_check_retries = 2

abbrev pub pressure_max : ℕ
pressure_max = 150

abbrev pub speed_min : ℕ
speed_min = 0

abbrev pub speed_max : ℕ
speed_max = 1000

abbrev pub error_delay : ℕ
error_delay = 30000

-- `speed += adjust / 2` with `adjust` a float that holds a whole number. Both are exact in a float
-- for distances below 2 ^ 20, so the sum is a number of halves, which the assignment to an `int`
-- rounds towards zero.
unfoldable pub adjusted : ℤ → ℤ → ℤ
adjusted speed distance =
    let adjust = quot (distance *ℤ speed_max) pressure_max in quot ((speed *ℤ 2) +ℤ adjust) 2

unfoldable pub clamped : ℤ → ℤ
clamped speed =
    let high = if ltb_ℤ (pos speed_max) speed then pos speed_max else speed in
    if ltb_ℤ high (pos speed_min) then pos speed_min else high

module _ (hw : FanHardware) where
  open hw use {World, get_pressure, read_counter, send_speed, now_ms}

  -- The constructor, in the memory `raw` of the object, of which `error_time_ms` and `error` stay.
  unfoldable pub fan : Fan → ℤ → World → Fan × World
  fan raw speed w =
      (record raw { speed = speed; pressure = pos 0; counter = 0 }, send_speed (u16 0) w)

  unfoldable pub pressure_distance : ℤ → Fan → World → ℤ × Fan × World
  pressure_distance target f w =
      let (p, w') = get_pressure w in
      let f' = record f { pressure = p } in (target -ℤ f'.pressure, f', w')

  -- The loop of `is_spinning` with `n` retries left.
  unfoldable pub check_counter : ℕ → Fan → World → Bool × Fan × World
  check_counter zero f w = (false, f, w)
  check_counter (suc n) f w =
      let old = f.counter in
      let (c, w') = read_counter w in
      let f' = record f { counter = c } in
      let later = check_counter n f' w' in if not (old == f'.counter) then (true, f', w') else later

  unfoldable pub is_spinning : Fan → World → Bool × Fan × World
  unfolding check_counter
  is_spinning f w = check_counter counter_check_retries f w

  unfoldable pub set_speed : ℕ → Fan → World → Fan × World
  set_speed speed f w = (record f { error = false; speed = pos speed }, send_speed speed w)

  unfoldable pub adjust_speed : ℤ → Fan → World → Fan × World
  unfolding pressure_distance adjusted clamped
  adjust_speed target_pressure f w =
      let (distance, f1, w1) = pressure_distance target_pressure f w in
      if ltb (abs distance) pressure_target_tolerance
      then (record f1 { error_time_ms = now_ms w1; error = false }, w1)
      else let current = now_ms w1 in
        let late = ltb error_delay (sub_u32 current f1.error_time_ms) in
        let f2 = record f1 { error = if late then true else f1.error } in
        let speed = clamped (adjusted f2.speed distance) in
        (record f2 { speed = speed }, send_speed (to_u16 speed) w1)
