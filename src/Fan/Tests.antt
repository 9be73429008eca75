-- ===== src/Fan/Tests.antt =====
-- A fan over simple hardware, and the theorems at concrete readings.
use ventilation_system_proje.Common.{ℕ, ◌+◌, ◌≡◌, refl, false, arith}
use ventilation_system_proje.Common.Int.{pos}
use ventilation_system_proje.Fan.{FanHardware, Fan, adjust_speed}
use ventilation_system_proje.Fan.Control.{
  Adjusted, adjust_speed-Adjusted, adjust_times, adjust_times-full,
}

-- A duct that stays at 40 Pa, a counter that counts the readings, and a millisecond per reading.
abbrev duct : FanHardware
duct = record {
  World = ℕ;
  get_pressure = λ w. (pos 40, w + 1);
  read_counter = λ w. (w + 1, w + 1);
  send_speed = λ _ w. w;
  now_ms = λ w. w;
}

abbrev idle : Fan
idle = record { speed = pos 500; pressure = pos 0; counter = 0; error_time_ms = 0; error = false }

-- From 500, 60 Pa below the target, the next speed is 700.
sixty_below : (adjust_speed duct (pos 100) idle 7).0.speed ≡ pos 700
unfolding adjust_speed
sixty_below = refl

adjust_speed-Adjusted_example :
    Adjusted duct (pos 60) 500 idle 8 (adjust_speed duct (pos 100) idle 7)
adjust_speed-Adjusted_example =
    adjust_speed-Adjusted duct (pos 100) idle 7 500 refl (omega arith) (omega arith)

adjust_times-full_example : (adjust_times duct (pos 45) 70 idle 0).0.speed ≡ pos 1000
adjust_times-full_example =
    adjust_times-full duct (pos 45) 70 idle 0 (500, refl, omega arith) (λ w. (5, refl, omega arith))
      (omega arith)
