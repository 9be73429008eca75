-- ===== src/Countdown/Tests.antt =====
-- Runs of a countdown.
use ventilation_system_proje.Common.{
  ℕ, ◌+◌, ◌-◌, ◌*◌, ◌^◌, ◌≤◌, ◌<◌, ◌≡◌, refl, ◌↔◌, true, none, some, arith, ltb, leb, if◌then◌else◌,
}
use ventilation_system_proje.Common.Int.{pos, negsuc, sub_ℕ}
use ventilation_system_proje.Countdown.{
  Timer, IsTimer, Countdown, countdown_ms, countdown, expired, left_ms,
}
use ventilation_system_proje.Countdown.Elapsed.{countdown_lem}

-- The world is the time.
abbrev clock : Timer
clock = record {
  World = ℕ;
  get_absolute_time = λ w. w;
  make_timeout_time_ms = λ ms w. if ltb (w + ms * 1000) (2 ^ 63) then w + ms * 1000 else 2 ^ 63 - 1;
  time_reached = λ t w. leb t w;
  absolute_time_diff_us = λ from to. sub_ℕ to from;
}

clock_timeout :
    (ms w : ℕ)
    → w + ms * 1000 < 2 ^ 63
    → (if ltb (w + ms * 1000) (2 ^ 63) then w + ms * 1000 else 2 ^ 63 - 1) ≡ w + ms * 1000
clock_timeout ms w h = ground arith

clock-IsTimer : IsTimer clock
clock-IsTimer = record {
  timeout = clock_timeout;
  reached = λ t w. ground arith;
  difference = λ from to. refl;
}

countdown_lem_example :
    (c : Countdown) × (countdown clock (pos 3) 500 ≡ some c)
    × ((expired clock c 1000500 ≡ true) ↔ (3000000 ≤ 1000000))
    × (left_ms clock c 1000500 ≡ sub_ℕ 2000 0)
countdown_lem_example =
    countdown_lem clock clock-IsTimer 3 500 1000500 (omega arith) (omega arith) (omega arith)
      (omega arith)

-- A time in the past, and a number of seconds that is too large.
past : left_ms clock (countdown_ms clock (pos 2) 0) 5500 ≡ negsuc 2
unfolding left_ms countdown_ms
past = refl

too_long : countdown clock (pos 2147484) 0 ≡ none
unfolding countdown
too_long = refl
