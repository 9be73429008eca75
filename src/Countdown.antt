-- ===== src/Countdown.antt =====
-- `Countdown` of src/Countdown.h and Countdown.cpp, the timer of the MQTT client. The times of the
-- Pico SDK are the parameter.
pub mod Elapsed
mod Tests
use ventilation_system_proje.Common.{
  ℕ, ◌+◌, ◌-◌, ◌*◌, ◌%◌, ◌^◌, ◌≤◌, ◌<◌, ◌≡◌, ◌↔◌, Bool, true, not, ◌&&◌, Option, none, some, ltb,
  if◌then◌else◌,
}
use ventilation_system_proje.Common.Int.{ℤ, pos, negsuc, ◌*ℤ◌, ◌≤ℤ◌, sub_ℕ, quot, ltb_ℤ}

-- The calls of pico/time.h; a time is a number of microseconds since boot.
pub record Timer : Type 1 where
  pub World : Type 0
  pub get_absolute_time : World → ℕ
  pub make_timeout_time_ms : ℕ → World → ℕ
  pub time_reached : ℕ → World → Bool
  pub absolute_time_diff_us : ℕ → ℕ → ℤ

-- What the SDK says of them: a timeout is so many milliseconds from now, unless that is past the
-- end of the time, a time is reached when it is not in the future, and a difference is signed.
pub record IsTimer (timer : Timer) : Type 0 where
  pub timeout :
      (ms : ℕ) (w : timer.World)
      → timer.get_absolute_time w + ms * 1000 < 2 ^ 63
      → timer.make_timeout_time_ms ms w ≡ timer.get_absolute_time w + ms * 1000
  pub reached :
      (t : ℕ) (w : timer.World) → (timer.time_reached t w ≡ true) ↔ (t ≤ timer.get_absolute_time w)
  pub difference : (from to : ℕ) → timer.absolute_time_diff_us from to ≡ sub_ℕ to from

-- An `int` as `uint32_t`, and an `int64_t` cast to `int`.
abbrev pub to_u32 : ℤ → ℕ
to_u32 (pos n) = n % 2 ^ 32
to_u32 (negsuc n) = 2 ^ 32 - 1 - n % 2 ^ 32

abbrev pub i32 : ℕ → ℤ
i32 n = if ltb n (2 ^ 31) then pos n else sub_ℕ n (2 ^ 32)

abbrev pub is_int : ℤ → Bool
is_int n = ltb_ℤ n (pos (2 ^ 31)) && not (ltb_ℤ n (negsuc (2 ^ 31 - 1)))

pub record Countdown : Type 0 where
  pub target_time : ℕ

module _ (timer : Timer) where
  open timer use {World}

  unfoldable pub countdown_ms : ℤ → World → Countdown
  countdown_ms ms w = record { target_time = timer.make_timeout_time_ms (to_u32 ms) w }

  -- The two constructors.
  abbrev pub new : World → Countdown
  new w = countdown_ms (pos 0) w

  abbrev pub new_ms : ℤ → World → Countdown
  new_ms ms w = countdown_ms ms w

  -- `none` where the product leaves the range of an `int`.
  unfoldable pub countdown : ℤ → World → Option Countdown
  countdown seconds w =
      let ms = seconds *ℤ 1000 in if is_int ms then some (countdown_ms ms w) else none

  unfoldable pub expired : Countdown → World → Bool
  expired c w = timer.time_reached c.target_time w

  unfoldable pub left_ms : Countdown → World → ℤ
  left_ms c w =
      let diff = timer.absolute_time_diff_us (timer.get_absolute_time w) c.target_time in
      i32 (to_u32 (quot diff 1000))
