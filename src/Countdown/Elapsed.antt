-- ===== src/Countdown/Elapsed.antt =====
-- What a countdown says as the time passes.
use ventilation_system_proje.Common.{
  ℕ, ◌+◌, ◌-◌, ◌*◌, ◌/◌, ◌^◌, ◌≤◌, ◌<◌, ◌≡◌, ap, ap₂, ◌∙◌, ◌↔◌, true, none, some, arith,
}
use ventilation_system_proje.Common.Int.{pos, ◌*ℤ◌, sub_ℕ, quot}
use ventilation_system_proje.Common.Branches.{if_true}
use ventilation_system_proje.Countdown.{
  Timer, IsTimer, to_u32, i32, is_int, Countdown, countdown_ms, countdown, expired, left_ms,
}

-- A number of an `int` comes through both conversions.
i32-to_u32 : (n : ℕ) → n < 2 ^ 31 → i32 (to_u32 (pos n)) ≡ pos n
i32-to_u32 n h = ground arith

i32-to_u32_below : (a b : ℕ) → a < 2 ^ 31 → b < 2 ^ 31 → i32 (to_u32 (sub_ℕ a b)) ≡ sub_ℕ a b
i32-to_u32_below a b h k = ground arith

quot-sub_ℕ : (a b : ℕ) → quot (sub_ℕ a b) 1000 ≡ sub_ℕ ((a - b) / 1000) ((b - a) / 1000)
quot-sub_ℕ a b = ground arith

is_int-short : (n : ℕ) → n < 2 ^ 31 → is_int (pos n) ≡ true
is_int-short n h = ground arith

product : (n : ℕ) → pos n *ℤ 1000 ≡ pos (n * 1000)
product n = ground arith

to_u32-short : (n : ℕ) → n < 2 ^ 31 → to_u32 (pos n) ≡ n
to_u32-short n h = omega arith

module _ (timer : Timer) (documented : IsTimer timer) where
  -- A countdown of `seconds` that is set at `w` and asked at `w'` is the one of the milliseconds;
  -- it has expired exactly when these have passed, and `left_ms` is the milliseconds that are left,
  -- or minus those since, both rounded down. Before the end of the time, for fewer milliseconds
  -- than an `int` holds, and asked no more than as many milliseconds later.
  pub countdown_lem :
      (seconds : ℕ) (w w' : timer.World)
      → seconds * 1000 < 2 ^ 31
      → timer.get_absolute_time w + seconds * 1000 * 1000 < 2 ^ 63
      → timer.get_absolute_time w ≤ timer.get_absolute_time w'
      → timer.get_absolute_time w' < timer.get_absolute_time w + 2 ^ 31 * 1000
      → let elapsed = timer.get_absolute_time w' - timer.get_absolute_time w in
        let total = seconds * 1000 * 1000 in
        (c : Countdown) × (countdown timer (pos seconds) w ≡ some c)
        × ((expired timer c w' ≡ true) ↔ (total ≤ elapsed))
        × (left_ms timer c w' ≡ sub_ℕ ((total - elapsed) / 1000) ((elapsed - total) / 1000))
  unfolding countdown countdown_ms expired left_ms
  countdown_lem seconds w w' short room later soon =
      let now = timer.get_absolute_time w in
      let now' = timer.get_absolute_time w' in
      let total = seconds * 1000 * 1000 in
      let c : Countdown = record { target_time = now + total } in
      let short' : is_int (pos seconds *ℤ 1000) ≡ true =
        ap is_int (product seconds) ∙ is_int-short (seconds * 1000) short in
      let made : countdown_ms timer (pos seconds *ℤ 1000) w ≡ c =
        ap (λ ms. countdown_ms timer ms w) (product seconds)
        ∙ ap (λ ms. record { target_time = timer.make_timeout_time_ms ms w })
            (to_u32-short (seconds * 1000) short)
        ∙ ap (λ t. record { target_time = t }) (documented.timeout (seconds * 1000) w room) in
      let behind : quot (timer.absolute_time_diff_us now' (now + total)) 1000
          ≡ sub_ℕ ((total - (now' - now)) / 1000) ((now' - now - total) / 1000) =
        ap (λ d. quot d 1000) (documented.difference now' (now + total))
        ∙ quot-sub_ℕ (now + total) now'
        ∙ ap₂ (λ a b. sub_ℕ (a / 1000) (b / 1000)) (omega arith) (omega arith) in
      (
        c,
        if_true (is_int (pos seconds *ℤ 1000)) (some (countdown_ms timer (pos seconds *ℤ 1000) w))
              none short'
            ∙ ap some made,
        (
          λ e. omega (arith, (documented.reached (now + total) w').0 e),
          λ h. (documented.reached (now + total) w').1 (omega arith),
        ),
        ap (λ d. i32 (to_u32 d)) behind
            ∙ i32-to_u32_below ((total - (now' - now)) / 1000) ((now' - now - total) / 1000)
                (omega arith) (omega arith),
      )
