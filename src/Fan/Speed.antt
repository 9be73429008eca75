-- ===== src/Fan/Speed.antt =====
-- The arithmetic of `FAN::adjust_speed`: what the next speed is, and how it moves.
use ventilation_system_proje.Common.{ℕ, suc, ◌+◌, ◌*◌, ◌/◌, ◌-◌, ◌≤◌, ◌≡◌, min, arith}
use ventilation_system_proje.Common.Int.{pos, negsuc}
use ventilation_system_proje.Fan.{adjusted, clamped}

-- Below the target the speed grows by half of the scaled distance, up to 1000.
pub clamped-below :
    (s d : ℕ) → clamped (adjusted (pos s) (pos d)) ≡ pos (min 1000 ((2 * s + d * 1000 / 150) / 2))
unfolding adjusted clamped
clamped-below s d = ground arith

-- Above the target it falls by half of the scaled distance, down to 0.
pub clamped-above :
    (s d : ℕ)
    → s ≤ 1000
    → clamped (adjusted (pos s) (negsuc d)) ≡ pos ((2 * s - suc d * 1000 / 150) / 2)
unfolding adjusted clamped
clamped-above s d h = ground arith
