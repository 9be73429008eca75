-- ===== src/Pressure/Tests.antt =====
-- Readings of the pressure sensor at concrete bytes.
use ventilation_system_proje.Common.{◌≡◌, refl, [], ◌∷◌}
use ventilation_system_proje.Common.Int.{pos}
use ventilation_system_proje.Pressure.{scaled}

-- 0x6270 is 25200, which is 105 Pa at 240 to the pascal, and 99 with the compensation.
hundred : scaled (0x62 ∷ 0x70 ∷ 0 ∷ []) ≡ pos 99
unfolding scaled
hundred = refl
