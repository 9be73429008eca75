-- ===== src/Pressure/Bounds.antt =====
-- The range and the meaning of a pressure reading.
use ventilation_system_proje.Common.{
  ℕ, ◌+◌, ◌*◌, ◌/◌, ◌-◌, ◌^◌, ◌≤◌, ◌≡◌, ap, ◌∙◌, List, ◌∷◌, u16, ◌<<<◌, bit_or, arith, ltb,
  if◌then◌else◌,
}
use ventilation_system_proje.Common.Or.{bit_or_fields}
use ventilation_system_proje.Common.Int.{pos, sub_ℕ, abs}
use ventilation_system_proje.Crc.Fold.{IsByte}
use ventilation_system_proje.Pressure.{scaled}

pattern_of : (hi lo : ℕ) → IsByte hi → IsByte lo → bit_or (u16 (hi <<< 8)) lo ≡ hi * 2 ^ 8 + lo
pattern_of hi lo p q = ap (λ t. bit_or t lo) small ∙ bit_or_fields 8 hi lo q
  where
    small : u16 (hi <<< 8) ≡ hi * 2 ^ 8
    small = omega arith

-- For two bytes, high byte first, the reading is the signed 16-bit number in two's complement that
-- they make, times 95 and divided by 24000, rounded towards zero: from 128 in the high byte on the
-- pressure is not above zero.
pub scaled_lem :
    (hi lo : ℕ) (rest : List ℕ)
    → IsByte hi
    → IsByte lo
    → scaled (hi ∷ lo ∷ rest) ≡ (
        if ltb hi 128
        then pos ((hi * 2 ^ 8 + lo) * 95 / 24000)
        else sub_ℕ 0 ((2 ^ 16 - (hi * 2 ^ 8 + lo)) * 95 / 24000))
unfolding scaled
scaled_lem hi lo rest p q = rw (pattern_of hi lo p q) (ground arith)

-- Whatever two bytes come from the device, the reading is between -129 and 129, so that the
-- conversion back to 16 bits loses nothing.
pub scaled-bounds :
    (hi lo : ℕ) (rest : List ℕ) → IsByte hi → IsByte lo → abs (scaled (hi ∷ lo ∷ rest)) ≤ 129
scaled-bounds hi lo rest p q = rw (scaled_lem hi lo rest p q) (ground arith)
