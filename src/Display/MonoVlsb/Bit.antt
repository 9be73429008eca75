-- ===== src/Display/MonoVlsb/Bit.antt =====
-- The bits of a painted byte.
use ventilation_system_proje.Common.{
  ℕ, ◌-◌, ◌<◌, ◌≡◌, refl, Bool, true, bit_and, bit_or, ◌==◌, ==_iff, if◌then◌else◌, u8, ◌<<<◌,
  ◌>>>◌, arith, Bool-cases, inl, inr,
}
use ventilation_system_proje.Crc.Shift.{holds_below, holds_below-at}
use ventilation_system_proje.Display.MonoVlsb.{paint}

-- Bit `q` of a byte, and what a color counts as.
abbrev pub bit : ℕ → ℕ → ℕ
bit b q = bit_and (b >>> q) 0x01

abbrev pub shade : ℕ → ℕ
shade color = if color == 0 then 0 else 1

abbrev painted : ℕ → ℕ → ℕ → ℕ
painted b o v = u8 (bit_or (bit_and b (0xFF - (1 <<< o))) (v <<< o))

-- The law for the byte, the two bits and the shade that a number stands for.
abbrev bit_holds : ℕ → ℕ → ℕ → ℕ → Bool
bit_holds v b o q = bit (painted b o v) q == (if q == o then v else bit b q)

abbrev row_holds : ℕ → ℕ → Bool
row_holds v b = holds_below (λ o. holds_below (λ q. bit_holds v b o q) 8) 8

black_table : holds_below (row_holds 0) 256 ≡ true
unfolding holds_below
black_table = refl

white_table : holds_below (row_holds 1) 256 ≡ true
unfolding holds_below
white_table = refl

from_table :
    (v b o q : ℕ)
    → holds_below (row_holds v) 256 ≡ true
    → b < 256
    → o < 8
    → q < 8
    → bit (painted b o v) q ≡ (if q == o then v else bit b q)
from_table v b o q table hb ho hq =
    (==_iff (bit (painted b o v) q) (if q == o then v else bit b q)).0 (
      holds_below-at (λ q. bit_holds v b o q) 8 q hq
        (holds_below-at (λ o. holds_below (λ q. bit_holds v b o q) 8) 8 o ho
          (holds_below-at (row_holds v) 256 b hb table)))

-- Painting a bit of a byte sets that bit to the shade and leaves the others.
pub bit-paint :
    (b o q color : ℕ)
    → b < 256
    → o < 8
    → q < 8
    → bit (paint b o color) q ≡ (if q == o then shade color else bit b q)
unfolding paint
bit-paint b o q color hb ho hq = elim (Bool-cases (color == 0)) [
  | inl black ↦ rw (black) (from_table 0 b o q black_table hb ho hq)
  | inr white ↦ rw (white) (from_table 1 b o q white_table hb ho hq)
]

pub paint-IsByte : (b o color : ℕ) → paint b o color < 256
unfolding paint
paint-IsByte b o color = omega arith
