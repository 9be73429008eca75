-- ===== src/Crc/Modbus/Bitwise.antt =====
-- The table of `modbus_crc.h` holds what the bitwise checksum of the Modbus standard computes:
-- reflected polynomial 0xA001, lowest bit first.
use ventilation_system_proje.Common.{
  ℕ, zero, suc, ◌+◌, ◌*◌, ◌/◌, ◌%◌, ◌^◌, ◌<◌, ◌≡◌, refl, sym, ap, ap₂, ◌∙◌, true, bit_xor, ◌==◌,
  get_or, arith,
}
use ventilation_system_proje.Common.Xor.{
  bit_xor-half, bit_xor-parity, bit_xor-lt, high-bit_xor-low, bit_xor_low_byte,
}
use ventilation_system_proje.Crc.Shift.{
  Register, IsWord, steps, steps_linear, bit_xor_swap, bit_xor-eq_zero, holds_below, all_below_eq,
}
use ventilation_system_proje.Crc.Fold.{ByteCrc, IsByte}
use ventilation_system_proje.Crc.Modbus.{table, crc_byte}

-- One step of the standard: shift right, and add the polynomial if the bit shifted out is set.
unfoldable pub lsb_step : ℕ → ℕ
lsb_step c = bit_xor (c / 2) (c % 2 * 0xA001)

polynomial_linear :
    (p q : ℕ) → p < 2 → q < 2 → (p + q) % 2 * 0xA001 ≡ bit_xor (p * 0xA001) (q * 0xA001)
polynomial_linear zero zero p q = refl
polynomial_linear zero (suc zero) p q = refl
polynomial_linear (suc zero) zero p q = refl
polynomial_linear (suc zero) (suc zero) p q = refl
polynomial_linear zero (suc (suc b)) p q = absurd (omega arith)
polynomial_linear (suc zero) (suc (suc b)) p q = absurd (omega arith)
polynomial_linear (suc (suc a)) b p q = absurd (omega arith)

pub lsb_step_linear :
    (a b : ℕ) → IsWord a → IsWord b → lsb_step (bit_xor a b) ≡ bit_xor (lsb_step a) (lsb_step b)
unfolding lsb_step
lsb_step_linear a b p q =
    ap₂ bit_xor (bit_xor-half a b) (
      ap (λ t. t * 0xA001) (bit_xor-parity a b ∙ parity)
      ∙ polynomial_linear (a % 2) (b % 2) (omega arith) (omega arith))
    ∙ bit_xor_swap (a / 2) (b / 2) (a % 2 * 0xA001) (b % 2 * 0xA001)
  where
    parity : (a + b) % 2 ≡ (a % 2 + b % 2) % 2
    parity = omega arith

pub lsb_step-IsWord : (c : ℕ) → IsWord c → IsWord (lsb_step c)
unfolding lsb_step
lsb_step-IsWord c h = bit_xor-lt 16 (c / 2) (c % 2 * 0xA001) (omega arith) (omega arith)

pub lsb_step_only_zero : (c : ℕ) → IsWord c → lsb_step c ≡ 0 → c ≡ 0
unfolding lsb_step
lsb_step_only_zero c h e = omega (arith, bit_xor-eq_zero (c / 2) (c % 2 * 0xA001) e)

unfoldable pub lsb : Register
lsb = record {
  step = lsb_step;
  step-IsWord = lsb_step-IsWord;
  linear = lsb_step_linear;
  only_zero = lsb_step_only_zero;
}

high_table : holds_below (λ h. steps lsb 8 (h * 2 ^ 8) == h) 256 ≡ true
unfolding holds_below steps lsb lsb_step
high_table = refl

low_table : holds_below (λ t. steps lsb 8 t == get_or table t 0) 256 ≡ true
unfolding holds_below steps lsb lsb_step
low_table = refl

-- One round of the table-driven MODBUS checksum, on a 16-bit register and a byte, is eight steps
-- of the bitwise shift register with the reflected polynomial 0xA001 after the byte is added to
-- the register.
pub crc_byte-eq-steps : (c d : ℕ) → IsWord c → IsByte d → crc_byte c d ≡ steps lsb 8 (bit_xor c d)
unfolding crc_byte
crc_byte-eq-steps c d p q =
    ap₂ bit_xor (sym high) (sym low)
    ∙ sym (steps_linear lsb 8 (hi * 2 ^ 8) t (omega arith) (omega (arith, bit_xor-lt 8 lo d)))
    ∙ ap (steps lsb 8) (high-bit_xor-low hi t t-lt ∙ sym (bit_xor_low_byte c d q))
  where
    hi : ℕ
    hi = c / 2 ^ 8

    lo : ℕ
    lo = c % 2 ^ 8

    t : ℕ
    t = bit_xor lo d

    t-lt : t < 2 ^ 8
    t-lt = bit_xor-lt 8 lo d (omega arith) q

    high : steps lsb 8 (hi * 2 ^ 8) ≡ hi
    high = all_below_eq 256 (λ h. steps lsb 8 (h * 2 ^ 8)) (λ h. h) hi high_table (omega arith)

    low : steps lsb 8 t ≡ get_or table t 0
    low = all_below_eq 256 (steps lsb 8) (λ y. get_or table y 0) t low_table t-lt

-- The value of `crc` as a checksum with the laws of `Fold`.
abbrev pub modbus : ByteCrc
modbus = record {
  update = crc_byte;
  register = lsb;
  place = λ d. d;
  place-IsWord = λ d h. omega arith;
  place_injective = λ d e p q h. h;
  update_lem = crc_byte-eq-steps;
}
