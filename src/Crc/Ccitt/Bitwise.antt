-- ===== src/Crc/Ccitt/Bitwise.antt =====
-- `crc16` computes the bitwise CRC-16-CCITT: polynomial 0x1021, highest bit first.
use ventilation_system_proje.Common.{
  ℕ, zero, suc, ◌+◌, ◌*◌, ◌/◌, ◌%◌, ◌^◌, ◌<◌, ◌≡◌, refl, sym, ap, ap₂, ◌∙◌, true, bit_xor, ◌==◌, u8,
  u16, ◌<<<◌, ◌>>>◌, arith,
}
use ventilation_system_proje.Common.Xor.{
  bit_xor-digit, bit_xor-lt, bit_xor_parts, high-bit_xor-low, bit_xor_high_byte, bit_xor_assoc,
  bit_xor_comm,
}
use ventilation_system_proje.Crc.Shift.{
  Register, IsWord, steps, steps_linear, bit_xor_swap, bit_xor-eq_zero, holds_below, all_below_eq,
}
use ventilation_system_proje.Crc.Fold.{ByteCrc, IsByte}
use ventilation_system_proje.Crc.Ccitt.{crc16_byte}

-- One step: shift left in 16 bits, and add the polynomial if the bit shifted out is set.
unfoldable pub msb_step : ℕ → ℕ
msb_step c = bit_xor (c % 2 ^ 15 * 2) (c / 2 ^ 15 % 2 * 0x1021)

polynomial_linear :
    (p q : ℕ) → p < 2 → q < 2 → bit_xor p q * 0x1021 ≡ bit_xor (p * 0x1021) (q * 0x1021)
polynomial_linear zero zero p q = refl
polynomial_linear zero (suc zero) p q = refl
polynomial_linear (suc zero) zero p q = refl
polynomial_linear (suc zero) (suc zero) p q = refl
polynomial_linear zero (suc (suc b)) p q = absurd (omega arith)
polynomial_linear (suc zero) (suc (suc b)) p q = absurd (omega arith)
polynomial_linear (suc (suc a)) b p q = absurd (omega arith)

bit_xor-double : (a b : ℕ) → bit_xor a b * 2 ≡ bit_xor (a * 2) (b * 2)
bit_xor-double a b = omega (arith, bit_xor-digit (a * 2) (b * 2), ap₂ bit_xor (half a) (half b))
  where
    half : (n : ℕ) → n * 2 / 2 ≡ n
    half n = omega arith

-- The top bit and the rest of a sum are those of its terms.
split_sum :
    (a b : ℕ)
    → bit_xor a b ≡ bit_xor (a / 2 ^ 15) (b / 2 ^ 15) * 2 ^ 15 + bit_xor (a % 2 ^ 15) (b % 2 ^ 15)
split_sum a b =
    ap₂ bit_xor (split a) (split b)
    ∙ bit_xor_parts 15 (a / 2 ^ 15) (b / 2 ^ 15) (a % 2 ^ 15) (b % 2 ^ 15) (omega arith)
        (omega arith)
  where
    split : (n : ℕ) → n ≡ n / 2 ^ 15 * 2 ^ 15 + n % 2 ^ 15
    split n = omega arith

msb_step-parts :
    (p r : ℕ) → p < 2 → r < 2 ^ 15 → msb_step (p * 2 ^ 15 + r) ≡ bit_xor (r * 2) (p * 0x1021)
unfolding msb_step
msb_step-parts p r hp hr = ap₂ bit_xor low top
  where
    low : (p * 2 ^ 15 + r) % 2 ^ 15 * 2 ≡ r * 2
    low = omega arith

    top : (p * 2 ^ 15 + r) / 2 ^ 15 % 2 * 0x1021 ≡ p * 0x1021
    top = omega arith

pub msb_step_linear :
    (a b : ℕ) → IsWord a → IsWord b → msb_step (bit_xor a b) ≡ bit_xor (msb_step a) (msb_step b)
msb_step_linear a b ha hb =
    ap msb_step (split_sum a b)
    ∙ msb_step-parts (bit_xor p q) (bit_xor r s) (bit_xor-lt 1 p q p-lt q-lt)
        (bit_xor-lt 15 r s (omega arith) (omega arith))
    ∙ ap₂ bit_xor (bit_xor-double r s) (polynomial_linear p q p-lt q-lt)
    ∙ bit_xor_swap (r * 2) (s * 2) (p * 0x1021) (q * 0x1021)
    ∙ ap₂ bit_xor (sym (of_parts a ha)) (sym (of_parts b hb))
  where
    p : ℕ
    p = a / 2 ^ 15

    q : ℕ
    q = b / 2 ^ 15

    r : ℕ
    r = a % 2 ^ 15

    s : ℕ
    s = b % 2 ^ 15

    p-lt : p < 2
    p-lt = omega arith

    q-lt : q < 2
    q-lt = omega arith

    of_parts : (n : ℕ) → IsWord n → msb_step n ≡ bit_xor (n % 2 ^ 15 * 2) (n / 2 ^ 15 * 0x1021)
    of_parts n h =
        ap msb_step (omega arith)
        ∙ msb_step-parts (n / 2 ^ 15) (n % 2 ^ 15) (omega arith) (omega arith)

pub msb_step-IsWord : (c : ℕ) → IsWord c → IsWord (msb_step c)
unfolding msb_step
msb_step-IsWord c h =
    bit_xor-lt 16 (c % 2 ^ 15 * 2) (c / 2 ^ 15 % 2 * 0x1021) (omega arith) (omega arith)

pub msb_step_only_zero : (c : ℕ) → IsWord c → msb_step c ≡ 0 → c ≡ 0
unfolding msb_step
msb_step_only_zero c h e =
    omega (arith, bit_xor-eq_zero (c % 2 ^ 15 * 2) (c / 2 ^ 15 % 2 * 0x1021) e)

unfoldable pub msb : Register
msb = record {
  step = msb_step;
  step-IsWord = msb_step-IsWord;
  linear = msb_step_linear;
  only_zero = msb_step_only_zero;
}

-- The three shifted copies that the code adds for a folded byte.
abbrev pub folded : ℕ → ℕ
folded t =
    let x = u8 (bit_xor t (t >>> 4)) in bit_xor (bit_xor (u16 (x <<< 12)) (u16 (x <<< 5))) (u16 x)

high_table : holds_below (λ t. steps msb 8 (t * 2 ^ 8) == folded t) 256 ≡ true
unfolding holds_below steps msb msb_step
high_table = refl

low_table : holds_below (λ l. steps msb 8 l == l * 2 ^ 8) 256 ≡ true
unfolding holds_below steps msb msb_step
low_table = refl

folded-IsWord : (t : ℕ) → IsWord (folded t)
folded-IsWord t =
    bit_xor-lt 16 (bit_xor (u16 (x <<< 12)) (u16 (x <<< 5))) (u16 x)
      (bit_xor-lt 16 (u16 (x <<< 12)) (u16 (x <<< 5)) (omega arith) (omega arith)) (omega arith)
  where
    x : ℕ
    x = u8 (bit_xor t (t >>> 4))

-- What `crc << 8` pushes out of 16 bits is lost, whatever is added below.
shifted_out : (c f : ℕ) → IsWord f → u16 (bit_xor (c <<< 8) f) ≡ bit_xor (c % 2 ^ 8 * 2 ^ 8) f
shifted_out c f h =
    ap u16 (ap₂ bit_xor split plus_zero ∙ bit_xor_parts 16 hi 0 lo f (omega arith) h)
    ∙ omega (arith, bit_xor-lt 16 lo f (omega arith) h)
  where
    hi : ℕ
    hi = c / 2 ^ 8

    lo : ℕ
    lo = c % 2 ^ 8 * 2 ^ 8

    split : c <<< 8 ≡ hi * 2 ^ 16 + lo
    split = omega arith

    plus_zero : f ≡ 0 * 2 ^ 16 + f
    plus_zero = omega arith

pub crc16_byte-folded :
    (c d : ℕ)
    → IsWord c
    → IsByte d
    → crc16_byte c d ≡ bit_xor (c % 2 ^ 8 * 2 ^ 8) (folded (bit_xor (c / 2 ^ 8) d))
unfolding crc16_byte
crc16_byte-folded c d p q =
    ap u16 (
      bit_xor_assoc (bit_xor (c <<< 8) (copy 12)) (copy 5) (u16 x)
      ∙ bit_xor_assoc (c <<< 8) (copy 12) (bit_xor (copy 5) (u16 x))
      ∙ ap (bit_xor (c <<< 8)) (sym (bit_xor_assoc (copy 12) (copy 5) (u16 x))))
    ∙ ap (λ t. u16 (bit_xor (c <<< 8) (folded t))) fits
    ∙ shifted_out c (folded (bit_xor (c / 2 ^ 8) d)) (folded-IsWord (bit_xor (c / 2 ^ 8) d))
  where
    t : ℕ
    t = u8 (bit_xor (c / 2 ^ 8) d)

    x : ℕ
    x = u8 (bit_xor t (t >>> 4))

    copy : ℕ → ℕ
    copy k = u16 (x <<< k)

    fits : t ≡ bit_xor (c / 2 ^ 8) d
    fits = omega (arith, bit_xor-lt 8 (c / 2 ^ 8) d (omega arith) q)

-- One round of `crc16`, on a 16-bit register and a byte, is eight steps of the bitwise shift
-- register with the polynomial 0x1021 after the byte is added to the register's high half.
pub crc16_byte-eq-steps :
    (c d : ℕ) → IsWord c → IsByte d → crc16_byte c d ≡ steps msb 8 (bit_xor c (d * 2 ^ 8))
crc16_byte-eq-steps c d p q =
    crc16_byte-folded c d p q
    ∙ bit_xor_comm (lo * 2 ^ 8) (folded t)
    ∙ ap₂ bit_xor (sym high) (sym low)
    ∙ sym (steps_linear msb 8 (t * 2 ^ 8) lo (omega (arith, t-lt)) (omega arith))
    ∙ ap (steps msb 8) (high-bit_xor-low t lo (omega arith) ∙ sym (bit_xor_high_byte c d))
  where
    t : ℕ
    t = bit_xor (c / 2 ^ 8) d

    lo : ℕ
    lo = c % 2 ^ 8

    t-lt : t < 2 ^ 8
    t-lt = bit_xor-lt 8 (c / 2 ^ 8) d (omega arith) q

    high : steps msb 8 (t * 2 ^ 8) ≡ folded t
    high = all_below_eq 256 (λ y. steps msb 8 (y * 2 ^ 8)) folded t high_table t-lt

    low : steps msb 8 lo ≡ lo * 2 ^ 8
    low = all_below_eq 256 (steps msb 8) (λ y. y * 2 ^ 8) lo low_table (omega arith)

-- The value of `crc16` as a checksum with the laws of `Fold`.
abbrev pub ccitt : ByteCrc
ccitt = record {
  update = crc16_byte;
  register = msb;
  place = λ d. d * 2 ^ 8;
  place-IsWord = λ d h. omega arith;
  place_injective = λ d e p q h. omega arith;
  update_lem = crc16_byte-eq-steps;
}
