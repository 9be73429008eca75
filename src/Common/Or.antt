-- ===== src/Common/Or.antt =====
-- Bitwise or of words whose bits do not meet is their sum, at every width; and the lowest digit of
-- bitwise and.
use Prim.Native.Nat.{ℕ, zero, suc, ◌+◌, ◌*◌, ◌/◌, ◌%◌, ◌^◌, ◌≤◌, ◌<◌, min, max}
use Prim.Native.Nat.{bit_and, bit_or, bit_and-bitwise, bit_or-bitwise}
use mathlib.Core.Path.{◌≡◌, refl, ap, ◌∙◌}
use ventilation_system_proje.Common.Digits.{power_double, bitwise-halves}
use ventilation_system_proje.Common.Word.{u32, ◌<<<◌}
use native.Mathlib.Nat.{le_refl, pow-suc}
use native.Mathlib.Omega.{arith}

pub bit_or-digit : (a b : ℕ) → bit_or a b ≡ bit_or (a / 2) (b / 2) * 2 + max (a % 2) (b % 2)
bit_or-digit zero b = simp bit_or-bitwise (omega arith)
bit_or-digit (suc a) b = simp bit_or-bitwise (bitwise-halves (λ y. y) max a b)

pub bit_and-digit : (a b : ℕ) → bit_and a b ≡ bit_and (a / 2) (b / 2) * 2 + min (a % 2) (b % 2)
bit_and-digit zero b = simp bit_and-bitwise (omega arith)
bit_and-digit (suc a) b = simp bit_and-bitwise (bitwise-halves (λ y. 0) min a b)

or-zero_fuel : (n a : ℕ) → a ≤ n → bit_or a 0 ≡ a
or-zero_fuel n zero h = refl
or-zero_fuel zero (suc a) h = absurd (omega arith)
or-zero_fuel (suc n) (suc a) h =
    omega (arith, bit_or-digit (suc a) 0, or-zero_fuel n (suc a / 2) (omega arith))

pub bit_or-zero : (a : ℕ) → bit_or a 0 ≡ a
bit_or-zero a = or-zero_fuel a a (le_refl _)

-- A high part above a low part.
pub bit_or_fields : (k q r : ℕ) → r < 2 ^ k → bit_or (q * 2 ^ k) r ≡ q * 2 ^ k + r
bit_or_fields zero q zero h = bit_or-zero (q * 2 ^ 0) ∙ omega arith
bit_or_fields zero q (suc r) h = absurd (omega arith)
bit_or_fields (suc k) q r h = omega (
  arith,
  bit_or-digit (q * 2 ^ suc k) r,
  power_double k q,
  pow-suc 2 k,
  ap (λ (t : ℕ). bit_or t (r / 2)) half,
  bit_or_fields k q (r / 2) (omega (arith, pow-suc 2 k)),
)
  where
    half : q * 2 ^ suc k / 2 ≡ q * 2 ^ k
    half = omega (arith, power_double k q)

and-zero_fuel : (n a : ℕ) → a ≤ n → bit_and a 0 ≡ 0
and-zero_fuel n zero h = refl
and-zero_fuel zero (suc a) h = absurd (omega arith)
and-zero_fuel (suc n) (suc a) h =
    omega (arith, bit_and-digit (suc a) 0, and-zero_fuel n (suc a / 2) (omega arith))

pub bit_and-zero : (a : ℕ) → bit_and a 0 ≡ 0
bit_and-zero a = and-zero_fuel a a (le_refl _)

pub bit_and_0x1 : (a : ℕ) → bit_and a 0x1 ≡ a % 2
bit_and_0x1 a = omega (arith, bit_and-digit a 0x1, bit_and-zero (a / 2))

pub bit_and_0x7 : (a : ℕ) → bit_and a 0x7 ≡ a % 8
bit_and_0x7 a =
    omega (arith, bit_and-digit a 0x7, bit_and-digit (a / 2) 0x3, bit_and_0x1 (a / 2 / 2))

bit_and_0x3F : (a : ℕ) → bit_and a 0x3F ≡ a % 64
bit_and_0x3F a = omega (
  arith,
  bit_and-digit a 0x3F,
  bit_and-digit (a / 2) 0x1F,
  bit_and-digit (a / 2 / 2) 0xF,
  bit_and_0x7 (a / 2 / 2 / 2),
)

-- The lowest byte.
pub bit_and_0xFF : (a : ℕ) → bit_and a 0xFF ≡ a % 256
bit_and_0xFF a =
    omega (arith, bit_and-digit a 0xFF, bit_and-digit (a / 2) 0x7F, bit_and_0x3F (a / 2 / 2))

-- Four bytes put together by shifts, `c` highest.
pub bytes_u32 :
    (a b c d : ℕ)
    → a < 2 ^ 8
    → b < 2 ^ 8
    → c < 2 ^ 8
    → d < 2 ^ 8
    → u32 (bit_or (bit_or (bit_or (c <<< 24) (d <<< 16)) (a <<< 8)) b)
      ≡ ((c * 2 ^ 8 + d) * 2 ^ 8 + a) * 2 ^ 8 + b
bytes_u32 a b c d ha hb hc hd =
    ap (λ t. u32 (bit_or (bit_or t (a <<< 8)) b))
      (bit_or_fields 24 c (d <<< 16) (omega arith) ∙ high)
    ∙ ap (λ t. u32 (bit_or t b)) (bit_or_fields 16 (c * 2 ^ 8 + d) (a <<< 8) (omega arith) ∙ middle)
    ∙ omega (arith, bit_or_fields 8 ((c * 2 ^ 8 + d) * 2 ^ 8 + a) b hb)
  where
    high : c * 2 ^ 24 + (d <<< 16) ≡ (c * 2 ^ 8 + d) * 2 ^ 16
    high = omega arith

    middle : (c * 2 ^ 8 + d) * 2 ^ 16 + (a <<< 8) ≡ ((c * 2 ^ 8 + d) * 2 ^ 8 + a) * 2 ^ 8
    middle = omega arith
