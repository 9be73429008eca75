-- ===== src/Common/Xor.antt =====
-- The laws of exclusive or that the checksums need, at every width, from its digit recursion.
use Prim.Native.Nat.{ℕ, zero, suc, ◌+◌, ◌*◌, ◌/◌, ◌%◌, ◌^◌, ◌≤◌, ◌<◌}
use Prim.Native.Nat.{bit_xor, differ, bit_xor-bitwise}
use mathlib.Core.Path.{◌≡◌, refl, ap, ap₂, sym, ◌∙◌}
use ventilation_system_proje.Common.Digits.{power_double, bitwise-halves}
use native.Mathlib.Nat.{le_refl, pow-suc}
use native.Mathlib.Omega.{arith}

differ-zero : (y : ℕ) → y < 2 → differ 0 y ≡ y
differ-zero zero h = refl
differ-zero (suc zero) h = refl
differ-zero (suc (suc y)) h = absurd (omega arith)

pub zero-bit_xor : (b : ℕ) → bit_xor 0 b ≡ b
zero-bit_xor b = bit_xor-bitwise 0 b

-- The law for the lowest digit.
pub bit_xor_step : (a b : ℕ) → bit_xor a b ≡ bit_xor (a / 2) (b / 2) * 2 + differ (a % 2) (b % 2)
bit_xor_step zero b =
    omega (arith, zero-bit_xor b, zero-bit_xor (b / 2), differ-zero (b % 2) (omega arith))
bit_xor_step (suc a) b = simp bit_xor-bitwise (bitwise-halves (λ y. y) differ a b)

differ-parity : (x y : ℕ) → x < 2 → y < 2 → differ x y ≡ (x + y) % 2
differ-parity zero zero p q = refl
differ-parity zero (suc zero) p q = refl
differ-parity (suc zero) zero p q = refl
differ-parity (suc zero) (suc zero) p q = refl
differ-parity zero (suc (suc y)) p q = absurd (omega arith)
differ-parity (suc zero) (suc (suc y)) p q = absurd (omega arith)
differ-parity (suc (suc x)) y p q = absurd (omega arith)

-- The lowest digit of the result is the parity of the two, and the rest is that of the halves.
pub bit_xor-digit : (a b : ℕ) → bit_xor a b ≡ bit_xor (a / 2) (b / 2) * 2 + (a + b) % 2
bit_xor-digit a b =
    omega (arith, bit_xor_step a b, differ-parity (a % 2) (b % 2) (omega arith) (omega arith))

pub bit_xor-half : (a b : ℕ) → bit_xor a b / 2 ≡ bit_xor (a / 2) (b / 2)
bit_xor-half a b = omega (arith, bit_xor-digit a b)

pub bit_xor-parity : (a b : ℕ) → bit_xor a b % 2 ≡ (a + b) % 2
bit_xor-parity a b = omega (arith, bit_xor-digit a b)

comm_fuel : (n a b : ℕ) → a + b ≤ n → bit_xor a b ≡ bit_xor b a
comm_fuel n zero zero h = refl
comm_fuel zero (suc a) b h = absurd (omega arith)
comm_fuel zero zero (suc b) h = absurd (omega arith)
comm_fuel (suc n) (suc a) b h = omega (
  arith,
  bit_xor-digit (suc a) b,
  bit_xor-digit b (suc a),
  comm_fuel n (suc a / 2) (b / 2) (omega arith),
)
comm_fuel (suc n) zero (suc b) h = omega (
  arith,
  bit_xor-digit 0 (suc b),
  bit_xor-digit (suc b) 0,
  comm_fuel n (0 / 2) (suc b / 2) (omega arith),
)

pub bit_xor_comm : (a b : ℕ) → bit_xor a b ≡ bit_xor b a
bit_xor_comm a b = comm_fuel (a + b) a b (le_refl _)

pub bit_xor-zero : (a : ℕ) → bit_xor a 0 ≡ a
bit_xor-zero a = bit_xor_comm a 0 ∙ zero-bit_xor a

assoc_fuel : (n a b c : ℕ) → a ≤ n → bit_xor (bit_xor a b) c ≡ bit_xor a (bit_xor b c)
assoc_fuel n zero b c h = ap (λ t. bit_xor t c) (zero-bit_xor b) ∙ sym (zero-bit_xor (bit_xor b c))
assoc_fuel zero (suc a) b c h = absurd (omega arith)
assoc_fuel (suc n) (suc a) b c h = omega (
  arith,
  bit_xor-digit (bit_xor (suc a) b) c,
  bit_xor-digit (suc a) (bit_xor b c),
  bit_xor-parity (suc a) b,
  bit_xor-parity b c,
  ap (λ (t : ℕ). bit_xor t (c / 2)) (bit_xor-half (suc a) b),
  ap (λ (t : ℕ). bit_xor (suc a / 2) t) (bit_xor-half b c),
  assoc_fuel n (suc a / 2) (b / 2) (c / 2) (omega arith),
)

pub bit_xor_assoc : (a b c : ℕ) → bit_xor (bit_xor a b) c ≡ bit_xor a (bit_xor b c)
bit_xor_assoc a b c = assoc_fuel a a b c (le_refl _)

self_fuel : (n a : ℕ) → a ≤ n → bit_xor a a ≡ 0
self_fuel n zero h = refl
self_fuel zero (suc a) h = absurd (omega arith)
self_fuel (suc n) (suc a) h =
    omega (arith, bit_xor-digit (suc a) (suc a), self_fuel n (suc a / 2) (omega arith))

pub bit_xor_self : (a : ℕ) → bit_xor a a ≡ 0
bit_xor_self a = self_fuel a a (le_refl _)

-- The result fits the width of its arguments.
pub bit_xor-lt : (k a b : ℕ) → a < 2 ^ k → b < 2 ^ k → bit_xor a b < 2 ^ k
bit_xor-lt zero zero b p q = omega (arith, zero-bit_xor b)
bit_xor-lt zero (suc a) b p q = absurd (omega arith)
bit_xor-lt (suc k) a b p q = omega (
  arith,
  bit_xor-digit a b,
  pow-suc 2 k,
  bit_xor-lt k (a / 2) (b / 2) (omega (arith, pow-suc 2 k)) (omega (arith, pow-suc 2 k)),
)

-- Words made of a high and a low part are combined part by part.
pub bit_xor_parts :
    (k p q r s : ℕ)
    → r < 2 ^ k
    → s < 2 ^ k
    → bit_xor (p * 2 ^ k + r) (q * 2 ^ k + s) ≡ bit_xor p q * 2 ^ k + bit_xor r s
bit_xor_parts zero p q zero zero hr hs = ap₂ bit_xor (unit p) (unit q) ∙ sym (unit (bit_xor p q))
  where
    unit : (n : ℕ) → n * 2 ^ 0 + 0 ≡ n
    unit n = omega arith
bit_xor_parts zero p q (suc r) s hr hs = absurd (omega arith)
bit_xor_parts zero p q zero (suc s) hr hs = absurd (omega arith)
bit_xor_parts (suc k) p q r s hr hs = omega (
  arith,
  bit_xor-digit (p * 2 ^ suc k + r) (q * 2 ^ suc k + s),
  bit_xor-digit r s,
  power_double k p,
  power_double k q,
  power_double k (bit_xor p q),
  pow-suc 2 k,
  ap₂ bit_xor (half p r) (half q s),
  bit_xor_parts k p q (r / 2) (s / 2) (omega (arith, pow-suc 2 k)) (omega (arith, pow-suc 2 k)),
)
  where
    half : (n m : ℕ) → (n * 2 ^ suc k + m) / 2 ≡ n * 2 ^ k + m / 2
    half n m = omega (arith, power_double k n)

-- A byte above and one below do not meet.
pub high-bit_xor-low : (hi t : ℕ) → t < 2 ^ 8 → bit_xor (hi * 2 ^ 8) t ≡ hi * 2 ^ 8 + t
high-bit_xor-low hi t h =
    ap₂ bit_xor plus_zero zero_plus
    ∙ bit_xor_parts 8 hi 0 0 t (omega arith) h
    ∙ ap₂ (λ a b. a * 2 ^ 8 + b) (bit_xor-zero hi) (zero-bit_xor t)
  where
    plus_zero : hi * 2 ^ 8 ≡ hi * 2 ^ 8 + 0
    plus_zero = omega arith

    zero_plus : t ≡ 0 * 2 ^ 8 + t
    zero_plus = omega arith

-- Adding a byte in changes the lowest byte alone.
pub bit_xor_low_byte :
    (c d : ℕ) → d < 2 ^ 8 → bit_xor c d ≡ c / 2 ^ 8 * 2 ^ 8 + bit_xor (c % 2 ^ 8) d
bit_xor_low_byte c d h =
    ap₂ bit_xor split zero_plus
    ∙ bit_xor_parts 8 (c / 2 ^ 8) 0 (c % 2 ^ 8) d (omega arith) h
    ∙ ap (λ a. a * 2 ^ 8 + bit_xor (c % 2 ^ 8) d) (bit_xor-zero (c / 2 ^ 8))
  where
    split : c ≡ c / 2 ^ 8 * 2 ^ 8 + c % 2 ^ 8
    split = omega arith

    zero_plus : d ≡ 0 * 2 ^ 8 + d
    zero_plus = omega arith

-- Adding a byte in above changes the next byte alone.
pub bit_xor_high_byte :
    (c d : ℕ) → bit_xor c (d * 2 ^ 8) ≡ bit_xor (c / 2 ^ 8) d * 2 ^ 8 + c % 2 ^ 8
bit_xor_high_byte c d =
    ap₂ bit_xor split plus_zero
    ∙ bit_xor_parts 8 (c / 2 ^ 8) d (c % 2 ^ 8) 0 (omega arith) (omega arith)
    ∙ ap (λ a. bit_xor (c / 2 ^ 8) d * 2 ^ 8 + a) (bit_xor-zero (c % 2 ^ 8))
  where
    split : c ≡ c / 2 ^ 8 * 2 ^ 8 + c % 2 ^ 8
    split = omega arith

    plus_zero : d * 2 ^ 8 ≡ d * 2 ^ 8 + 0
    plus_zero = omega arith
