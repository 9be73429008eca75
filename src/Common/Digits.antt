-- ===== src/Common/Digits.antt =====
-- The recursion by binary digits behind the bitwise operations, with fuel that is never short.
use Prim.Native.Nat.{ℕ, zero, suc, ◌+◌, ◌*◌, ◌/◌, ◌%◌, ◌^◌, ◌≤◌, ◌-◌, digits, bitwise}
use mathlib.Core.Path.{◌≡◌, refl, ap, ◌∙◌}
use native.Mathlib.Nat.{le_refl, pow-suc}
use native.Mathlib.Omega.{arith}

pub power_double : (k q : ℕ) → q * 2 ^ suc k ≡ q * 2 ^ k * 2
power_double k q = omega (arith, ap (λ (p : ℕ). q * p) (pow-suc 2 k))

module _ (z : ℕ → ℕ) (f : ℕ → ℕ → ℕ) where
  one_more : (n a b : ℕ) → a ≤ n → digits z f (suc n) a b ≡ digits z f n a b
  one_more zero zero b h = refl
  one_more zero (suc a) b h = absurd (omega arith)
  one_more (suc n) zero b h = refl
  one_more (suc n) (suc a) b h =
      ap (λ t. t * 2 + f (suc a % 2) (b % 2)) (one_more n (suc a / 2) (b / 2) (omega arith))

  extra : (k n a b : ℕ) → a ≤ n → digits z f (n + k) a b ≡ digits z f n a b
  extra zero n a b h =
      let none_more : n + 0 ≡ n = omega arith in ap (λ t. digits z f t a b) none_more
  extra (suc k) n a b h =
      let next : n + suc k ≡ suc (n + k) = omega arith in
      ap (λ t. digits z f t a b) next ∙ one_more (n + k) a b (omega arith) ∙ extra k n a b h

  -- One digit off both numbers.
  pub bitwise-halves :
      (a b : ℕ)
      → bitwise z f (suc a) b ≡ bitwise z f (suc a / 2) (b / 2) * 2 + f (suc a % 2) (b % 2)
  bitwise-halves a b =
      let h = suc a / 2 in
      let all : a ≡ h + (a - h) = omega arith in
      ap (λ t. t * 2 + f (suc a % 2) (b % 2))
        (ap (λ t. digits z f t h (b / 2)) all ∙ extra (a - h) h h (b / 2) (le_refl h))
