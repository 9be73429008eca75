-- ===== src/Crc/Shift.antt =====
-- A shift register over 16-bit words that respects exclusive or. The bitwise checksums are such
-- registers: a byte is added in, and the register steps eight times.
use ventilation_system_proje.Common.{
  ℕ, zero, suc, ◌^◌, ◌<◌, ◌≡◌, refl, sym, ap, ◌∙◌, Bool, true, if◌then◌else◌, false, ◌==◌, ==_iff,
  bit_xor, arith,
}
use ventilation_system_proje.Common.Xor.{
  bit_xor_assoc, bit_xor_comm, bit_xor_self, bit_xor-zero, bit_xor-lt,
}

abbrev pub IsWord : ℕ → Type 0
IsWord c = c < 2 ^ 16

pub record Register : Type 0 where
  pub step : ℕ → ℕ
  pub step-IsWord : (c : ℕ) → IsWord c → IsWord (step c)
  pub linear : (a b : ℕ) → IsWord a → IsWord b → step (bit_xor a b) ≡ bit_xor (step a) (step b)
  pub only_zero : (c : ℕ) → IsWord c → step c ≡ 0 → c ≡ 0

-- (a ^ b) ^ (c ^ d) regrouped.
pub bit_xor_swap :
    (a b c d : ℕ) → bit_xor (bit_xor a b) (bit_xor c d) ≡ bit_xor (bit_xor a c) (bit_xor b d)
bit_xor_swap a b c d =
    bit_xor_assoc a b (bit_xor c d)
    ∙ ap (bit_xor a)
        (sym (bit_xor_assoc b c d) ∙ ap (λ t. bit_xor t d) (bit_xor_comm b c) ∙ bit_xor_assoc c b d)
    ∙ sym (bit_xor_assoc a c (bit_xor b d))

pub bit_xor-eq_zero : (a b : ℕ) → bit_xor a b ≡ 0 → a ≡ b
bit_xor-eq_zero a b h =
    sym (bit_xor-zero a)
    ∙ ap (bit_xor a) (sym (bit_xor_self b))
    ∙ sym (bit_xor_assoc a b b)
    ∙ ap (λ t. bit_xor t b) h
    ∙ bit_xor_comm 0 b
    ∙ bit_xor-zero b

-- Exclusive or with a fixed word takes nothing away.
pub bit_xor_cancel : (a b c : ℕ) → bit_xor (bit_xor a c) (bit_xor b c) ≡ bit_xor a b
bit_xor_cancel a b c =
    bit_xor_swap a c b c ∙ ap (bit_xor (bit_xor a b)) (bit_xor_self c) ∙ bit_xor-zero (bit_xor a b)

-- Over a small range, check every value by evaluation.
unfoldable pub holds_below : (ℕ → Bool) → ℕ → Bool
holds_below test zero = true
holds_below test (suc n) = if test n then holds_below test n else false

pub holds_below-at : (test : ℕ → Bool) (n x : ℕ) → x < n → holds_below test n ≡ true → test x ≡ true
unfolding holds_below
holds_below-at test zero x lt e = absurd (omega arith)
holds_below-at test (suc n) x lt e = ground (arith, holds_below-at test n x)

pub all_below_eq :
    (n : ℕ) (f g : ℕ → ℕ) (x : ℕ) → holds_below (λ y. f y == g y) n ≡ true → x < n → f x ≡ g x
all_below_eq n f g x h lt = (==_iff (f x) (g x)).0 (holds_below-at (λ y. f y == g y) n x lt h)

module _ (r : Register) where
  unfoldable pub steps : ℕ → ℕ → ℕ
  steps zero c = c
  steps (suc n) c = steps n (r.step c)

  pub steps-IsWord : (n c : ℕ) → IsWord c → IsWord (steps n c)
  unfolding steps
  steps-IsWord zero c h = h
  steps-IsWord (suc n) c h = steps-IsWord n (r.step c) (r.step-IsWord c h)

  pub steps_linear :
      (n a b : ℕ) → IsWord a → IsWord b → steps n (bit_xor a b) ≡ bit_xor (steps n a) (steps n b)
  unfolding steps
  steps_linear zero a b p q = refl
  steps_linear (suc n) a b p q =
      ap (steps n) (r.linear a b p q)
      ∙ steps_linear n (r.step a) (r.step b) (r.step-IsWord a p) (r.step-IsWord b q)

  pub steps_only_zero : (n c : ℕ) → IsWord c → steps n c ≡ 0 → c ≡ 0
  unfolding steps
  steps_only_zero zero c h e = e
  steps_only_zero (suc n) c h e =
      r.only_zero c h (steps_only_zero n (r.step c) (r.step-IsWord c h) e)

  -- The register never maps two words to one.
  pub steps_injective : (n a b : ℕ) → IsWord a → IsWord b → steps n a ≡ steps n b → a ≡ b
  steps_injective n a b p q e = bit_xor-eq_zero a b (
      steps_only_zero n (bit_xor a b) (bit_xor-lt 16 a b p q)
        (steps_linear n a b p q ∙ ap (λ t. bit_xor t (steps n b)) e ∙ bit_xor_self (steps n b)))
