-- ===== src/Crc/Fold.antt =====
-- What the bitwise form of a checksum gives, whichever of the two it is: the value is a word, and
-- no change of a single byte goes unnoticed.
use ventilation_system_proje.Common.{
  ℕ, ◌^◌, ◌<◌, ◌≡◌, sym, ap, ◌∙◌, List, [], ◌∷◌, ◌++◌, bit_xor, All,
}
use ventilation_system_proje.Common.Xor.{bit_xor_comm, bit_xor-lt}
use ventilation_system_proje.Crc.Shift.{
  Register, IsWord, steps, steps-IsWord, steps_injective, bit_xor_cancel, bit_xor-eq_zero,
}
use ventilation_system_proje.Common.Xor.{bit_xor_self}

abbrev pub IsByte : ℕ → Type 0
IsByte d = d < 2 ^ 8

-- `update` is the loop body of a checksum: it adds the byte to the word at its `place`, and steps
-- the register eight times.
pub record ByteCrc : Type 0 where
  pub update : ℕ → ℕ → ℕ
  pub register : Register
  pub place : ℕ → ℕ
  pub place-IsWord : (d : ℕ) → IsByte d → IsWord (place d)
  pub place_injective : (d e : ℕ) → IsByte d → IsByte e → place d ≡ place e → d ≡ e
  pub update_lem :
      (c d : ℕ) → IsWord c → IsByte d → update c d ≡ steps register 8 (bit_xor c (place d))

module _ (crc : ByteCrc) where
  unfoldable pub fold : ℕ → List ℕ → ℕ
  fold c [] = c
  fold c (x ∷ xs) = fold (crc.update c x) xs

  pub update-IsWord : (c d : ℕ) → IsWord c → IsByte d → IsWord (crc.update c d)
  update-IsWord c d p q = subst_word (sym (crc.update_lem c d p q)) (
      steps-IsWord crc.register 8 (bit_xor c (crc.place d))
        (bit_xor-lt 16 c (crc.place d) p (crc.place-IsWord d q)))
    where
      subst_word : {a b : ℕ} → a ≡ b → IsWord a → IsWord b
      subst_word e h = rw e at h

  cancel_left : (c a b : ℕ) → bit_xor c a ≡ bit_xor c b → a ≡ b
  cancel_left c a b e = bit_xor-eq_zero a b (
      sym (bit_xor_cancel a b c)
      ∙ ap (λ t. bit_xor t (bit_xor b c)) (bit_xor_comm a c ∙ e ∙ bit_xor_comm c b)
      ∙ bit_xor_self (bit_xor b c))

  sums_equal :
      (c d c' d' : ℕ)
      → IsWord c
      → IsByte d
      → IsWord c'
      → IsByte d'
      → crc.update c d ≡ crc.update c' d'
      → bit_xor c (crc.place d) ≡ bit_xor c' (crc.place d')
  sums_equal c d c' d' p q p' q' e =
      steps_injective crc.register 8 (bit_xor c (crc.place d)) (bit_xor c' (crc.place d'))
        (bit_xor-lt 16 c (crc.place d) p (crc.place-IsWord d q))
        (bit_xor-lt 16 c' (crc.place d') p' (crc.place-IsWord d' q'))
        (sym (crc.update_lem c d p q) ∙ e ∙ crc.update_lem c' d' p' q')

  pub state_injective :
      (c c' d : ℕ) → IsWord c → IsWord c' → IsByte d → crc.update c d ≡ crc.update c' d → c ≡ c'
  state_injective c c' d p p' q e = cancel_left (crc.place d) c c' (
      bit_xor_comm (crc.place d) c ∙ sums_equal c d c' d p q p' q e ∙ bit_xor_comm c' (crc.place d))

  pub byte_injective :
      (c d e : ℕ) → IsWord c → IsByte d → IsByte e → crc.update c d ≡ crc.update c e → d ≡ e
  byte_injective c d e p q r h =
      crc.place_injective d e q r
        (cancel_left c (crc.place d) (crc.place e) (sums_equal c d c e p q p r h))

  pub fold-IsWord : (c : ℕ) (xs : List ℕ) → IsWord c → All IsByte xs → IsWord (fold c xs)
  unfolding fold
  fold-IsWord c [] p h = p
  fold-IsWord c (x ∷ xs) p h = fold-IsWord (crc.update c x) xs (update-IsWord c x p h.0) h.1

  pub fold_injective :
      (c c' : ℕ) (xs : List ℕ)
      → IsWord c
      → IsWord c'
      → All IsByte xs
      → fold c xs ≡ fold c' xs
      → c ≡ c'
  unfolding fold
  fold_injective c c' [] p q h e = e
  fold_injective c c' (x ∷ xs) p q h e = state_injective c c' x p q h.0 (
      fold_injective (crc.update c x) (crc.update c' x) xs (update-IsWord c x p h.0)
        (update-IsWord c' x q h.0) h.1 e)

  pub fold-append : (c : ℕ) (xs ys : List ℕ) → fold c (xs ++ ys) ≡ fold (fold c xs) ys
  unfolding fold
  fold-append c [] ys = λ _. fold c ys
  fold-append c (x ∷ xs) ys = fold-append (crc.update c x) xs ys

  -- Two messages that differ in one byte at most, and have one checksum, are equal.
  pub fold_detects :
      (c : ℕ) (xs ys : List ℕ) (d e : ℕ)
      → IsWord c
      → All IsByte xs
      → All IsByte ys
      → IsByte d
      → IsByte e
      → fold c (xs ++ (d ∷ ys)) ≡ fold c (xs ++ (e ∷ ys))
      → d ≡ e
  unfolding fold
  fold_detects c xs ys d e p hx hy hd he h =
      let mid = fold-IsWord c xs p hx in
      byte_injective (fold c xs) d e mid hd he (
        fold_injective (crc.update (fold c xs) d) (crc.update (fold c xs) e) ys
          (update-IsWord (fold c xs) d mid hd) (update-IsWord (fold c xs) e mid he) hy
          (sym (fold-append c xs (d ∷ ys)) ∙ h ∙ fold-append c xs (e ∷ ys)))
