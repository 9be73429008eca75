-- ===== src/Crc/Ccitt/Laws.antt =====
-- What `crc16` promises the code that stores its value behind the data: see src/logHandler.cpp.
use ventilation_system_proje.Common.{
  ℕ, zero, suc, ◌+◌, ◌*◌, ◌/◌, ◌%◌, ◌^◌, ◌≤◌, ◌≡◌, ◌≢◌, refl, sym, ap, ap₂, ◌∙◌, List, [], ◌∷◌,
  ◌++◌, some, of_some_eq, length, length-append, take, take-length, take-length-append, All,
  bit_xor, arith,
}
use ventilation_system_proje.Common.Xor.{bit_xor_self, bit_xor-zero}
use ventilation_system_proje.Crc.Shift.{IsWord}
use ventilation_system_proje.Crc.Fold.{IsByte, fold, fold-IsWord, fold-append, fold_detects}
use ventilation_system_proje.Crc.Ccitt.{crc16, crc16_loop, crc16_byte}
use ventilation_system_proje.Crc.Ccitt.Bitwise.{ccitt, folded, crc16_byte-folded}

crc16_loop-fold :
    (c : ℕ) (xs : List ℕ) (n : ℕ)
    → n ≤ length xs
    → crc16_loop c xs n ≡ some (fold ccitt c (take n xs))
unfolding crc16_loop fold
crc16_loop-fold c xs zero h = refl
crc16_loop-fold c [] (suc n) h = absurd (omega arith)
crc16_loop-fold c (x ∷ xs) (suc n) h = crc16_loop-fold (crc16_byte c x) xs n (omega arith)

pub crc16-fold :
    (xs : List ℕ) (n : ℕ) → n ≤ length xs → crc16 xs n ≡ some (fold ccitt 0xFFFF (take n xs))
unfolding crc16
crc16-fold xs n h = crc16_loop-fold 0xFFFF xs n h

-- The whole of a list.
pub crc16_whole : (xs : List ℕ) → crc16 xs (length xs) ≡ some (fold ccitt 0xFFFF xs)
crc16_whole xs =
    crc16-fold xs (length xs) (omega arith) ∙ ap (λ t. some (fold ccitt 0xFFFF t)) (take-length xs)

-- What lies behind the bytes that are read does not matter.
pub crc16_prefix : (xs ys : List ℕ) → crc16 (xs ++ ys) (length xs) ≡ crc16 xs (length xs)
crc16_prefix xs ys =
    crc16-fold (xs ++ ys) (length xs) (omega (arith, length-append xs ys))
    ∙ ap (λ t. some (fold ccitt 0xFFFF t)) (take-length-append xs ys)
    ∙ sym (crc16_whole xs)

-- The high byte of the register leaves only the low byte behind, shifted up.
feed_high : (c : ℕ) → IsWord c → crc16_byte c (c / 2 ^ 8) ≡ c % 2 ^ 8 * 2 ^ 8
feed_high c h =
    crc16_byte-folded c (c / 2 ^ 8) h (omega arith)
    ∙ ap (λ t. bit_xor (c % 2 ^ 8 * 2 ^ 8) (folded t)) (bit_xor_self (c / 2 ^ 8))
    ∙ bit_xor-zero (c % 2 ^ 8 * 2 ^ 8)

feed_low : (l : ℕ) → IsByte l → crc16_byte (l * 2 ^ 8) l ≡ 0
feed_low l h =
    crc16_byte-folded (l * 2 ^ 8) l (omega arith) h
    ∙ ap₂ (λ a b. bit_xor (a * 2 ^ 8) (folded (bit_xor b l))) low high
    ∙ ap (λ t. bit_xor 0 (folded t)) (bit_xor_self l)
  where
    low : l * 2 ^ 8 % 2 ^ 8 ≡ 0
    low = omega arith

    high : l * 2 ^ 8 / 2 ^ 8 ≡ l
    high = omega arith

-- The two bytes of the register, high byte first, bring it to zero.
fold_residue : (c : ℕ) → IsWord c → fold ccitt c ((c / 2 ^ 8) ∷ (c % 2 ^ 8) ∷ []) ≡ 0
unfolding fold
fold_residue c h =
    ap (λ t. crc16_byte t (c % 2 ^ 8)) (feed_high c h) ∙ feed_low (c % 2 ^ 8) (omega arith)

-- The checksum of any bytes, and of the same bytes with their checksum behind them.
pub crc16-append-crc16 :
    (xs : List ℕ)
    → All IsByte xs
    → (c : ℕ) × (crc16 xs (length xs) ≡ some c)
      × IsWord c
      × (crc16 (xs ++ (c / 2 ^ 8) ∷ (c % 2 ^ 8) ∷ []) (length xs + 2) ≡ some 0)
crc16-append-crc16 xs h = (
  fold ccitt 0xFFFF xs,
  crc16_whole xs,
  fold-IsWord ccitt 0xFFFF xs (omega arith) h,
  ap (crc16 (xs ++ tail)) (sym size)
      ∙ crc16_whole (xs ++ tail)
      ∙ ap some (
          fold-append ccitt 0xFFFF xs tail
          ∙ fold_residue (fold ccitt 0xFFFF xs) (fold-IsWord ccitt 0xFFFF xs (omega arith) h)),
)
  where
    tail : List ℕ
    tail = (fold ccitt 0xFFFF xs / 2 ^ 8) ∷ (fold ccitt 0xFFFF xs % 2 ^ 8) ∷ []

    size : length (xs ++ tail) ≡ length xs + 2
    size = length-append xs tail

-- Two messages of bytes that differ in exactly one byte have different values of `crc16`.
pub crc16_detects :
    (xs ys : List ℕ) (d e : ℕ)
    → All IsByte xs
    → All IsByte ys
    → IsByte d
    → IsByte e
    → d ≢ e
    → crc16 (xs ++ (d ∷ ys)) (length (xs ++ (d ∷ ys)))
      ≢ crc16 (xs ++ (e ∷ ys)) (length (xs ++ (e ∷ ys)))
crc16_detects xs ys d e hx hy hd he ne h = ne (
    fold_detects ccitt 0xFFFF xs ys d e (omega arith) hx hy hd he
      (of_some_eq (sym (crc16_whole (xs ++ (d ∷ ys))) ∙ h ∙ crc16_whole (xs ++ (e ∷ ys)))))
