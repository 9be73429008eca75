-- ===== src/Crc/Modbus/Laws.antt =====
-- What `crc` promises the code that puts its value behind a frame: see src/modbus_handler/modbus_register.cpp.
use ventilation_system_proje.Common.{
  ℕ, zero, suc, ◌+◌, ◌/◌, ◌%◌, ◌^◌, ◌≤◌, ◌≡◌, ◌≢◌, refl, sym, ap, ◌∙◌, List, [], ◌∷◌, ◌++◌, some,
  of_some_eq, length, length-append, take, take-length, take-length-append, get_or, All, bit_xor,
  arith,
}
use ventilation_system_proje.Common.Xor.{bit_xor_self, bit_xor-zero}
use ventilation_system_proje.Crc.Shift.{IsWord}
use ventilation_system_proje.Crc.Fold.{IsByte, fold, fold-IsWord, fold-append, fold_detects}
use ventilation_system_proje.Crc.Modbus.{table, crc, crc_loop, crc_byte}
use ventilation_system_proje.Crc.Modbus.Bitwise.{modbus}

crc_loop-fold :
    (c : ℕ) (xs : List ℕ) (n : ℕ)
    → n ≤ length xs
    → crc_loop c xs n ≡ some (fold modbus c (take n xs))
unfolding crc_loop fold
crc_loop-fold c xs zero h = refl
crc_loop-fold c [] (suc n) h = absurd (omega arith)
crc_loop-fold c (x ∷ xs) (suc n) h = crc_loop-fold (crc_byte c x) xs n (omega arith)

pub crc-fold :
    (xs : List ℕ) (n : ℕ) → n ≤ length xs → crc xs n ≡ some (fold modbus 0xFFFF (take n xs))
unfolding crc
crc-fold xs n h = crc_loop-fold 0xFFFF xs n h

-- The whole of a list.
pub crc_whole : (xs : List ℕ) → crc xs (length xs) ≡ some (fold modbus 0xFFFF xs)
crc_whole xs =
    crc-fold xs (length xs) (omega arith) ∙ ap (λ t. some (fold modbus 0xFFFF t)) (take-length xs)

-- What lies behind the bytes that are read does not matter.
pub crc_prefix : (xs ys : List ℕ) → crc (xs ++ ys) (length xs) ≡ crc xs (length xs)
crc_prefix xs ys =
    crc-fold (xs ++ ys) (length xs) (omega (arith, length-append xs ys))
    ∙ ap (λ t. some (fold modbus 0xFFFF t)) (take-length-append xs ys)
    ∙ sym (crc_whole xs)

-- The low byte of the register leaves only the high byte behind.
feed_low : (c : ℕ) → crc_byte c (c % 2 ^ 8) ≡ c / 2 ^ 8
unfolding crc_byte
feed_low c =
    ap (λ t. bit_xor (c / 2 ^ 8) (get_or table t 0)) (bit_xor_self (c % 2 ^ 8))
    ∙ bit_xor-zero (c / 2 ^ 8)

feed_high : (h : ℕ) → IsByte h → crc_byte h h ≡ 0
feed_high h p = ap (crc_byte h) (sym small) ∙ feed_low h ∙ omega arith
  where
    small : h % 2 ^ 8 ≡ h
    small = omega arith

-- The two bytes of the register, low byte first, bring it to zero.
fold_residue : (c : ℕ) → IsWord c → fold modbus c ((c % 2 ^ 8) ∷ (c / 2 ^ 8) ∷ []) ≡ 0
unfolding fold
fold_residue c h =
    ap (λ t. crc_byte t (c / 2 ^ 8)) (feed_low c) ∙ feed_high (c / 2 ^ 8) (omega arith)

-- The MODBUS checksum of any bytes is a 16-bit number, and with it behind them, low byte first,
-- the checksum of the whole is zero.
pub crc-append-crc :
    (xs : List ℕ)
    → All IsByte xs
    → (c : ℕ) × (crc xs (length xs) ≡ some c)
      × IsWord c
      × (crc (xs ++ (c % 2 ^ 8) ∷ (c / 2 ^ 8) ∷ []) (length xs + 2) ≡ some 0)
crc-append-crc xs h = (
  fold modbus 0xFFFF xs,
  crc_whole xs,
  fold-IsWord modbus 0xFFFF xs (omega arith) h,
  ap (crc (xs ++ tail)) (sym size)
      ∙ crc_whole (xs ++ tail)
      ∙ ap some (
          fold-append modbus 0xFFFF xs tail
          ∙ fold_residue (fold modbus 0xFFFF xs) (fold-IsWord modbus 0xFFFF xs (omega arith) h)),
)
  where
    tail : List ℕ
    tail = (fold modbus 0xFFFF xs % 2 ^ 8) ∷ (fold modbus 0xFFFF xs / 2 ^ 8) ∷ []

    size : length (xs ++ tail) ≡ length xs + 2
    size = length-append xs tail

-- Two messages that differ in one byte have different checksums.
pub crc_detects :
    (xs ys : List ℕ) (d e : ℕ)
    → All IsByte xs
    → All IsByte ys
    → IsByte d
    → IsByte e
    → d ≢ e
    → crc (xs ++ (d ∷ ys)) (length (xs ++ (d ∷ ys)))
      ≢ crc (xs ++ (e ∷ ys)) (length (xs ++ (e ∷ ys)))
crc_detects xs ys d e hx hy hd he ne h = ne (
    fold_detects modbus 0xFFFF xs ys d e (omega arith) hx hy hd he
      (of_some_eq (sym (crc_whole (xs ++ (d ∷ ys))) ∙ h ∙ crc_whole (xs ++ (e ∷ ys)))))
