-- ===== src/Log/Frame.antt =====
-- What the arrays that the log handler builds hold, and that they can be read back.
use ventilation_system_proje.Common.{
  ℕ, zero, suc, ◌+◌, ◌/◌, ◌%◌, ◌^◌, bit_and, ◌≡◌, refl, sym, ap, ◌∙◌, true, some, List, [], ◌∷◌,
  ◌++◌, append_assoc, arith, lt→ltb, length, set, All, length-append, u8, ◌>>>◌,
}
use ventilation_system_proje.Common.Or.{bit_and_0xFF}
use ventilation_system_proje.Crc.Shift.{IsWord}
use ventilation_system_proje.Crc.Fold.{IsByte}
use ventilation_system_proje.Crc.Ccitt.{crc16}
use ventilation_system_proje.Crc.Ccitt.Laws.{crc16-append-crc16, crc16_prefix}
use ventilation_system_proje.Log.{create_log_array, store_at, append_crc, verify_data_integrity}

-- The array that carries `c` behind `xs`.
abbrev pub with_crc : List ℕ → ℕ → List ℕ
with_crc xs c = xs ++ (c / 2 ^ 8) ∷ (c % 2 ^ 8) ∷ []

set_behind :
    (xs : List ℕ) (v a : ℕ) (ys : List ℕ) → set (xs ++ (a ∷ ys)) (length xs) v ≡ xs ++ (v ∷ ys)
set_behind [] v a ys = refl
set_behind (x ∷ xs) v a ys = ap (λ t. x ∷ t) (set_behind xs v a ys)

set_next :
    (xs : List ℕ) (i v a b : ℕ) (ys : List ℕ)
    → i ≡ length xs + 1
    → set (xs ++ (a ∷ b ∷ ys)) i v ≡ xs ++ (a ∷ v ∷ ys)
set_next [] zero v a b ys e = absurd (omega arith)
set_next [] (suc zero) v a b ys e = refl
set_next [] (suc (suc i)) v a b ys e = absurd (omega arith)
set_next (x ∷ xs) zero v a b ys e = absurd (omega arith)
set_next (x ∷ xs) (suc i) v a b ys e = ap (λ t. x ∷ t) (set_next xs i v a b ys (omega arith))

store_at_behind :
    (xs : List ℕ) (v a : ℕ) (ys : List ℕ)
    → store_at (length xs) v (xs ++ (a ∷ ys)) ≡ some (xs ++ (v ∷ ys))
unfolding store_at
store_at_behind xs v a ys =
    rw (lt→ltb (length xs) (length (xs ++ (a ∷ ys))) (omega (arith, length-append xs (a ∷ ys))))
      (ap some (set_behind xs v a ys))

store_at_next :
    (xs : List ℕ) (v a b : ℕ) (ys : List ℕ)
    → store_at (length xs + 1) v (xs ++ (a ∷ b ∷ ys)) ≡ some (xs ++ (a ∷ v ∷ ys))
unfolding store_at
store_at_next xs v a b ys =
    rw
      (lt→ltb (length xs + 1) (length (xs ++ (a ∷ b ∷ ys)))
        (omega (arith, length-append xs (a ∷ b ∷ ys))))
      (ap some (set_next xs (length xs + 1) v a b ys refl))

-- What `xs` with its checksum and more behind it passes.
verifies-before :
    (xs : List ℕ) (c : ℕ) (page : List ℕ)
    → crc16 (with_crc xs c) (length xs + 2) ≡ some 0
    → verify_data_integrity (xs ++ (c / 2 ^ 8) ∷ (c % 2 ^ 8) ∷ page) (length xs + 2) ≡ some true
unfolding verify_data_integrity
verifies-before xs c page z =
    let size : length xs + 2 ≡ length (with_crc xs c) =
      omega (arith, length-append xs ((c / 2 ^ 8) ∷ (c % 2 ^ 8) ∷ [])) in
    let same =
      ap (λ t. crc16 t (length xs + 2))
        (sym (append_assoc xs ((c / 2 ^ 8) ∷ (c % 2 ^ 8) ∷ []) page))
      ∙ ap (crc16 (with_crc xs c ++ page)) size
      ∙ crc16_prefix (with_crc xs c) page
      ∙ ap (crc16 (with_crc xs c)) (sym size)
      ∙ z in
    rw (same) refl

-- On an array of bytes with two more elements behind them, `appendCrcToBase8Array` puts the
-- checksum of the bytes there, high byte first, and leaves what follows; the array then passes
-- `verifyDataIntegrity`, whatever comes behind the checksum.
pub append_crc_verifies :
    (xs : List ℕ) (a b : ℕ) (rest : List ℕ)
    → All IsByte xs
    → (c : ℕ) × (crc16 xs (length xs) ≡ some c)
      × (append_crc (xs ++ a ∷ b ∷ rest) (length xs)
          ≡ some (xs ++ (c / 2 ^ 8) ∷ (c % 2 ^ 8) ∷ rest, length xs + 2))
      × ((page : List ℕ)
          → verify_data_integrity (xs ++ (c / 2 ^ 8) ∷ (c % 2 ^ 8) ∷ page) (length xs + 2)
            ≡ some true)
unfolding append_crc
append_crc_verifies xs a b rest h =
    let (c, e, w, z) = crc16-append-crc16 xs h in
    (c, e, stored c w (crc16_prefix xs (a ∷ b ∷ rest) ∙ e), λ page. verifies-before xs c page z)
  where
    stored :
        (c : ℕ)
        → IsWord c
        → crc16 (xs ++ a ∷ b ∷ rest) (length xs) ≡ some c
        → append_crc (xs ++ a ∷ b ∷ rest) (length xs)
          ≡ some (xs ++ (c / 2 ^ 8) ∷ (c % 2 ^ 8) ∷ rest, length xs + 2)
    stored c w e =
        let high : u8 (c >>> 8) ≡ c / 2 ^ 8 = omega arith in
        let low : u8 (bit_and c 0xFF) ≡ c % 2 ^ 8 = omega (arith, bit_and_0xFF c) in
        rw
          (
            e,
            store_at_behind xs (u8 (c >>> 8)) a (b ∷ rest),
            store_at_next xs (u8 (bit_and c 0xFF)) (u8 (c >>> 8)) b rest,
          )
          (rw (high, low) refl)

-- The bytes of a log entry.
pub create_log_array-bytes :
    (code timestamp : ℕ)
    → create_log_array code timestamp
      ≡ 1
        ∷ code % 256
        ∷ timestamp / 2 ^ 24 % 256
        ∷ timestamp / 2 ^ 16 % 256
        ∷ timestamp / 2 ^ 8 % 256
        ∷ timestamp % 256
        ∷ []
unfolding create_log_array
create_log_array-bytes code timestamp =
    rw
      (
        byte (timestamp / 2 ^ 24),
        byte (timestamp / 2 ^ 16),
        byte (timestamp / 2 ^ 8),
        byte timestamp,
      )
      refl
  where
    byte : (n : ℕ) → u8 (bit_and n 0xFF) ≡ n % 256
    byte n = omega (arith, bit_and_0xFF n)

create_log_array-IsByte : (code timestamp : ℕ) → All IsByte (create_log_array code timestamp)
create_log_array-IsByte code timestamp = rw (create_log_array-bytes code timestamp) (omega arith)
