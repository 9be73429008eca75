-- ===== src/Eeprom/Storage.antt =====
-- What the log handler may rely on in the EEPROM driver: a memory of cells behind the four calls.
use ventilation_system_proje.Common.{
  ℕ, ◌+◌, ◌%◌, ◌^◌, ◌≤◌, ◌<◌, ◌≡◌, List, Option, some, length, take, values, ◌==◌, if◌then◌else◌,
}
use ventilation_system_proje.Common.Cells.{overwritten}

-- A page write that stays inside a 64-byte page and inside the chip.
abbrev pub Fits : ℕ → ℕ → Type 0
Fits a n = (0 < n) × (a % 64 + n ≤ 64) × (a + n ≤ 2 ^ 15)

-- A read that stays inside the chip.
abbrev pub Within : ℕ → ℕ → Type 0
Within a n = (0 < n) × (a + n ≤ 2 ^ 15)

-- `IsReady` says that the driver waits long enough before its next transfer; `cell` is what the
-- chip holds, and `store` what a page write leaves.
pub record Storage : Type 1 where
  pub Mem : Type 0
  pub write_byte : ℕ → ℕ → Mem → Mem
  pub write_page : ℕ → List ℕ → ℕ → Mem → Option Mem
  pub read_byte : ℕ → Mem → ℕ × Mem
  pub read_page : ℕ → ℕ → Mem → List ℕ × Mem
  pub IsReady : Mem → Type 0
  pub cell : Mem → ℕ → ℕ
  pub store : ℕ → List ℕ → Mem → Mem
  pub write_byte-IsReady : (a c : ℕ) (m : Mem) → a < 2 ^ 15 → IsReady m → IsReady (write_byte a c m)
  pub cell-write_byte :
      (a c : ℕ) (m : Mem) (b : ℕ)
      → a < 2 ^ 15
      → IsReady m
      → cell (write_byte a c m) b ≡ (if b == a then c else cell m b)
  pub write_page-store :
      (a : ℕ) (src : List ℕ) (n : ℕ) (m : Mem)
      → n ≤ length src
      → write_page a src n m ≡ some (store a (take n src) m)
  pub store-IsReady :
      (a : ℕ) (bytes : List ℕ) (m : Mem)
      → Fits a (length bytes)
      → IsReady m
      → IsReady (store a bytes m)
  pub cell-store :
      (a : ℕ) (bytes : List ℕ) (m : Mem) (b : ℕ)
      → Fits a (length bytes)
      → IsReady m
      → cell (store a bytes m) b ≡ overwritten (cell m) a bytes b
  pub read_byte-IsReady : (a : ℕ) (m : Mem) → a < 2 ^ 15 → IsReady m → IsReady (read_byte a m).1
  pub cell-read_byte :
      (a : ℕ) (m : Mem) (b : ℕ) → a < 2 ^ 15 → IsReady m → cell (read_byte a m).1 b ≡ cell m b
  pub read_byte-cell : (a : ℕ) (m : Mem) → a < 2 ^ 15 → IsReady m → (read_byte a m).0 ≡ cell m a
  pub read_page-IsReady : (a n : ℕ) (m : Mem) → Within a n → IsReady m → IsReady (read_page a n m).1
  pub cell-read_page :
      (a n : ℕ) (m : Mem) (b : ℕ) → Within a n → IsReady m → cell (read_page a n m).1 b ≡ cell m b
  pub read_page-cell :
      (a n : ℕ) (m : Mem) → Within a n → IsReady m → (read_page a n m).0 ≡ values (cell m) a n
