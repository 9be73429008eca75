-- ===== src/Modbus/Answers.antt =====
-- How the register classes read an answer.
use ventilation_system_proje.Common.{
  ℕ, ◌+◌, ◌*◌, ◌^◌, ◌≤◌, ◌<◌, ◌≡◌, ◌≢◌, ◌↔◌, ap, ◌∙◌, List, ◌∷◌, ◌++◌, true, false, some, u8, u16,
  ◌>>>◌, ◌<<<◌, bit_or, length, All, arith,
}
use ventilation_system_proje.Common.Or.{bit_or_fields, bytes_u32}
use ventilation_system_proje.Crc.Fold.{IsByte}
use ventilation_system_proje.Crc.Modbus.{crc}
use ventilation_system_proje.Crc.Modbus.Laws.{crc_whole, crc_detects}
use ventilation_system_proje.Modbus.{ModbusRegister, get16, get32, read_is_ok, write_is_ok}
use ventilation_system_proje.Modbus.Frames.{two_words}

-- The test of a read passes exactly when the checksum over the received bytes is zero and their
-- number is not that of an error packet.
pub read_is_ok_iff :
    (r : ModbusRegister)
    → (read_is_ok r ≡ some true) ↔ ((crc r.rxbuf r.rx_len ≡ some 0) × (r.rx_len ≢ 5))
unfolding read_is_ok
read_is_ok_iff r = ground arith

-- The test of a write passes exactly when the checksum is zero and at least eight bytes came.
pub write_is_ok_iff :
    (r : ModbusRegister)
    → (write_is_ok r ≡ some true) ↔ ((crc r.rxbuf r.rx_len ≡ some 0) × (8 ≤ r.rx_len))
unfolding write_is_ok
write_is_ok_iff r = ground arith

abbrev pub received : List ℕ → ModbusRegister → ModbusRegister
received bytes r = record r { rxbuf = bytes; rx_len = length bytes }

-- No answer that passes the test passes it with one of its bytes changed.
pub read_is_ok_detects :
    (r : ModbusRegister) (xs ys : List ℕ) (d e : ℕ)
    → All IsByte xs
    → All IsByte ys
    → IsByte d
    → IsByte e
    → d ≢ e
    → read_is_ok (received (xs ++ (d ∷ ys)) r) ≡ some true
    → read_is_ok (received (xs ++ (e ∷ ys)) r) ≡ some false
unfolding read_is_ok
read_is_ok_detects r xs ys d e hx hy hd he ne ok = ground (
  arith,
  crc_detects xs ys d e hx hy hd he ne,
  crc_whole (xs ++ (d ∷ ys)),
  crc_whole (xs ++ (e ∷ ys)),
)

word : (hi lo : ℕ) → IsByte hi → IsByte lo → u16 (bit_or (u16 (hi <<< 8)) lo) ≡ hi * 2 ^ 8 + lo
word hi lo p q = ap (λ t. u16 (bit_or t lo)) small ∙ omega (arith, bit_or_fields 8 hi lo q)
  where
    small : u16 (hi <<< 8) ≡ hi * 2 ^ 8
    small = omega arith

-- The 16-bit value of an answer.
pub get16_answer :
    (r : ModbusRegister) (device function count hi lo : ℕ) (rest : List ℕ)
    → r.rxbuf ≡ device ∷ function ∷ count ∷ hi ∷ lo ∷ rest
    → IsByte hi
    → IsByte lo
    → get16 r ≡ hi * 2 ^ 8 + lo
unfolding get16
get16_answer r device function count hi lo rest e p q = rw e (word hi lo p q)

-- `get32` of an answer that carries the four data bytes with which `start_transfer(uint32_t)`
-- sends a 32-bit value is that value.
pub get32-two_words :
    (r : ModbusRegister) (device function value : ℕ) (rest : List ℕ)
    → r.rxbuf ≡ device ∷ function ∷ 4 ∷ two_words value ++ rest
    → value < 2 ^ 32
    → get32 r ≡ value
unfolding get32
get32-two_words r device function value rest e h = rw e (
    bytes_u32 (u8 (value >>> 8)) (u8 value) (u8 (value >>> 24)) (u8 (value >>> 16)) (omega arith)
      (omega arith) (omega arith) (omega arith)
    ∙ omega arith)
