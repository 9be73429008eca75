-- ===== src/Crc/Ccitt.antt =====
-- `crc16` of src/logHandler.cpp. A byte is a number below 256.
pub mod Bitwise
pub mod Laws
use ventilation_system_proje.Common.{
  ℕ, zero, suc, List, [], ◌∷◌, Option, none, some, bit_xor, u8, u16, ◌<<<◌, ◌>>>◌,
}

-- The body of the loop: `x` is an 8-bit variable, and the shifts are those of `int`.
unfoldable pub crc16_byte : ℕ → ℕ → ℕ
crc16_byte crc d =
    let x = u8 (bit_xor (crc >>> 8) d) in
    let x' = u8 (bit_xor x (x >>> 4)) in
    u16 (bit_xor (bit_xor (bit_xor (crc <<< 8) (u16 (x' <<< 12))) (u16 (x' <<< 5))) (u16 x'))

-- The loop with `length` rounds left. A read past the end of the buffer is undefined in C, and
-- `none` here.
unfoldable pub crc16_loop : ℕ → List ℕ → ℕ → Option ℕ
crc16_loop crc xs zero = some crc
crc16_loop crc [] (suc n) = none
crc16_loop crc (x ∷ xs) (suc n) = crc16_loop (crc16_byte crc x) xs n

unfoldable pub crc16 : List ℕ → ℕ → Option ℕ
unfolding crc16_loop crc16_byte
crc16 xs length = crc16_loop 0xFFFF xs length
