-- ===== src/Crc/Tests.antt =====
-- Runs of the two checksums, and the theorems at concrete messages.
use ventilation_system_proje.Common.{ℕ, ◌*◌, ◌^◌, ◌≡◌, refl, List, [], ◌∷◌, some, bit_xor, arith}
use ventilation_system_proje.Crc.Shift.{steps}
use ventilation_system_proje.Crc.Modbus.{crc, crc_byte}
use ventilation_system_proje.Crc.Modbus.Bitwise.{lsb, crc_byte-eq-steps}
use ventilation_system_proje.Crc.Ccitt.{crc16, crc16_byte}
use ventilation_system_proje.Crc.Ccitt.Bitwise.{msb, crc16_byte-eq-steps}

-- The check value of CRC-16/CCITT-FALSE over the text 123456789, and of CRC-16/MODBUS.
abbrev nine_digits : List ℕ
nine_digits = 49 ∷ 50 ∷ 51 ∷ 52 ∷ 53 ∷ 54 ∷ 55 ∷ 56 ∷ 57 ∷ []

crc16_check : crc16 nine_digits 9 ≡ some 0x29B1
unfolding crc16
crc16_check = refl

crc_check : crc nine_digits 9 ≡ some 0x4B37
unfolding crc
crc_check = refl

crc_byte-eq-steps_example : crc_byte 0x1234 0x56 ≡ steps lsb 8 (bit_xor 0x1234 0x56)
crc_byte-eq-steps_example = crc_byte-eq-steps 0x1234 0x56 (omega arith) (omega arith)

crc16_byte-eq-steps_example : crc16_byte 0x1234 0x56 ≡ steps msb 8 (bit_xor 0x1234 (0x56 * 2 ^ 8))
crc16_byte-eq-steps_example = crc16_byte-eq-steps 0x1234 0x56 (omega arith) (omega arith)
