-- ===== src/Modbus/Tests.antt =====
-- Runs of the register classes of src/modbus_handler, and the theorems at concrete frames.
use ventilation_system_proje.Common.{
  ℕ, ◌≡◌, refl, List, [], ◌∷◌, true, Option, some, none, replicate, arith,
}
use ventilation_system_proje.Crc.Modbus.{crc}
use ventilation_system_proje.Modbus.{
  ModbusRegister, read_register, write_register, write_u16, write_u32, frame,
}
use ventilation_system_proje.Modbus.Frames.{IsSealed, read_register-frame, write_u32-frame}

abbrev blank : ModbusRegister
blank = record {
  rxbuf = replicate 32 0xAA;
  rx_len = 0;
  payload = replicate 32 0xAA;
  payload_len = 0;
  number_of_registers = 0;
}

abbrev frame_of : Option ModbusRegister → List ℕ
frame_of none = []
frame_of (some r) = frame r

-- The request for the relative humidity of main.cpp: device 241, holding registers 0 and 1.
humidity_request :
    frame_of (read_register blank 241 0 2 true) ≡ 241 ∷ 3 ∷ 0 ∷ 0 ∷ 0 ∷ 2 ∷ 0xD0 ∷ 0xFB ∷ []
unfolding read_register crc
humidity_request = refl

-- A fan speed of 100.0 percent.
full_speed :
    frame_of (write_u16 1000 (write_register blank 1 0 1))
    ≡ 1 ∷ 16 ∷ 0 ∷ 0 ∷ 0 ∷ 1 ∷ 2 ∷ 3 ∷ 232 ∷ 0xA6 ∷ 0xEE ∷ []
unfolding write_u16 write_register crc
full_speed = refl

read_register-frame_example :
    (r : ModbusRegister) × (read_register blank 241 14 2 true ≡ some r)
    × IsSealed (241 ∷ 3 ∷ 0 ∷ 14 ∷ 0 ∷ 2 ∷ []) (frame r)
read_register-frame_example =
    read_register-frame blank 241 14 2 true refl (omega arith) (omega arith)

write_u32-frame_example :
    (r : ModbusRegister) × (write_u32 0x01020304 (write_register blank 1 0 2) ≡ some r)
    × IsSealed (1 ∷ 16 ∷ 0 ∷ 0 ∷ 0 ∷ 2 ∷ 4 ∷ 3 ∷ 4 ∷ 1 ∷ 2 ∷ []) (frame r)
write_u32-frame_example = write_u32-frame blank 1 0 2 0x01020304 refl (omega arith) (omega arith)
