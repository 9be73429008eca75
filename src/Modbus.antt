-- ===== src/Modbus.antt =====
-- `MODBUSRegister`, `ReadRegister` and `WriteRegister` of src/modbus_handler/modbus_register.h and
-- modbus_register.cpp: the frames that they send, and how they read the answers. Modbus.Bus is
-- the controller that they hand the frames to.
pub mod Frames
pub mod Answers
pub mod Bus
mod Tests
use ventilation_system_proje.Common.{
  ℕ, ◌+◌, ◌*◌, ◌%◌, ◌^◌, List, Bool, true, false, not, Option, some, none, ◌>>=◌, bit_or, u8, u16,
  u32, ◌<<<◌, ◌>>>◌, ◌==◌, ltb, if◌then◌else◌, get_or, set, take,
}
use ventilation_system_proje.Crc.Modbus.{crc}

abbrev pub payload_max_len : ℕ
payload_max_len = 32

-- The fields of the three classes; both arrays hold `payload_max_len` bytes. The shared pointer to
-- the controller is left out.
pub record ModbusRegister : Type 0 where
  pub rxbuf : List ℕ
  pub rx_len : ℕ
  pub payload : List ℕ
  pub payload_len : ℕ
  pub number_of_registers : ℕ

abbrev pub func_read_holding_register : ℕ
func_read_holding_register = 0x3

abbrev pub func_read_input_registers : ℕ
func_read_input_registers = 0x4

abbrev pub func_write_multiple_registers : ℕ
func_write_multiple_registers = 0x10

abbrev pub payload_header_len : ℕ
payload_header_len = 6

abbrev pub read_expected_characters : ℕ
read_expected_characters = 5

abbrev pub write_expected_characters : ℕ
write_expected_characters = 8

abbrev pub error_packet_len : ℕ
error_packet_len = 5

-- A write into the payload; all of them are at fixed places inside the array.
abbrev pub put : ℕ → ℕ → ModbusRegister → ModbusRegister
put i v r = record r { payload = set r.payload i v }

-- The constructor of the base class. `raw` is the memory of the object, whose arrays the
-- constructor leaves as they are where it writes nothing.
abbrev pub modbus_register : ModbusRegister → ℕ → ℕ → ℕ → ModbusRegister
modbus_register raw device_address register_address number_of_registers =
    let r0 = record raw { number_of_registers = number_of_registers } in
    let r1 = put 0 device_address r0 in
    let r2 = put 2 (u8 (register_address >>> 8)) r1 in
    let r3 = put 3 (u8 register_address) r2 in
    let r4 = put 4 0 r3 in
    let r5 = put 5 number_of_registers r4 in record r5 { payload_len = payload_header_len }

-- The bytes that are sent: `payload_length()` of them from `payload_address()`.
abbrev pub frame : ModbusRegister → List ℕ
frame r = take r.payload_len r.payload

unfoldable pub read_register : ModbusRegister → ℕ → ℕ → ℕ → Bool → Option ModbusRegister
read_register raw device_address register_address number_of_registers holding =
    let r = modbus_register raw device_address register_address number_of_registers in
    let r1 = put 1 (if holding then func_read_holding_register else func_read_input_registers) r in
    do
      pl_crc ← crc r1.payload r1.payload_len
      let r2 = put 6 (u8 pl_crc) r1
      let r3 = put 7 (u8 (pl_crc >>> 8)) r2
      some (record r3 { payload_len = payload_header_len + 2 })

unfoldable pub write_register : ModbusRegister → ℕ → ℕ → ℕ → ModbusRegister
write_register raw device_address register_address number_of_registers =
    put 1 func_write_multiple_registers
      (modbus_register raw device_address register_address number_of_registers)

-- `WriteRegister::start_transfer(uint16_t)` up to the call of the controller.
unfoldable pub write_u16 : ℕ → ModbusRegister → Option ModbusRegister
write_u16 value r =
    let r1 = put 6 2 r in
    let r2 = put 7 (u8 (value >>> 8)) r1 in
    let r3 = put 8 (u8 value) r2 in
    let r4 = record r3 { payload_len = payload_header_len + 3 } in
    do
      pl_crc ← crc r4.payload r4.payload_len
      let r5 = put 9 (u8 pl_crc) r4
      let r6 = put 10 (u8 (pl_crc >>> 8)) r5
      some (record r6 { payload_len = u8 (r6.payload_len + 2) })

-- `payload[payload_len++] = v`.
abbrev pub push : ℕ → ModbusRegister → ModbusRegister
push v r = record r {
  payload = set r.payload r.payload_len v;
  payload_len = u8 (r.payload_len + 1);
}

-- `WriteRegister::start_transfer(uint32_t)` behind its test for one register.
unfoldable pub write_two_words : ℕ → ModbusRegister → Option ModbusRegister
write_two_words value r =
    let r1 = record (put 6 4 r) { payload_len = payload_header_len + 1 } in
    let r2 = push (u8 (value >>> 8)) r1 in
    let r3 = push (u8 value) r2 in
    let r4 = push (u8 (value >>> 24)) r3 in
    let r5 = push (u8 (value >>> 16)) r4 in
    do
      pl_crc ← crc r5.payload r5.payload_len
      let r6 = push (u8 pl_crc) r5
      let r7 = push (u8 (pl_crc >>> 8)) r6
      some r7

-- `WriteRegister::start_transfer(uint32_t)` up to the call of the controller.
unfoldable pub write_u32 : ℕ → ModbusRegister → Option ModbusRegister
unfolding write_u16 write_two_words
write_u32 value r =
    if r.number_of_registers == 1 then write_u16 (u16 value) r else write_two_words value r

-- The expected length of an answer, which `start` takes as an 8-bit number.
unfoldable pub read_rxlen : ModbusRegister → ℕ
read_rxlen r = u8 (read_expected_characters + 2 * r.number_of_registers)

unfoldable pub get16 : ModbusRegister → ℕ
get16 r = u16 (bit_or (u16 (get_or r.rxbuf 3 0 <<< 8)) (get_or r.rxbuf 4 0))

unfoldable pub get32 : ModbusRegister → ℕ
unfolding get16
get32 r =
    if get_or r.rxbuf 2 0 == 2
    then get16 r
    else u32 (
        bit_or
          (bit_or (bit_or (get_or r.rxbuf 5 0 <<< 24) (get_or r.rxbuf 6 0 <<< 16))
            (get_or r.rxbuf 3 0 <<< 8))
          (get_or r.rxbuf 4 0))

-- Both tests read `rx_len` bytes of the buffer.
unfoldable pub read_is_ok : ModbusRegister → Option Bool
read_is_ok r = do
  sum ← crc r.rxbuf r.rx_len
  some (if not (sum == 0) then false else if r.rx_len == error_packet_len then false else true)

unfoldable pub write_is_ok : ModbusRegister → Option Bool
write_is_ok r = do
  sum ← crc r.rxbuf r.rx_len
  some (
      if not (sum == 0)
      then false
      else if ltb r.rx_len write_expected_characters
      then false
      else true)

-- A float is the value that the compiler gives to a bit pattern: `get_float` and
-- `start_transfer(float)` pass the pattern through a union.
module _ {F : Type 0} (of_bits : ℕ → F) (to_bits : F → ℕ) where
  unfoldable pub get_float : ModbusRegister → F
  unfolding get32
  get_float r = of_bits (get32 r)

  unfoldable pub write_float : F → ModbusRegister → Option ModbusRegister
  unfolding write_u32
  write_float value r = write_u32 (to_bits value) r
