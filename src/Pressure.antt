-- ===== src/Pressure.antt =====
-- `PressureRegister` of src/pressure_handler/pressure.h and pressure.cpp. The I2C calls of the
-- Pico SDK are the parameter `sdk`; `i2c_read_until` gives what the buffer of three bytes holds
-- after the call, the bytes of the device or, after a timeout, whatever was in it.
pub mod Bounds
mod Tests
use ventilation_system_proje.Common.{ℕ, List, [], ◌∷◌, get_or, u16, ◌<<<◌, bit_or}
use ventilation_system_proje.Common.Int.{ℤ, i16, ◌*ℤ◌, quot}

pub record I2c : Type 1 where
  pub World : Type 0
  pub i2c_write : ℕ → List ℕ → World → World
  pub i2c_read_until : ℕ → ℕ → ℕ → World → List ℕ × World

pub record PressureRegister : Type 0 where
  pub payload : ℕ
  pub devaddr : ℕ

abbrev pub read_diff_code : ℕ
read_diff_code = 0xF1

-- The conversion of the three bytes: a signed 16-bit number, high byte first, scaled.
unfoldable pub scaled : List ℕ → ℤ
scaled bytes =
    let value = i16 (bit_or (u16 (get_or bytes 0 0 <<< 8)) (get_or bytes 1 0)) in
    quot (value *ℤ 95) 24000

module _ (sdk : I2c) where
  open sdk use {World, i2c_write, i2c_read_until}

  unfoldable pub get : ℕ → PressureRegister → World → ℤ × World
  unfolding scaled
  get timeout_ms r w =
      let w1 = i2c_write r.devaddr (r.payload ∷ []) w in
      let (bytes, w2) = i2c_read_until r.devaddr 3 timeout_ms w1 in (scaled bytes, w2)

  -- The constructor throws one reading away.
  unfoldable pub pressure_register : ℕ → World → PressureRegister × World
  unfolding get
  pressure_register device_address w =
      let r : PressureRegister = record { payload = read_diff_code; devaddr = device_address } in
      (r, (get 500 r w).1)
