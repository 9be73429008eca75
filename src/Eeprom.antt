-- ===== src/Eeprom.antt =====
-- The EEPROM driver, src/eeprom.c. What it calls of the Pico SDK is the parameter `sdk`.
pub mod Chip
pub mod Storage
pub mod Model
mod Tests
use ventilation_system_proje.Common.{
  ℕ, ◌*◌, List, [], ◌∷◌, Bool, true, false, Option, some, none, ◌>>=◌, u8, u16, u64, ◌>>>◌, ◌==◌,
  ltb, if◌then◌else◌, get_or, read_n, ◌++◌,
}

-- The calls of the SDK. A time is a count of microseconds since boot. `time_diff_us` is the
-- difference as the unsigned number that it is compared as.
pub record Sdk : Type 1 where
  pub World : Type 0
  pub now : World → ℕ
  pub time_diff_us : ℕ → ℕ → ℕ
  pub delayed_by_us : ℕ → ℕ → ℕ
  pub sleep_until : ℕ → World → World
  pub gpio_i2c : ℕ → ℕ → World → World
  pub i2c_init : ℕ → ℕ → World → World
  pub i2c_write : ℕ → List ℕ → Bool → World → World
  pub i2c_read : ℕ → ℕ → World → List ℕ × World

-- The two static variables of the file, and the rest of the world.
pub record Driver (World : Type 0) : Type 0 where
  pub write_cycle_max : ℕ
  pub write_init_time : ℕ
  pub world : World

abbrev pub eeprom_address : ℕ
eeprom_address = 0x50

module _ (sdk : Sdk) where
  open sdk use {World, now, time_diff_us, delayed_by_us, sleep_until, i2c_write, i2c_read}

  unfoldable pub write_cycle_check : Driver World → Bool
  write_cycle_check s = ltb s.write_cycle_max (time_diff_us s.write_init_time (now s.world))

  unfoldable pub write_cycle_block : Driver World → Driver World
  unfolding write_cycle_check
  write_cycle_block s = if write_cycle_check s then s else record s {
    world = sleep_until (delayed_by_us s.write_init_time s.write_cycle_max) s.world;
  }

  -- `i2c` is the number of the bus, 0 or 1.
  unfoldable pub init_i2c : ℕ → ℕ → ℕ → Driver World → Driver World
  init_i2c i2c baud write_cycle_max_ms s =
      let sda_pin = if i2c == 0 then 16 else 19 in
      let scl_pin = if i2c == 0 then 17 else 20 in
      record {
        write_cycle_max = u64 (write_cycle_max_ms * 1000);
        write_init_time = 0;
        world = sdk.i2c_init i2c baud (sdk.gpio_i2c sda_pin scl_pin s.world);
      }

  unfoldable pub write_address : ℕ → Driver World → Driver World
  unfolding write_cycle_block
  write_address address s =
      let s' = write_cycle_block s in
      record s' {
        world = i2c_write eeprom_address (u8 (address >>> 8) ∷ u8 address ∷ []) true s'.world;
      }

  -- The end of both writes: wait, send, and note the time.
  unfoldable pub send : List ℕ → Driver World → Driver World
  unfolding write_cycle_block
  send out s =
      let s' = write_cycle_block s in
      let w = i2c_write eeprom_address out false s'.world in
      record s' { world = w; write_init_time = now w }

  unfoldable pub write_byte : ℕ → ℕ → Driver World → Driver World
  unfolding send
  write_byte address c s = send (u8 (address >>> 8) ∷ u8 address ∷ c ∷ []) s

  -- `size` bytes are copied from `src`; a read past its end is undefined in C, and `none` here.
  unfoldable pub write_page : ℕ → List ℕ → ℕ → Driver World → Option (Driver World)
  unfolding send
  write_page address src size s = do
    bytes ← read_n size src
    some (send (u8 (address >>> 8) ∷ u8 address ∷ bytes) s)

  unfoldable pub read_byte : ℕ → Driver World → ℕ × Driver World
  unfolding write_address
  read_byte address s =
      let s' = write_address address s in
      let (bytes, w) = i2c_read eeprom_address 1 s'.world in
      (get_or bytes 0 0, record s' { world = w })

  unfoldable pub read_page : ℕ → ℕ → Driver World → List ℕ × Driver World
  unfolding write_address
  read_page address size s =
      let s' = write_address address s in
      let (bytes, w) = i2c_read eeprom_address size s'.world in (bytes, record s' { world = w })
