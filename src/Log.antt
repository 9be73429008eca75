-- ===== src/Log.antt =====
-- The log handler, src/logHandler.h and src/logHandler.cpp, over the storage that the EEPROM driver
-- gives. `mem` is the storage's state.
pub mod Frame
pub mod Slots
pub mod Push
pub mod Invariant
pub mod Handler
pub mod Credentials
mod Tests
use ventilation_system_proje.Common.{
  ℕ, zero, suc, ◌+◌, ◌-◌, ◌*◌, ◌/◌, ◌%◌, ◌^◌, List, [], ◌∷◌, Bool, true, false, Option, some, none,
  ◌>>=◌, u8, u16, u32, ◌>>>◌, ◌<<<◌, sub_u64, bit_and, bit_or, ◌==◌, ltb, leb, ◌&&◌, if◌then◌else◌,
  get_or, set, length,
}
use Prim.Native.String.{String}
use ventilation_system_proje.Crc.Ccitt.{crc16}

abbrev pub crc_len : ℕ
crc_len = 2

abbrev pub log_len : ℕ
log_len = 6

abbrev pub log_arr_len : ℕ
log_arr_len = log_len + crc_len

abbrev pub log_size : ℕ
log_size = 8

abbrev pub max_logs : ℕ
max_logs = 256

abbrev pub log_start_addr : ℕ
log_start_addr = 0

abbrev pub log_end_addr : ℕ
log_end_addr = log_start_addr + max_logs * log_size

abbrev pub reboot_status_start_addr : ℕ
reboot_status_start_addr = log_end_addr + log_size

abbrev pub reboot_status_end_addr : ℕ
reboot_status_end_addr = reboot_status_start_addr + max_logs * log_size

abbrev pub credentials_arr_size : ℕ
credentials_arr_size = 64

abbrev pub credentials_start_addr : ℕ
credentials_start_addr =
    reboot_status_end_addr + (credentials_arr_size - reboot_status_end_addr % credentials_arr_size)

abbrev pub credentials_use_addr : ℕ
credentials_use_addr = 4160

pub data LogType : Type 0 where
  msg_log reboot_status comm_config : LogType

-- `LogMessage` and `RebootStatusCodes` are numbered from 0, the places of their texts.
pub data LogMessage : Type 0 where
  test test2 : LogMessage

pub data RebootStatusCode : Type 0 where
  ok crash forced_reboot : RebootStatusCode

abbrev pub message_code : LogMessage → ℕ
message_code test = 0
message_code test2 = 1

abbrev pub status_code : RebootStatusCode → ℕ
status_code ok = 0
status_code crash = 1
status_code forced_reboot = 2

abbrev pub log_messages : List String
log_messages = "Test" ∷ "Test2" ∷ []

abbrev pub reboot_status_messages : List String
reboot_status_messages = "OK" ∷ "Crash" ∷ "Forced Reboot" ∷ []

-- The addresses of the handler, its boot time, and whether `setCommHandler` has set the pointer to
-- the communication handler.
pub record LogHandler : Type 0 where
  pub unused_log_addr : ℕ
  pub unused_reboot_status_addr : ℕ
  pub boot_timestamp : ℕ
  pub unused_comm_config_addr : ℕ
  pub current_comm_config_addr : ℕ
  pub has_comm_handler : Bool

-- `createLogArray`, into an array of six bytes: use status 1, code, and the time, high byte first.
unfoldable pub create_log_array : ℕ → ℕ → List ℕ
create_log_array code timestamp =
    1
    ∷ u8 code
    ∷ u8 (bit_and (timestamp >>> 24) 0xFF)
    ∷ u8 (bit_and (timestamp >>> 16) 0xFF)
    ∷ u8 (bit_and (timestamp >>> 8) 0xFF)
    ∷ u8 (bit_and timestamp 0xFF)
    ∷ []

-- A write of one element; outside the array it is undefined in C, and `none` here.
unfoldable pub store_at : ℕ → ℕ → List ℕ → Option (List ℕ)
store_at i v xs = if ltb i (length xs) then some (set xs i v) else none

-- `appendCrcToBase8Array`: the new array and length.
unfoldable pub append_crc : List ℕ → ℕ → Option (List ℕ × ℕ)
unfolding store_at
append_crc xs len = do
  crc ← crc16 xs len
  ys ← store_at len (u8 (crc >>> 8)) xs
  zs ← store_at (len + 1) (u8 (bit_and crc 0xFF)) ys
  some (zs, len + crc_len)

-- `getChecksum` and `verifyDataIntegrity`, less its trace.
unfoldable pub get_checksum : List ℕ → ℕ → Option ℕ
get_checksum xs len = crc16 xs len

unfoldable pub verify_data_integrity : List ℕ → ℕ → Option Bool
unfolding get_checksum
verify_data_integrity xs len = do sum ← get_checksum xs len; some (if sum == 0 then true else false)

-- `getTimestampSinceBoot`; `now` is `time_us_64()`.
unfoldable pub get_timestamp_since_boot : ℕ → ℕ → ℕ
get_timestamp_since_boot now boot_timestamp = u32 (sub_u64 now boot_timestamp / 1000000)
