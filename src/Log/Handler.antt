-- ===== src/Log/Handler.antt =====
-- The operations of `LogHandler` on the EEPROM, src/logHandler.cpp. Each returns the new handler
-- and storage; `none` is what C leaves undefined.
use Prim.Native.String
use Prim.Native.String.{String}
use ventilation_system_proje.Common.{
  ℕ, zero, suc, ◌+◌, ◌/◌, List, [], ◌∷◌, ◌++◌, false, Option, some, none, ◌>>=◌, u16, u32, ◌<<<◌,
  bit_or, ◌==◌, leb, if◌then◌else◌, get_or, replicate, read_n,
}
use ventilation_system_proje.Eeprom.Storage.{Storage}
use ventilation_system_proje.Log.{
  LogHandler, LogType, msg_log, reboot_status, comm_config, LogMessage, RebootStatusCode,
  message_code, status_code, log_messages, reboot_status_messages, crc_len, log_len, log_arr_len,
  log_size, max_logs, log_start_addr, log_end_addr, reboot_status_start_addr,
  reboot_status_end_addr, credentials_start_addr, credentials_use_addr, create_log_array,
  append_crc, verify_data_integrity, get_timestamp_since_boot,
}

-- An element of an array of texts; past its end it is undefined in C.
abbrev pub text_at : List String → ℕ → Option String
text_at [] i = none
text_at (x ∷ xs) zero = some x
text_at (x ∷ xs) (suc i) = text_at xs i

-- What is handed to `CommHandler::publish`.
pub data Topic : Type 0 where
  log_send status_send : Topic

pub record Publication : Type 0 where
  pub topic : Topic
  pub payload : String

abbrev pub log_publication : String → Publication
log_publication log = record {
  topic = log_send;
  payload = String.◌++◌ "\"{\"log\":\"" (String.◌++◌ log "\"}\"");
}

abbrev pub status_publication : String → Publication
status_publication log = record {
  topic = status_send;
  payload = String.◌++◌ "\"{\"devStatus\":\"" (String.◌++◌ log "\"}\"");
}

-- One line of `printValidLogs`.
pub record LogLine : Type 0 where
  pub address : ℕ
  pub text : String
  pub timestamp : ℕ

-- The time in an entry, in its four bytes from the third on.
unfoldable pub entry_timestamp : List ℕ → ℕ
entry_timestamp e = u32 (
    bit_or (bit_or (bit_or (get_or e 2 0 <<< 24) (get_or e 3 0 <<< 16)) (get_or e 4 0 <<< 8))
      (get_or e 5 0))

-- A slot of `printValidLogs`: no line for one that is not in use or does not verify.
unfoldable pub slot_line : List String → ℕ → List ℕ → Option (Option LogLine)
unfolding entry_timestamp
slot_line texts log_addr entry = do
  valid ← (if get_or entry 0 0 == 1 then verify_data_integrity entry log_arr_len else some false)
  (if valid
      then (do
        text ← text_at texts (get_or entry 1 0)
        some (some (record { address = log_addr; text = text; timestamp = entry_timestamp entry })))
      else some none)

module _ (s : Storage) where
  open s use {Mem}

  -- The loop that frees `n` slots from `logAddr` on.
  unfoldable pub clear_slots : ℕ → ℕ → Mem → Mem
  clear_slots zero log_addr mem = mem
  clear_slots (suc n) log_addr mem =
      clear_slots n (u16 (log_addr + log_size)) (s.write_byte log_addr 0 mem)

  unfoldable pub clear_all_logs : LogType → LogHandler → Mem → LogHandler × Mem
  clear_all_logs msg_log h mem =
      (record h { unused_log_addr = log_start_addr }, clear_slots max_logs log_start_addr mem)
  clear_all_logs reboot_status h mem = (
    record h { unused_reboot_status_addr = reboot_status_start_addr },
    clear_slots max_logs reboot_status_start_addr mem,
  )
  clear_all_logs comm_config h mem = (h, mem)

  unfoldable pub increment_unused_log_index : LogType → LogHandler → Mem → LogHandler × Mem
  unfolding clear_all_logs
  increment_unused_log_index msg_log h mem =
      let h' = record h { unused_log_addr = h.unused_log_addr + log_size } in
      if leb log_end_addr h'.unused_log_addr then clear_all_logs msg_log h' mem else (h', mem)
  increment_unused_log_index reboot_status h mem =
      let h' = record h { unused_reboot_status_addr = h.unused_reboot_status_addr + log_size } in
      if leb reboot_status_end_addr h'.unused_reboot_status_addr
      then clear_all_logs reboot_status h' mem
      else (h', mem)
  increment_unused_log_index comm_config h mem = (
    record h {
      unused_comm_config_addr = credentials_use_addr;
      current_comm_config_addr = credentials_start_addr;
    },
    mem,
  )

  -- The loop that looks for a slot that is not in use: its address, or `none` behind the last.
  unfoldable pub find_slot : ℕ → ℕ → Mem → Option ℕ × Mem
  find_slot zero log_addr mem = (none, mem)
  find_slot (suc n) log_addr mem =
      let (c, mem') = s.read_byte log_addr mem in
      let later = find_slot n (u16 (log_addr + log_size)) mem' in
      if c == 0 then (some log_addr, mem') else later

  -- The end of the search: the address of the slot that was found, or a cleared area.
  unfoldable pub use_slot : LogType → Option ℕ → LogHandler → Mem → LogHandler × Mem
  unfolding clear_all_logs
  use_slot msg_log (some a) h mem = (record h { unused_log_addr = a }, mem)
  use_slot msg_log none h mem =
      let (h', mem') = clear_all_logs msg_log h mem in
      (record h' { unused_log_addr = log_start_addr }, mem')
  use_slot reboot_status (some a) h mem = (record h { unused_reboot_status_addr = a }, mem)
  use_slot reboot_status none h mem =
      let (h', mem') = clear_all_logs reboot_status h mem in
      (record h' { unused_reboot_status_addr = reboot_status_start_addr }, mem')
  use_slot comm_config found h mem = (h, mem)

  unfoldable pub find_first_available_log : LogType → LogHandler → Mem → LogHandler × Mem
  unfolding use_slot
  find_first_available_log msg_log h mem =
      let (found, mem') = find_slot max_logs log_start_addr mem in use_slot msg_log found h mem'
  find_first_available_log reboot_status h mem =
      let (found, mem') = find_slot max_logs reboot_status_start_addr mem in
      use_slot reboot_status found h mem'
  find_first_available_log comm_config h mem = (
    record h {
      unused_comm_config_addr = credentials_use_addr;
      current_comm_config_addr = credentials_start_addr;
    },
    mem,
  )

  -- The constructor, in the memory `raw` of the object; `now_ms` is the time since boot.
  unfoldable pub construct : ℕ → LogHandler → Mem → LogHandler × Mem
  construct now_ms raw mem =
      let (h1, m1) =
        find_first_available_log msg_log (record raw { has_comm_handler = false }) mem in
      let (h2, m2) = find_first_available_log reboot_status h1 m1 in
      let (h3, m3) = find_first_available_log comm_config h2 m2 in
      (record h3 { boot_timestamp = u32 (now_ms / 1000) }, m3)

  -- The two bytes behind the copied array are not set before the checksum is put there.
  unfoldable pub enter_log_to_eeprom : List ℕ → ℕ → ℕ → Mem → Option Mem
  enter_log_to_eeprom base8_array array_len log_addr mem = do
    copied ← read_n array_len base8_array
    appended ← append_crc (copied ++ replicate crc_len 0) array_len
    s.write_page (u16 log_addr) appended.0 appended.1 mem

  -- The end of both pushes: publishing dereferences the pointer to the communication handler.
  abbrev pub publish : LogHandler → Publication → Option Publication
  publish h p = if h.has_comm_handler then some p else none

  -- `now` is `time_us_64()`.
  unfoldable pub push_log :
      LogMessage → ℕ → LogHandler → Mem → Option (LogHandler × Mem × Publication)
  unfolding enter_log_to_eeprom increment_unused_log_index
  push_log message now h mem = do
    let timestamp = get_timestamp_since_boot now h.boot_timestamp
    mem' ←
        enter_log_to_eeprom (create_log_array (message_code message) timestamp) log_len
          h.unused_log_addr mem
    let next = increment_unused_log_index msg_log h mem'
    log ← text_at log_messages (message_code message)
    sent ← publish next.0 (log_publication log)
    some (next.0, next.1, sent)

  unfoldable pub push_reboot_log :
      RebootStatusCode → ℕ → LogHandler → Mem → Option (LogHandler × Mem × Publication)
  unfolding enter_log_to_eeprom increment_unused_log_index
  push_reboot_log status now h mem = do
    let timestamp = get_timestamp_since_boot now h.boot_timestamp
    mem' ←
        enter_log_to_eeprom (create_log_array (status_code status) timestamp) log_len
          h.unused_reboot_status_addr mem
    let next = increment_unused_log_index reboot_status h mem'
    log ← text_at reboot_status_messages (status_code status)
    sent ← publish next.0 (status_publication log)
    some (next.0, next.1, sent)

  -- `printValidLogs`: the lines in the order in which they are printed.
  unfoldable pub print_slots : List String → ℕ → ℕ → Mem → Option (List LogLine × Mem)
  print_slots texts zero log_addr mem = some ([], mem)
  print_slots texts (suc n) log_addr mem =
      let (entry, mem') = s.read_page log_addr log_arr_len mem in
      let later = print_slots texts n (u16 (log_addr + log_size)) mem' in
      do
        line ← slot_line texts log_addr entry
        rest ← later
        some (elim line [ none ↦ rest.0 | some l ↦ l ∷ rest.0 ], rest.1)

  unfoldable pub print_valid_logs : LogType → Mem → Option (List LogLine × Mem)
  unfolding print_slots
  print_valid_logs msg_log mem = print_slots log_messages max_logs log_start_addr mem
  print_valid_logs reboot_status mem =
      print_slots reboot_status_messages max_logs reboot_status_start_addr mem
  print_valid_logs comm_config mem = some ([], mem)
