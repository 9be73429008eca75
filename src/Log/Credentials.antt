-- ===== src/Log/Credentials.antt =====
-- The stored credentials of src/logHandler.cpp: `createCredentialArray`, `storeCredentials` and
-- `fetchCredentials`. A text is its bytes without the terminating zero.
pub mod Field
use ventilation_system_proje.Common.{
  ◌>>=◌, ℕ, zero, suc, ◌+◌, ◌-◌, ◌*◌, ◌/◌, ◌%◌, Bool, true, false, ◌||◌, Option, none, some, List,
  [], ◌∷◌, ◌++◌, ltb, leb, if◌then◌else◌, length, get_or, take, drop, read_n, u8, u16,
}
use ventilation_system_proje.Common.Int.{ℤ, pos, negsuc}
use ventilation_system_proje.Eeprom.Storage.{Storage}
use ventilation_system_proje.Log.{
  LogHandler, comm_config, credentials_arr_size, append_crc, verify_data_integrity,
}
use ventilation_system_proje.Log.Handler.{increment_unused_log_index}

-- `memcpy` into an array; past its end it is undefined in C, and `none` here.
unfoldable pub copy_at : ℕ → List ℕ → List ℕ → Option (List ℕ)
copy_at i xs arr =
    if leb (i + length xs) (length arr)
    then some (take i arr ++ xs ++ drop (i + length xs) arr)
    else none

-- The new array and the length, or -1 for a text that is too long.
unfoldable pub create_credential_array : List ℕ → List ℕ → Option (List ℕ × ℤ)
unfolding copy_at
create_credential_array str arr =
    let len = length str in
    if ltb 60 len then some (arr, negsuc 0) else (do
      headed ← copy_at 0 (1 ∷ u8 (len + 5) ∷ []) arr
      copied ← copy_at 2 (str ++ 0 ∷ []) headed
      some (copied, pos (len + 3)))

-- What `sprintf` prints for `%d`; a number has at most as many digits as its fuel.
abbrev pub decimal_digits : ℕ → ℕ → List ℕ
decimal_digits zero n = []
decimal_digits (suc fuel) n =
    let front = decimal_digits fuel (n / 10) in
    if ltb n 10 then (48 + n) ∷ [] else front ++ (48 + n % 10) ∷ []

abbrev pub decimal : ℤ → List ℕ
decimal (pos n) = decimal_digits 10 n
decimal (negsuc n) = 45 ∷ decimal_digits 10 (suc n)

-- One array of `storeCredentials`, with or without its checksum; the length is that of a text that
-- is not too long.
unfoldable pub credential : Bool → List ℕ → List ℕ → Option (List ℕ × ℕ)
unfolding create_credential_array
credential sum str raw = do
  made ← create_credential_array str raw
  len ← (elim made.1 [ pos n ↦ some n | negsuc n ↦ none ])
  (if sum then append_crc made.0 len else some (made.0, len))

-- `fetchCredentials` for one of the first three arrays: nothing if it does not verify, and
-- otherwise the bytes that are copied to the caller.
unfoldable pub fetched : List ℕ → Option (Option (List ℕ))
fetched arr = do
  valid ← verify_data_integrity arr (get_or arr 1 0)
  let bytes = read_n (get_or arr 1 0 - 4) (drop 2 arr)
  (if valid then (do copied ← bytes; some (some copied)) else some none)

-- The port's array: one byte more is copied, into an array of ten; `stoi` is the value of what is
-- copied, `none` where it throws.
unfoldable pub fetched_port : (List ℕ → Option ℤ) → List ℕ → Option (Option ℤ)
fetched_port stoi arr = do
  valid ← verify_data_integrity arr (get_or arr 1 0)
  let size = get_or arr 1 0 - 3
  (if valid
      then (if ltb (get_or arr 1 0) 3 || ltb 10 size
          then none
          else (do copied ← read_n size (drop 2 arr); port ← stoi copied; some (some port)))
      else some none)

module _ (s : Storage) where
  open s use {Mem}

  abbrev pub write_credential : ℕ → ℕ → List ℕ × ℕ → Mem → Option Mem
  write_credential base i c mem = s.write_page (u16 (base + credentials_arr_size * i)) c.0 c.1 mem

  -- `raw` is what the four arrays hold before. The checksum of the first is not appended, and the
  -- port's text has room for nine characters.
  unfoldable pub store_credentials :
      List ℕ → List ℕ → List ℕ → ℤ → List ℕ → LogHandler → Mem → Option (LogHandler × Mem)
  unfolding credential increment_unused_log_index
  store_credentials ssid password hostname port raw h mem =
      let port_str = decimal port in
      if (ltb 60 (length ssid) || ltb 60 (length password)) || ltb 60 (length hostname)
      then some (h, mem)
      else if ltb 9 (length port_str)
      then none
      else (do
        ssid_arr ← credential false ssid raw
        password_arr ← credential true password raw
        hostname_arr ← credential true hostname raw
        port_arr ← credential true port_str raw
        m1 ← write_credential h.unused_comm_config_addr 0 ssid_arr mem
        m2 ← write_credential h.unused_comm_config_addr 1 password_arr m1
        m3 ← write_credential h.unused_comm_config_addr 2 hostname_arr m2
        m4 ← write_credential h.unused_comm_config_addr 3 port_arr m3
        some (increment_unused_log_index s comm_config h m4))

  -- The three texts and the port, each if its array verifies.
  unfoldable pub fetch_credentials :
      (List ℕ → Option ℤ)
      → LogHandler
      → Mem
      → Option ((Option (List ℕ) × Option (List ℕ) × Option (List ℕ) × Option ℤ) × Mem)
  unfolding fetched fetched_port
  fetch_credentials stoi h mem =
      let base = h.current_comm_config_addr in
      let (ssid_arr, m1) = s.read_page (u16 base) credentials_arr_size mem in
      let (password_arr, m2) = s.read_page (u16 (base + 64)) credentials_arr_size m1 in
      let (hostname_arr, m3) = s.read_page (u16 (base + 128)) credentials_arr_size m2 in
      let (port_arr, m4) = s.read_page (u16 (base + 192)) credentials_arr_size m3 in
      do
        ssid ← fetched ssid_arr
        password ← fetched password_arr
        hostname ← fetched hostname_arr
        port ← fetched_port stoi port_arr
        some ((ssid, password, hostname, port), m4)
