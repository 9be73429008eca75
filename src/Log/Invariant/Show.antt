-- ===== src/Log/Invariant/Show.antt =====
-- What `printValidLogs` shows of an entry that was pushed: its text and its time.
use Prim.Native.String.{String}
use ventilation_system_proje.Common.{
  true, Option, ℕ, suc, ◌+◌, ◌/◌, ◌%◌, ◌^◌, ◌<◌, ◌≡◌, refl, sym, ap, ◌∙◌, List, [], ◌∷◌, some,
  arith, values,
}
use ventilation_system_proje.Common.Or.{bytes_u32}
use ventilation_system_proje.Common.Cells.{overwritten, values-same, values-overwritten_from}
use ventilation_system_proje.Eeprom.Storage.{Storage}
use ventilation_system_proje.Log.{
  LogHandler, LogMessage, test, test2, RebootStatusCode, ok, crash, forced_reboot, message_code,
  status_code, log_messages, reboot_status_messages, get_timestamp_since_boot, create_log_array,
  verify_data_integrity,
}
use ventilation_system_proje.Log.Frame.{with_crc, create_log_array-bytes}
use ventilation_system_proje.Log.Handler.{
  log_publication, status_publication, text_at, slot_line, entry_timestamp, Publication, push_log,
  push_reboot_log,
}
use ventilation_system_proje.Log.Slots.{slot}
use ventilation_system_proje.Log.Push.{IsEntry}
use ventilation_system_proje.Log.Invariant.Area.{Pushed}
use ventilation_system_proje.Log.Invariant.{IsValid, log_base, reboot_base}
use ventilation_system_proje.Log.Invariant.Message.{log_text, log_text_at, push_log_lem}
use ventilation_system_proje.Log.Invariant.Reboot.{reboot_text, reboot_text_at, push_reboot_log_lem}

values-overwritten :
    (f : ℕ → ℕ) (a : ℕ) (b0 b1 b2 b3 b4 b5 b6 b7 : ℕ)
    → values (overwritten f a (b0 ∷ b1 ∷ b2 ∷ b3 ∷ b4 ∷ b5 ∷ b6 ∷ b7 ∷ [])) a 8
      ≡ b0 ∷ b1 ∷ b2 ∷ b3 ∷ b4 ∷ b5 ∷ b6 ∷ b7 ∷ []
values-overwritten f a b0 b1 b2 b3 b4 b5 b6 b7 =
    let all = b0 ∷ b1 ∷ b2 ∷ b3 ∷ b4 ∷ b5 ∷ b6 ∷ b7 ∷ [] in
    let start : a ≡ a + 0 = omega arith in
    ap (λ t. values (overwritten f a all) t 8) start
    ∙ values-overwritten_from f a all 0 8 (omega arith)

-- The four bytes of a time.
time_bytes :
    (code t c : ℕ)
    → t < 2 ^ 32
    → entry_timestamp (
        1
        ∷ code % 256
        ∷ t / 2 ^ 24 % 256
        ∷ t / 2 ^ 16 % 256
        ∷ t / 2 ^ 8 % 256
        ∷ t % 256
        ∷ c / 2 ^ 8
        ∷ c % 2 ^ 8
        ∷ [])
      ≡ t
unfolding entry_timestamp
time_bytes code t c h =
    bytes_u32 (t / 2 ^ 8 % 256) (t % 256) (t / 2 ^ 24 % 256) (t / 2 ^ 16 % 256) (omega arith)
      (omega arith) (omega arith) (omega arith)
    ∙ omega arith

-- The line of a slot that holds a verified entry.
slot_line-entry :
    (texts : List String) (text : String) (a code t : ℕ) (entry : List ℕ)
    → code < 256
    → t < 2 ^ 32
    → text_at texts code ≡ some text
    → IsEntry (create_log_array code t) entry
    → slot_line texts a entry ≡ some (some (record { address = a; text = text; timestamp = t }))
unfolding slot_line
slot_line-entry texts text a code t entry hc ht e is =
    let byte : code % 256 ≡ code = omega arith in
    let same = is.sealed ∙ ap (λ xs. with_crc xs is.crc) (create_log_array-bytes code t) in
    let ok = sym (ap (λ xs. verify_data_integrity xs 8) same) ∙ is.verifies in
    rw (same) (rw (ok, time_bytes code t is.crc ht, byte, e) refl)

message_code_lt : (message : LogMessage) → message_code message < 256
message_code_lt test = omega arith
message_code_lt test2 = omega arith

status_code_lt : (status : RebootStatusCode) → status_code status < 256
status_code_lt ok = omega arith
status_code_lt crash = omega arith
status_code_lt forced_reboot = omega arith

get_timestamp_lt : (now boot : ℕ) → get_timestamp_since_boot now boot < 2 ^ 32
unfolding get_timestamp_since_boot
get_timestamp_lt now boot = omega arith

module _ (s : Storage) where
  slot_line-Pushed :
      {base k code t : ℕ} {entry : List ℕ} {m m' : s.Mem} (texts : List String) (text : String)
      → suc k < 256
      → code < 256
      → t < 2 ^ 32
      → text_at texts code ≡ some text
      → base + 2048 < 2 ^ 15
      → IsEntry (create_log_array code t) entry
      → Pushed s base k entry m m'
      → slot_line texts (slot base k) (s.read_page (slot base k) 8 m').0
        ≡ some (some (record { address = slot base k; text = text; timestamp = t }))
  slot_line-Pushed {base} {k} {code} {t} {entry} {m} {m'} texts text more hc ht e area is p =
      let a = slot base k in
      let same = is.sealed ∙ ap (λ xs. with_crc xs is.crc) (create_log_array-bytes code t) in
      let read =
        s.read_page-cell a 8 m' (omega arith) p.ready
        ∙ values-same (s.cell m') (overwritten (s.cell m) a entry) a 8 (λ b _ _. p.kept more b)
        ∙ ap (λ xs. values (overwritten (s.cell m) a xs) a 8) same
        ∙ values-overwritten (s.cell m) a 1 (code % 256) (t / 2 ^ 24 % 256) (t / 2 ^ 16 % 256)
            (t / 2 ^ 8 % 256) (t % 256) (is.crc / 2 ^ 8) (is.crc % 2 ^ 8)
        ∙ sym same in
      ap (slot_line texts a) read ∙ slot_line-entry texts text a code t entry hc ht e is

  -- The handler and storage after a push, and the line that `printValidLogs` has for the entry.
  pub record Shows (texts : List String) (text : String) (a t : ℕ) (sent : Publication)
      (out : Option (LogHandler × s.Mem × Publication)) : Type 0 where
    pub handler : LogHandler
    pub mem : s.Mem
    pub returns : out ≡ some (handler, mem, sent)
    pub line :
        slot_line texts a (s.read_page a 8 mem).0
        ≡ some (some (record { address = a; text = text; timestamp = t }))

  -- From a valid handler with a communication handler, unless the entry takes the last slot, after
  -- `pushLog` the bytes that `printValidLogs` reads at that slot give a line with its address, the
  -- text of the message, and the time since boot at which it was pushed.
  pub push_log-Shows :
      (message : LogMessage) (now : ℕ) (h : LogHandler) (m : s.Mem) (k j : ℕ)
      → IsValid s h m k j
      → h.has_comm_handler ≡ true
      → suc k < 256
      → Shows log_messages
          (log_text message)
          (slot log_base k)
          (get_timestamp_since_boot now h.boot_timestamp)
          (log_publication (log_text message))
          (push_log s message now h m)
  push_log-Shows message now h m k j v has more =
      let p = push_log_lem s message now h m k j v has in
      record {
        handler = p.handler;
        mem = p.mem;
        returns = p.returns;
        line =
            slot_line-Pushed log_messages (log_text message) more (message_code_lt message)
              (get_timestamp_lt now h.boot_timestamp) (log_text_at message) (omega arith) p.is_entry
              p.pushed;
      }

  -- From a valid handler with a communication handler, unless the entry takes the last slot, after
  -- `pushRebootLog` the bytes that `printValidLogs` reads at that slot give a line with its
  -- address, the text of the status, and the time since boot at which it was pushed.
  pub push_reboot_log-Shows :
      (status : RebootStatusCode) (now : ℕ) (h : LogHandler) (m : s.Mem) (j k : ℕ)
      → IsValid s h m j k
      → h.has_comm_handler ≡ true
      → suc k < 256
      → Shows reboot_status_messages
          (reboot_text status)
          (slot reboot_base k)
          (get_timestamp_since_boot now h.boot_timestamp)
          (status_publication (reboot_text status))
          (push_reboot_log s status now h m)
  push_reboot_log-Shows status now h m j k v has more =
      let p = push_reboot_log_lem s status now h m j k v has in
      record {
        handler = p.handler;
        mem = p.mem;
        returns = p.returns;
        line =
            slot_line-Pushed reboot_status_messages (reboot_text status) more
              (status_code_lt status) (get_timestamp_lt now h.boot_timestamp)
              (reboot_text_at status) (omega arith) p.is_entry p.pushed;
      }
