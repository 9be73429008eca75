-- ===== src/Log/Invariant/Message.antt =====
-- `pushLog`, from a valid handler.
use ventilation_system_proje.Common.{
  ℕ, suc, ◌+◌, ◌<◌, ◌≡◌, refl, ap, ◌∙◌, List, some, arith, true, leb, lt→leb, le→leb, if◌then◌else◌,
  dec_lt,
}
use Prim.Native.String.{String}
use ventilation_system_proje.Eeprom.Storage.{Storage}
use ventilation_system_proje.Log.{
  LogHandler, LogMessage, test, test2, create_log_array, message_code, get_timestamp_since_boot,
  log_messages,
}
use ventilation_system_proje.Log.Handler.{
  Publication, push_log, clear_slots, enter_log_to_eeprom, text_at, log_publication,
}
use ventilation_system_proje.Log.Slots.{slot}
use ventilation_system_proje.Log.Push.{enter_log_stores}
use ventilation_system_proje.Log.Invariant.Entries.{Filled-same}
use ventilation_system_proje.Log.Invariant.Area.{next_slot}
use ventilation_system_proje.Log.Invariant.{
  log_base, reboot_base, log-IsArea, entry-first, IsValid, Pushed-either, AfterPush,
}

abbrev pub log_bytes : LogMessage → ℕ → LogHandler → List ℕ
log_bytes message now h =
    create_log_array (message_code message) (get_timestamp_since_boot now h.boot_timestamp)

abbrev pub log_text : LogMessage → String
log_text test = "Test"
log_text test2 = "Test2"

pub log_text_at :
    (message : LogMessage) → text_at log_messages (message_code message) ≡ some (log_text message)
log_text_at test = refl
log_text_at test2 = refl

module _ (s : Storage) where
  abbrev log_moved : LogHandler → ℕ → s.Mem → LogMessage → LogHandler × s.Mem × Publication
  log_moved h k m1 message = (
    record h { unused_log_addr = slot log_base (next_slot k) },
    if leb 256 (suc k) then clear_slots s 256 log_base m1 else m1,
    log_publication (log_text message),
  )

  push_log-moves :
      (message : LogMessage) (now : ℕ) (h : LogHandler) (m m1 : s.Mem) (k : ℕ)
      → h.has_comm_handler ≡ true
      → h.unused_log_addr ≡ slot log_base k
      → k < 256
      → enter_log_to_eeprom s (log_bytes message now h) 6 h.unused_log_addr m ≡ some m1
      → push_log s message now h m ≡ some (log_moved h k m1 message)
  unfolding push_log
  push_log-moves message now h m m1 k has a room e = elim (dec_lt (suc k) 256) [
    | yes more ↦
        let l : h.unused_log_addr + 8 ≡ slot log_base (next_slot k) = omega arith in
        rw
          (
            e,
            log_text_at message,
            lt→leb 2048 (h.unused_log_addr + 8) (omega arith),
            lt→leb 256 (suc k) more,
            has,
            l,
          )
          refl
    | no full ↦
        let l : slot log_base (next_slot k) ≡ 0 = omega arith in
        rw
          (
            e,
            log_text_at message,
            le→leb 2048 (h.unused_log_addr + 8) (omega arith),
            le→leb 256 (suc k) (omega arith),
            has,
            l,
          )
          refl
  ]

  -- From a valid handler (each area holds its entries from the first slot on without a gap, and
  -- the handler's addresses are those of the first free slots) with a communication handler,
  -- `pushLog` returns and publishes the message; it stores the entry of the message, sealed by a
  -- checksum that verifies, in the first free slot of the message log, or frees that whole log if
  -- this was its last slot; it changes no cell outside the log, and the handler is valid again.
  pub push_log_lem :
      (message : LogMessage) (now : ℕ) (h : LogHandler) (m : s.Mem) (k j : ℕ)
      → IsValid s h m k j
      → h.has_comm_handler ≡ true
      → AfterPush s log_base k
          (next_slot k)
          j
          (log_bytes message now h)
          (log_publication (log_text message))
          m
          (push_log s message now h m)
  push_log_lem message now h m k j v has =
      let code = message_code message in
      let time = get_timestamp_since_boot now h.boot_timestamp in
      let r = v.logs.room in
      let at = v.log_addr in
      let (entry, is_entry, stores) =
        enter_log_stores s code time (slot log_base k) m (omega arith) in
      let (len, first) = entry-first code time entry is_entry in
      let stores' = ap (λ a. enter_log_to_eeprom s (log_bytes message now h) 6 a m) at ∙ stores in
      let p = Pushed-either s m log-IsArea v.ready v.logs len first in
      record {
        handler = record h { unused_log_addr = slot log_base (next_slot k) };
        mem =
            if leb 256 (suc k)
            then clear_slots s 256 log_base (s.store (slot log_base k) entry m)
            else s.store (slot log_base k) entry m;
        returns =
            push_log-moves message now h m (s.store (slot log_base k) entry m) k has at r stores';
        entry = entry;
        is_entry = is_entry;
        pushed = p;
        valid = record {
          ready = p.ready;
          log_addr = refl;
          logs = p.filled;
          reboot_addr = v.reboot_addr;
          reboots =
              Filled-same (s.cell m) _ reboot_base j (λ b q w. p.outside b (omega arith)) v.reboots;
        };
      }
