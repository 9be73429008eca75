-- ===== src/Log/Invariant/Reboot.antt =====
-- `pushRebootLog`, from a valid handler.
use ventilation_system_proje.Common.{
  ℕ, suc, ◌+◌, ◌<◌, ◌≡◌, refl, ap, ◌∙◌, List, some, arith, true, leb, lt→leb, le→leb, if◌then◌else◌,
  dec_lt,
}
use Prim.Native.String.{String}
use ventilation_system_proje.Eeprom.Storage.{Storage}
use ventilation_system_proje.Log.{
  LogHandler, RebootStatusCode, RebootStatusCode, ok, crash, forced_reboot, create_log_array,
  status_code, status_code, get_timestamp_since_boot, reboot_status_messages,
  reboot_status_messages,
}
use ventilation_system_proje.Log.Handler.{
  Publication, push_reboot_log, push_reboot_log, clear_slots, enter_log_to_eeprom, text_at,
  status_publication, status_publication,
}
use ventilation_system_proje.Log.Slots.{slot}
use ventilation_system_proje.Log.Push.{enter_log_stores}
use ventilation_system_proje.Log.Invariant.Entries.{Filled-same}
use ventilation_system_proje.Log.Invariant.Area.{next_slot}
use ventilation_system_proje.Log.Invariant.{
  log_base, reboot_base, reboot-IsArea, entry-first, IsValid, Pushed-either, AfterPush,
}

abbrev pub reboot_bytes : RebootStatusCode → ℕ → LogHandler → List ℕ
reboot_bytes status now h =
    create_log_array (status_code status) (get_timestamp_since_boot now h.boot_timestamp)

abbrev pub reboot_text : RebootStatusCode → String
reboot_text ok = "OK"
reboot_text crash = "Crash"
reboot_text forced_reboot = "Forced Reboot"

pub reboot_text_at :
    (status : RebootStatusCode)
    → text_at reboot_status_messages (status_code status) ≡ some (reboot_text status)
reboot_text_at ok = refl
reboot_text_at crash = refl
reboot_text_at forced_reboot = refl

module _ (s : Storage) where
  abbrev reboot_moved : LogHandler → ℕ → s.Mem → RebootStatusCode → LogHandler × s.Mem × Publication
  reboot_moved h k m1 status = (
    record h { unused_reboot_status_addr = slot reboot_base (next_slot k) },
    if leb 256 (suc k) then clear_slots s 256 reboot_base m1 else m1,
    status_publication (reboot_text status),
  )

  push_reboot_log-moves :
      (status : RebootStatusCode) (now : ℕ) (h : LogHandler) (m m1 : s.Mem) (k : ℕ)
      → h.has_comm_handler ≡ true
      → h.unused_reboot_status_addr ≡ slot reboot_base k
      → k < 256
      → enter_log_to_eeprom s (reboot_bytes status now h) 6 h.unused_reboot_status_addr m ≡ some m1
      → push_reboot_log s status now h m ≡ some (reboot_moved h k m1 status)
  unfolding push_reboot_log
  push_reboot_log-moves status now h m m1 k has a room e = elim (dec_lt (suc k) 256) [
    | yes more ↦
        let l : h.unused_reboot_status_addr + 8 ≡ slot reboot_base (next_slot k) = omega arith in
        rw
          (
            e,
            reboot_text_at status,
            lt→leb 4104 (h.unused_reboot_status_addr + 8) (omega arith),
            lt→leb 256 (suc k) more,
            has,
            l,
          )
          refl
    | no full ↦
        let l : slot reboot_base (next_slot k) ≡ 2056 = omega arith in
        rw
          (
            e,
            reboot_text_at status,
            le→leb 4104 (h.unused_reboot_status_addr + 8) (omega arith),
            le→leb 256 (suc k) (omega arith),
            has,
            l,
          )
          refl
  ]

  -- From a valid handler with a communication handler, `pushRebootLog` returns and publishes the
  -- status; it stores the entry of the status, sealed by a checksum that verifies, in the first
  -- free slot of the reboot log, or frees that whole log if this was its last slot; it changes no
  -- cell outside the log, and the handler is valid again.
  pub push_reboot_log_lem :
      (status : RebootStatusCode) (now : ℕ) (h : LogHandler) (m : s.Mem) (j k : ℕ)
      → IsValid s h m j k
      → h.has_comm_handler ≡ true
      → AfterPush s reboot_base k j
          (next_slot k)
          (reboot_bytes status now h)
          (status_publication (reboot_text status))
          m
          (push_reboot_log s status now h m)
  push_reboot_log_lem status now h m j k v has =
      let code = status_code status in
      let time = get_timestamp_since_boot now h.boot_timestamp in
      let r = v.reboots.room in
      let at = v.reboot_addr in
      let (entry, is_entry, stores) =
        enter_log_stores s code time (slot reboot_base k) m (omega arith) in
      let (len, first) = entry-first code time entry is_entry in
      let stores' = ap (λ a. enter_log_to_eeprom s (reboot_bytes status now h) 6 a m) at ∙ stores in
      let p = Pushed-either s m reboot-IsArea v.ready v.reboots len first in
      record {
        handler = record h { unused_reboot_status_addr = slot reboot_base (next_slot k) };
        mem =
            if leb 256 (suc k)
            then clear_slots s 256 reboot_base (s.store (slot reboot_base k) entry m)
            else s.store (slot reboot_base k) entry m;
        returns =
            push_reboot_log-moves status now h m (s.store (slot reboot_base k) entry m) k has at r
              stores';
        entry = entry;
        is_entry = is_entry;
        pushed = p;
        valid = record {
          ready = p.ready;
          log_addr = v.log_addr;
          logs = Filled-same (s.cell m) _ log_base j (λ b q w. p.outside b (omega arith)) v.logs;
          reboot_addr = refl;
          reboots = p.filled;
        };
      }
