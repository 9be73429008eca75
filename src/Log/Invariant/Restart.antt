-- ===== src/Log/Invariant/Restart.antt =====
-- The constructor of the log handler after a restart, and what `printValidLogs` shows of an entry.
use mathlib.Core.Path.{fun_ext}
use ventilation_system_proje.Common.{
  ℕ, ◌+◌, ◌/◌, ◌^◌, ◌<◌, ◌≡◌, refl, sym, ap, ◌∙◌, Option, some, arith, false, subst, u32,
}
use ventilation_system_proje.Eeprom.Storage.{Storage}
use ventilation_system_proje.Log.{
  LogHandler, msg_log, reboot_status, credentials_use_addr, credentials_start_addr,
}
use ventilation_system_proje.Log.Handler.{find_slot, use_slot, find_first_available_log, construct}
use ventilation_system_proje.Log.Slots.{slot, find_slot-Searched}
use ventilation_system_proje.Log.Invariant.Entries.{Filled, Search-Filled}
use ventilation_system_proje.Log.Invariant.{log_base, reboot_base, IsValid}

module _ (s : Storage) where
  -- The memory behind a search is as before, and the search names the first free slot.
  record Found (base k : ℕ) (m : s.Mem) (out : Option ℕ × s.Mem) : Type 0 where
    ready : s.IsReady out.1
    same : s.cell out.1 ≡ s.cell m
    place : out.0 ≡ some (slot base k)

  find_slot-Found :
      (base k : ℕ) (m : s.Mem)
      → base + 2048 < 2 ^ 15
      → s.IsReady m
      → Filled (s.cell m) base k
      → Found base k m (find_slot s 256 base m)
  find_slot-Found base k m h v p =
      let f = find_slot-Searched s 256 base m (omega arith) v in
      record { ready = f.ready; same = fun_ext f.same; place = Search-Filled p f.found }

  find_msg_log :
      (h : LogHandler) (m : s.Mem) (a : ℕ)
      → (find_slot s 256 log_base m).0 ≡ some a
      → find_first_available_log s msg_log h m
        ≡ (record h { unused_log_addr = a }, (find_slot s 256 log_base m).1)
  unfolding find_first_available_log use_slot
  find_msg_log h m a e = ap (λ o. use_slot s msg_log o h (find_slot s 256 log_base m).1) e

  find_reboot_status :
      (h : LogHandler) (m : s.Mem) (a : ℕ)
      → (find_slot s 256 reboot_base m).0 ≡ some a
      → find_first_available_log s reboot_status h m
        ≡ (record h { unused_reboot_status_addr = a }, (find_slot s 256 reboot_base m).1)
  unfolding find_first_available_log use_slot
  find_reboot_status h m a e =
      ap (λ o. use_slot s reboot_status o h (find_slot s 256 reboot_base m).1) e

  -- What the constructor makes of the slots that its two searches find.
  constructed :
      (now_ms a b : ℕ) (raw : LogHandler) (m : s.Mem)
      → (find_slot s 256 log_base m).0 ≡ some a
      → (find_slot s 256 reboot_base (find_slot s 256 log_base m).1).0 ≡ some b
      → construct s now_ms raw m ≡ (
        record raw {
          has_comm_handler = false;
          unused_log_addr = a;
          unused_reboot_status_addr = b;
          unused_comm_config_addr = credentials_use_addr;
          current_comm_config_addr = credentials_start_addr;
          boot_timestamp = u32 (now_ms / 1000);
        },
        (find_slot s 256 reboot_base (find_slot s 256 log_base m).1).1,
      )
  unfolding construct find_first_available_log use_slot
  constructed now_ms a b raw m e f = rw (e, f) refl

  -- Over a ready storage whose areas hold `k` and `j` entries from the first slot on without a
  -- gap, the constructor makes a valid handler for `k` and `j`, whatever the object's memory held
  -- before, and changes no cell.
  pub construct-IsValid :
      (now_ms : ℕ) (raw : LogHandler) (m : s.Mem) (k j : ℕ)
      → s.IsReady m
      → Filled (s.cell m) log_base k
      → Filled (s.cell m) reboot_base j
      → let out = construct s now_ms raw m in IsValid s out.0 out.1 k j × (s.cell out.1 ≡ s.cell m)
  construct-IsValid now_ms raw m k j v logs reboots =
      let f = find_slot-Found log_base k m (omega arith) v logs in
      let m1 = (find_slot s 256 log_base m).1 in
      let reboots1 = subst (λ c. Filled c reboot_base j) (sym f.same) reboots in
      let g = find_slot-Found reboot_base j m1 (omega arith) f.ready reboots1 in
      let same = g.same ∙ f.same in
      rw (constructed now_ms (slot log_base k) (slot reboot_base j) raw m f.place g.place) (
        record {
          ready = g.ready;
          log_addr = refl;
          logs = subst (λ c. Filled c log_base k) (sym same) logs;
          reboot_addr = refl;
          reboots = subst (λ c. Filled c reboot_base j) (sym same) reboots;
        },
        same,
      )
