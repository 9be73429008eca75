-- ===== src/Log/Invariant.antt =====
-- The invariant of the log handler and its EEPROM areas: each area holds its entries from the
-- first slot on without a gap, and the handler's address is that of the first free slot. What a
-- push leaves, and that a restart finds the same address again.
pub mod Entries
pub mod Area
pub mod Message
pub mod Reboot
pub mod Restart
pub mod Show
use ventilation_system_proje.Common.{
  ℕ, zero, suc, ◌+◌, ◌*◌, ◌/◌, ◌%◌, ◌^◌, ◌≤◌, ◌<◌, ◌≡◌, ◌⊎◌, inl, inr, refl, sym, ap, ◌∙◌, List, [],
  ◌∷◌, Option, some, none, ◌>>=◌, length, arith, Bool, true, false, subst, leb, lt→leb, le→leb,
  get_or, if◌then◌else◌, dec_lt,
}
use Prim.Native.String.{String}
use ventilation_system_proje.Common.Cells.{overwritten}
use ventilation_system_proje.Eeprom.Storage.{Storage}
use ventilation_system_proje.Log.{
  LogHandler, LogMessage, test, test2, RebootStatusCode, ok, crash, forced_reboot, create_log_array,
  message_code, status_code, get_timestamp_since_boot, log_messages, reboot_status_messages,
}
use ventilation_system_proje.Log.Frame.{with_crc, create_log_array-bytes}
use ventilation_system_proje.Log.Handler.{
  Publication, push_log, push_reboot_log, clear_slots, enter_log_to_eeprom, text_at,
  log_publication, status_publication,
}
use ventilation_system_proje.Log.Slots.{slot}
use ventilation_system_proje.Log.Push.{IsEntry, enter_log_stores}
use ventilation_system_proje.Log.Invariant.Entries.{Filled, Filled-same}
use ventilation_system_proje.Log.Invariant.Area.{
  IsArea, Pushed, Pushed-room, Pushed-full, next_slot,
}

abbrev pub log_base : ℕ
log_base = 0

abbrev pub reboot_base : ℕ
reboot_base = 2056

pub log-IsArea : IsArea log_base
log-IsArea = omega arith

pub reboot-IsArea : IsArea reboot_base
reboot-IsArea = omega arith

pub entry-first :
    (code timestamp : ℕ) (entry : List ℕ)
    → IsEntry (create_log_array code timestamp) entry
    → (length entry ≡ 8) × (get_or entry 0 0 ≡ 1)
entry-first code timestamp entry e =
    rw (e.sealed, create_log_array-bytes code timestamp) (refl, refl)

module _ (s : Storage) where
  -- `k` entries in the message log and `j` in the reboot log.
  pub record IsValid (h : LogHandler) (m : s.Mem) (k j : ℕ) : Type 0 where
    pub ready : s.IsReady m
    pub log_addr : h.unused_log_addr ≡ slot log_base k
    pub logs : Filled (s.cell m) log_base k
    pub reboot_addr : h.unused_reboot_status_addr ≡ slot reboot_base j
    pub reboots : Filled (s.cell m) reboot_base j

  -- The storage after a push, whether or not the area was full.
  pub Pushed-either :
      {base k : ℕ} {entry : List ℕ} (m : s.Mem)
      → IsArea base
      → s.IsReady m
      → Filled (s.cell m) base k
      → length entry ≡ 8
      → get_or entry 0 0 ≡ 1
      → Pushed s base k entry m (
          if leb 256 (suc k)
          then clear_slots s 256 base (s.store (slot base k) entry m)
          else s.store (slot base k) entry m)
  Pushed-either {base} {k} {entry} m area v p len first = elim (dec_lt (suc k) 256) [
    | yes more ↦ rw (lt→leb 256 (suc k) more) (Pushed-room s m area v p len first more)
    | no full ↦
        let r = p.room in
        rw (le→leb 256 (suc k) (omega arith)) (Pushed-full s m area v p len first (omega arith))
  ]

  -- What a push of `xs` into the area at `base` leaves: the call returns and publishes `sent`, `entry` is `xs` with its
  -- checksum, and the invariant holds with one more entry in that area.
  pub record AfterPush (base k k' j' : ℕ) (xs : List ℕ) (sent : Publication) (m : s.Mem)
      (out : Option (LogHandler × s.Mem × Publication)) : Type 0 where
    pub handler : LogHandler
    pub mem : s.Mem
    pub returns : out ≡ some (handler, mem, sent)
    pub entry : List ℕ
    pub is_entry : IsEntry xs entry
    pub pushed : Pushed s base k entry m mem
    pub valid : IsValid handler mem k' j'
