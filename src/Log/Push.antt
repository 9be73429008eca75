-- ===== src/Log/Push.antt =====
-- What a push writes: the entry at the unused address, sealed by its checksum.
use ventilation_system_proje.Common.{
  ℕ, ◌/◌, ◌%◌, ◌^◌, ◌<◌, ◌≡◌, refl, true, some, List, [], ◌∷◌, arith, All, u16,
}
use ventilation_system_proje.Crc.Fold.{IsByte}
use ventilation_system_proje.Eeprom.Storage.{Storage}
use ventilation_system_proje.Log.{create_log_array, verify_data_integrity}
use ventilation_system_proje.Log.Frame.{with_crc, append_crc_verifies, create_log_array-bytes}
use ventilation_system_proje.Log.Handler.{enter_log_to_eeprom}

-- An entry of eight bytes that verifies.
pub record IsEntry (xs entry : List ℕ) : Type 0 where
  pub crc : ℕ
  pub sealed : entry ≡ with_crc xs crc
  pub verifies : verify_data_integrity entry 8 ≡ some true

module _ (s : Storage) where
  six_stores :
      (x0 x1 x2 x3 x4 x5 : ℕ) (a : ℕ) (m : s.Mem)
      → All IsByte (x0 ∷ x1 ∷ x2 ∷ x3 ∷ x4 ∷ x5 ∷ [])
      → a < 2 ^ 15
      → (entry : List ℕ) × IsEntry (x0 ∷ x1 ∷ x2 ∷ x3 ∷ x4 ∷ x5 ∷ []) entry
        × (enter_log_to_eeprom s (x0 ∷ x1 ∷ x2 ∷ x3 ∷ x4 ∷ x5 ∷ []) 6 a m
            ≡ some (s.store a entry m))
  unfolding enter_log_to_eeprom
  six_stores x0 x1 x2 x3 x4 x5 a m h fits =
      let xs = x0 ∷ x1 ∷ x2 ∷ x3 ∷ x4 ∷ x5 ∷ [] in
      let (c, e, stored, z) = append_crc_verifies xs 0 0 [] h in
      let small : u16 a ≡ a = omega arith in
      (
        with_crc xs c,
        record { crc = c; sealed = refl; verifies = z [] },
        rw (stored, small) (s.write_page-store a (with_crc xs c) 8 m (omega arith)),
      )

  -- Entering a log array stores it, sealed, at the address, if that is inside the chip.
  pub enter_log_stores :
      (code timestamp a : ℕ) (m : s.Mem)
      → a < 2 ^ 15
      → (entry : List ℕ) × IsEntry (create_log_array code timestamp) entry
        × (enter_log_to_eeprom s (create_log_array code timestamp) 6 a m ≡ some (s.store a entry m))
  enter_log_stores code timestamp a m fits = rw (create_log_array-bytes code timestamp) (
      six_stores 1 (code % 256) (timestamp / 2 ^ 24 % 256) (timestamp / 2 ^ 16 % 256)
        (timestamp / 2 ^ 8 % 256) (timestamp % 256) a m (omega arith) fits)
