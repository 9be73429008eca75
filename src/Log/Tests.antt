-- ===== src/Log/Tests.antt =====
-- The log handler over the model of the EEPROM, and the theorems at concrete entries.
use ventilation_system_proje.Common.{
  ℕ, ◌≡◌, refl, true, some, List, [], ◌∷◌, ◌++◌, arith, take, replicate,
}
use ventilation_system_proje.Eeprom.{Driver}
use ventilation_system_proje.Eeprom.Storage.{Storage}
use ventilation_system_proje.Eeprom.Chip.{IsReady, storage}
use ventilation_system_proje.Eeprom.Model.{Device, model_sdk, model_chip}
use ventilation_system_proje.Log.{log_messages, get_timestamp_since_boot, LogHandler, test2, crash}
use ventilation_system_proje.Log.Handler.{
  log_publication, status_publication, push_log, push_reboot_log, construct,
}
use ventilation_system_proje.Log.Invariant.{IsValid, AfterPush, log_base, reboot_base}
use ventilation_system_proje.Log.Invariant.Entries.{Filled-cleared}
use ventilation_system_proje.Log.Invariant.Message.{push_log_lem, log_bytes}
use ventilation_system_proje.Log.Invariant.Reboot.{push_reboot_log_lem, reboot_bytes}
use ventilation_system_proje.Log.Invariant.Show.{Shows, push_log-Shows}
use ventilation_system_proje.Log.Credentials.{credential, fetched}
use ventilation_system_proje.Log.Credentials.Field.{fetched-credential}
use ventilation_system_proje.Log.Invariant.Restart.{construct-IsValid}

-- A chip whose cells are all zero.
abbrev device : Device
device = record { clock = 12000; cells = λ _. 0; at = 0; busy = 0 }

abbrev driver : Driver Device
driver = record { write_cycle_max = 5000; write_init_time = 0; world = device }

abbrev eeprom : Storage
eeprom = storage model_sdk model_chip

driver-IsReady : IsReady model_sdk model_chip driver
driver-IsReady = record { long_enough = omega arith; started = omega arith; covered = omega arith }

abbrev handler : LogHandler
handler = record {
  unused_log_addr = 0;
  unused_reboot_status_addr = 2056;
  boot_timestamp = 3;
  unused_comm_config_addr = 4160;
  current_comm_config_addr = 4160;
  has_comm_handler = true;
}

handler-IsValid : IsValid eeprom handler driver 0 0
handler-IsValid = record {
  ready = driver-IsReady;
  log_addr = refl;
  logs = Filled-cleared (λ _. 0) log_base (λ i h. refl);
  reboot_addr = refl;
  reboots = Filled-cleared (λ _. 0) reboot_base (λ i h. refl);
}

push_log_lem_example :
    AfterPush eeprom 0 0 1 0
      (log_bytes test2 5000003 handler)
      (log_publication "Test2")
      driver
      (push_log eeprom test2 5000003 handler driver)
push_log_lem_example = push_log_lem eeprom test2 5000003 handler driver 0 0 handler-IsValid refl

push_reboot_log_lem_example :
    AfterPush eeprom 2056 0 0 1
      (reboot_bytes crash 5000003 handler)
      (status_publication "Crash")
      driver
      (push_reboot_log eeprom crash 5000003 handler driver)
push_reboot_log_lem_example =
    push_reboot_log_lem eeprom crash 5000003 handler driver 0 0 handler-IsValid refl

construct-IsValid_example :
    let out = construct eeprom 7000 handler driver in
    IsValid eeprom out.0 out.1 0 0 × (eeprom.cell out.1 ≡ eeprom.cell driver)
construct-IsValid_example =
    construct-IsValid eeprom 7000 handler driver 0 0 driver-IsReady
      (Filled-cleared (λ _. 0) log_base (λ i h. refl))
      (Filled-cleared (λ _. 0) reboot_base (λ i h. refl))

push_log-Shows_example :
    Shows eeprom log_messages "Test2" 0
      (get_timestamp_since_boot 5000003 3)
      (log_publication "Test2")
      (push_log eeprom test2 5000003 handler driver)
push_log-Shows_example =
    push_log-Shows eeprom test2 5000003 handler driver 0 0 handler-IsValid refl (omega arith)

fetched-credential_example :
    (arr : List ℕ) × (credential true (112 ∷ 119 ∷ []) (replicate 64 0xAA) ≡ some (arr, 7))
    × (fetched (take 7 arr ++ replicate 57 0xFF) ≡ some (some (112 ∷ 119 ∷ 0 ∷ [])))
fetched-credential_example =
    fetched-credential (112 ∷ 119 ∷ []) (replicate 64 0xAA) (replicate 57 0xFF) (omega arith)
      (omega arith) refl
