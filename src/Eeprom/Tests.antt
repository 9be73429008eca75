-- ===== src/Eeprom/Tests.antt =====
-- Runs of the driver over the model of a chip, and the theorems at concrete transfers.
use ventilation_system_proje.Common.{◌≡◌, refl, [], ◌∷◌, arith}
use ventilation_system_proje.Eeprom.{
  Driver, write_cycle_block, write_byte, read_byte, send, read_page,
}
use ventilation_system_proje.Eeprom.Chip.{
  IsReady, IsIdle, write_cycle_block-IsIdle, Stores, send-Stores, Reads, read_page-Reads,
}
use ventilation_system_proje.Eeprom.Model.{Device, model_sdk, model_chip}

-- A chip that holds 7 in every cell, two milliseconds after a write.
abbrev device : Device
device = record { clock = 12000; cells = λ _. 7; at = 0; busy = 15000 }

abbrev driver : Driver Device
driver = record { write_cycle_max = 5000; write_init_time = 10000; world = device }

driver-IsReady : IsReady model_sdk model_chip driver
driver-IsReady = record { long_enough = omega arith; started = omega arith; covered = omega arith }

read_back : (read_byte model_sdk 300 (write_byte model_sdk 300 9 driver)).0 ≡ 9
unfolding read_byte write_byte
read_back = refl

write_cycle_block-IsIdle_example :
    IsIdle model_sdk model_chip driver (write_cycle_block model_sdk driver)
write_cycle_block-IsIdle_example =
    write_cycle_block-IsIdle model_sdk model_chip driver driver-IsReady

send-Stores_example :
    Stores model_sdk model_chip 300 (9 ∷ []) driver (send model_sdk (1 ∷ 44 ∷ 9 ∷ []) driver)
send-Stores_example =
    send-Stores model_sdk model_chip 300 (9 ∷ []) driver (omega arith) driver-IsReady

read_page-Reads_example :
    Reads model_sdk model_chip 60 8 driver
      (read_page model_sdk 60 8 driver).0
      (read_page model_sdk 60 8 driver).1
read_page-Reads_example =
    read_page-Reads model_sdk model_chip 60 8 driver (omega arith) driver-IsReady
