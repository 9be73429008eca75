-- ===== src/Modbus/Bus/Tests.antt =====
-- Runs of the controller of the MODBUS line.
use ventilation_system_proje.Common.{
  ℕ, ◌+◌, ◌*◌, ◌≤◌, ◌<◌, ◌≡◌, refl, true, false, some, List, [], ◌∷◌, arith, replicate,
}
use ventilation_system_proje.Crc.Modbus.{crc}
use ventilation_system_proje.Modbus.{ModbusRegister, read_rxlen, read_is_ok, get32}
use ventilation_system_proje.Modbus.Frames.{IsSealed, two_words}
use ventilation_system_proje.Modbus.Bus.{
  ModbusCtrl, modbus_ctrl, start_begin, start_channels, start_alarm, pass, rx_done, fire,
  fire_inside, channels, arm, begin, Mark, started, ended, end, dma_irq_handler, alarm_hand,
  enabled, step, Runs, here, next,
}
use ventilation_system_proje.Modbus.Bus.Safe.{IsSpaced, Runs-IsSpaced}
use ventilation_system_proje.Modbus.Bus.Timeout.{Runs-ends}
use ventilation_system_proje.Modbus.Bus.Receiving.{answers, bytes_of}
use ventilation_system_proje.Modbus.Bus.Value.{read_transfer_lem}

abbrev sensor : ModbusRegister
sensor = record {
  rxbuf = replicate 32 0;
  rx_len = 0;
  payload = 240 ∷ 3 ∷ 0 ∷ 4 ∷ 0 ∷ 2 ∷ 0x90 ∷ 0xEB ∷ replicate 24 0;
  payload_len = 8;
  number_of_registers = 2;
}

abbrev buffers : ℕ → ℕ
buffers who = 0x20001000 + who * 80

-- The line at 9600 baud, 4 milliseconds behind the start.
abbrev line : ModbusCtrl
line = modbus_ctrl 9600 4000 (λ who. sensor)

-- A start for the register 3, with the timeout of 500 milliseconds that all callers use.
abbrev asked : ModbusCtrl
asked = start_alarm 500 (start_channels 3 9 500 (start_begin 3 9 500 line))

ask : Runs buffers line (arm ∷ channels ∷ begin 3 9 500 ∷ []) (started 4000 ∷ []) asked
unfolding step enabled
ask = next arm (next channels (next (begin 3 9 500) here refl refl) refl refl) refl refl

Runs-IsSpaced_example : IsSpaced 3333 (started 4000 ∷ []) × (0 < asked.rx_left → asked.busy ≡ true)
Runs-IsSpaced_example =
    Runs-IsSpaced buffers 9600 4000 (λ who. sensor) (arm ∷ channels ∷ begin 3 9 500 ∷ [])
      (started 4000 ∷ []) asked ask (refl, (refl, (refl, tt))) (omega arith)

Runs-ends_example :
    (us : ℕ) × (u : ModbusCtrl) × (us ≤ 500 * 1000)
    × Runs buffers asked (fire ∷ pass us ∷ []) (ended (4000 + us) ∷ []) u
    × (u.busy ≡ false)
Runs-ends_example =
    Runs-ends buffers 500 9600 4000 (λ who. sensor) (arm ∷ channels ∷ begin 3 9 500 ∷ [])
      (started 4000 ∷ []) asked ask (refl, (refl, (refl, tt))) refl refl

abbrev answer : List (ℕ × ℕ)
answer =
    (9000, 240)
    ∷ (1000, 3)
    ∷ (1000, 4)
    ∷ (1000, 3)
    ∷ (1000, 4)
    ∷ (1000, 1)
    ∷ (1000, 2)
    ∷ (1000, 0xDB)
    ∷ (1000, 0x28)
    ∷ []

sealed : IsSealed (240 ∷ 3 ∷ 4 ∷ two_words 0x01020304) (bytes_of answer)
unfolding crc
sealed = (0x28DB, refl, refl, refl)

read_transfer_lem_example :
    (ms : List Mark) × (u : ModbusCtrl) × Runs buffers line
      (rx_done ∷ answers answer (arm ∷ channels ∷ begin 3 9 500 ∷ []))
      ms
      u
    × (u.busy ≡ false)
    × (read_is_ok (u.registers 3) ≡ some true)
    × (get32 (u.registers 3) ≡ 0x01020304)
unfolding enabled read_rxlen
read_transfer_lem_example =
    read_transfer_lem buffers line 3 500 240 3 0x01020304 answer refl refl (omega arith)
      (omega arith) sealed (omega arith)

-- The alarm of a transfer that ended in time is still set when the next one starts: firing in the
-- middle of `start`, it frees the controller, and the receiver then runs while the controller is
-- not busy.
abbrev late : ModbusCtrl
late = record asked { rx_irq = true; rx_left = 0; now = 500000 }

overtaken :
    (ms : List Mark) × (u : ModbusCtrl) × Runs buffers late
      (channels ∷ fire_inside ∷ pass 20 ∷ begin 3 9 500 ∷ pass 3990 ∷ rx_done ∷ [])
      ms
      u
    × (u.busy ≡ false)
    × (u.rx_left ≡ 9)
unfolding step enabled dma_irq_handler alarm_hand end
overtaken =
    let r1 = next rx_done here refl refl in
    let r2 = next (pass 3990) r1 refl refl in
    let r3 = next (begin 3 9 500) r2 refl refl in
    let r4 = next (pass 20) r3 refl refl in
    (_, _, next channels (next fire_inside r4 refl refl) refl refl, refl, refl)
