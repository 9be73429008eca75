-- ===== src/Modbus/Bus/Value.antt =====
-- A register that is read over the MODBUS line.
use ventilation_system_proje.Common.{
  ℕ, ◌^◌, ◌≤◌, ◌<◌, ◌≡◌, ap, ap₂, ◌∙◌, true, false, some, List, [], ◌∷◌, ◌++◌, arith, length,
}
use ventilation_system_proje.Crc.Modbus.{crc}
use ventilation_system_proje.Crc.Modbus.Laws.{crc_prefix}
use ventilation_system_proje.Modbus.{ModbusRegister, read_rxlen, read_is_ok, get32}
use ventilation_system_proje.Modbus.Frames.{IsSealed, two_words}
use ventilation_system_proje.Modbus.Answers.{read_is_ok_iff, get32-two_words}
use ventilation_system_proje.Modbus.Bus.{
  ModbusCtrl, rx_done, channels, arm, begin, Mark, enabled, Runs, next,
}
use ventilation_system_proje.Modbus.Bus.Receiving.{answers, bytes_of}
use ventilation_system_proje.Modbus.Bus.Transfer.{transfer-HasReceived}

-- What `is_ok` and `get32` make of a register that has received a sealed answer.
read_lem :
    (r : ModbusRegister) (bytes old : List ℕ) (device function value : ℕ)
    → IsSealed (device ∷ function ∷ 4 ∷ two_words value) bytes
    → value < 2 ^ 32
    → r.rxbuf ≡ bytes ++ old
    → r.rx_len ≡ length bytes
    → (read_is_ok r ≡ some true) × (get32 r ≡ value)
read_lem r bytes old device function value (c, _, e, z) h buffer count =
    let size : length bytes ≡ 9 = ap length e in
    (
      (read_is_ok_iff r).1
          (ap₂ crc buffer count ∙ crc_prefix bytes old ∙ z, λ q. omega (arith, count, size, q)),
      get32-two_words r device function value _ (buffer ∙ ap (λ t. t ++ old) e) h,
    )

module _ (rxbuf_at : ℕ → ℕ) where
  -- When a register of two words is read from a controller that may start a transfer, and the
  -- device answers with the bytes of a 32-bit value under their checksum, the run to the
  -- interrupt behind the last byte is possible, and it leaves the controller free, the test of
  -- the answer passed, and `get32` of the register the value.
  pub read_transfer_lem :
      (s : ModbusCtrl) (who timeout_ms device function value : ℕ) (answer : List (ℕ × ℕ))
      → (s.registers who).number_of_registers ≡ 2
      → enabled rxbuf_at (begin who (read_rxlen (s.registers who)) timeout_ms) s ≡ true
      → 9 ≤ length (s.registers who).rxbuf
      → rxbuf_at who < 2 ^ 32
      → IsSealed (device ∷ function ∷ 4 ∷ two_words value) (bytes_of answer)
      → value < 2 ^ 32
      → (ms : List Mark) × (u : ModbusCtrl) × Runs rxbuf_at s
          (rx_done
            ∷ answers answer
                (arm ∷ channels ∷ begin who (read_rxlen (s.registers who)) timeout_ms ∷ []))
          ms
          u
        × (u.busy ≡ false)
        × (read_is_ok (u.registers who) ≡ some true)
        × (get32 (u.registers who) ≡ value)
  unfolding read_rxlen
  read_transfer_lem s who timeout_ms device function value answer two able room near sealed h =
      let expected : read_rxlen (s.registers who) ≡ 9 = omega (arith, two) in
      let size : length (bytes_of answer) ≡ 9 = ap length sealed.2 in
      let (t, run, sent, full, w, fires, fired) =
        transfer-HasReceived rxbuf_at s who (read_rxlen (s.registers who)) timeout_ms answer able
          (omega (arith, expected, size)) (omega (arith, expected)) (omega (arith, expected))
          near in
      let (pending, u, done, got) =
        full (omega (arith, expected)) (omega (arith, expected, size)) in
      let (passes, reads) =
        read_lem (u.registers who) (bytes_of answer) _ device function value sealed h
          (ap (λ (x : ModbusRegister). x.rxbuf) got.register)
          (ap (λ (x : ModbusRegister). x.rx_len) got.register) in
      (_, u, next rx_done run pending done, got.free, passes, reads)
