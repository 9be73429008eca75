-- ===== src/Modbus/Bus/Transfer.antt =====
-- A transfer of the MODBUS line from `start` to `end`.
use ventilation_system_proje.Common.{
  ℕ, ◌+◌, ◌^◌, ◌≤◌, ◌<◌, ◌≡◌, refl, ap₂, ◌∙◌, ◌≢◌, true, false, not, none, some, List, [], ◌∷◌,
  arith, length, u8, sub_u32,
}
use ventilation_system_proje.Modbus.{ModbusRegister, frame}
use ventilation_system_proje.Modbus.Bus.Receiving.{
  answers, bytes_of, over, IsReceiving, with_register_self, with_register_ne, answers-IsReceiving,
}
use ventilation_system_proje.Modbus.Bus.{
  ModbusCtrl, with_register, abort, rx_done, fire, channels, arm, begin, started, end,
  dma_irq_handler, alarm_hand, enabled, step, Runs, here, next,
}

-- What a transfer leaves: the controller is free, `bytes` stand at the front of the register's
-- buffer with their number, and no other register has changed.
pub record HasReceived (s : ModbusCtrl) (who : ℕ) (bytes : List ℕ) (u : ModbusCtrl) : Type 0 where
  pub free : u.busy ≡ false
  pub register : u.registers who ≡ record (s.registers who) {
    rxbuf = over bytes (s.registers who).rxbuf;
    rx_len = length bytes;
  }
  pub others : (k : ℕ) → k ≢ who → u.registers k ≡ s.registers k

module _ (rxbuf_at : ℕ → ℕ) where
  start-IsReceiving :
      (s : ModbusCtrl) (who rxlen timeout_ms : ℕ)
      → enabled rxbuf_at (begin who rxlen timeout_ms) s ≡ true
      → (t : ModbusCtrl) × Runs rxbuf_at s
          (arm ∷ channels ∷ begin who rxlen timeout_ms ∷ [])
          (started s.now ∷ [])
          t
        × IsReceiving s who rxlen [] t
  unfolding enabled step
  start-IsReceiving s who rxlen timeout_ms able =
      let calm : not s.rx_irq ≡ true = ground arith in
      let quiet : s.rx_irq ≡ false = ground arith in
      (
        _,
        next arm
            (next channels (next (begin who rxlen timeout_ms) here able refl) (rw calm refl) refl)
            (rw calm refl) refl,
        record {
          user = refl;
          channel = refl;
          offset = refl;
          left = omega arith;
          complete = quiet;
          sent = refl;
          register = refl;
          others = λ k h. refl;
        },
      )

  -- `end` computes the number of bytes from the address that the channel has come to.
  ended-HasReceived :
      (s : ModbusCtrl) (who : ℕ) (bytes : List ℕ) (t : ModbusCtrl)
      → t.current_user ≡ some who
      → t.rx_user ≡ who
      → t.rx_offset ≡ length bytes
      → t.registers who ≡ record (s.registers who) { rxbuf = over bytes (s.registers who).rxbuf }
      → ((k : ℕ) → k ≢ who → t.registers k ≡ s.registers k)
      → length bytes < 2 ^ 8
      → rxbuf_at who < 2 ^ 32
      → (u : ModbusCtrl) × (end rxbuf_at false t ≡ some u) × HasReceived s who bytes u
  unfolding end
  ended-HasReceived s who bytes t user channel offset register others short near =
      let written : ℕ = u8 (sub_u32 (rxbuf_at t.rx_user + t.rx_offset) (rxbuf_at who)) in
      let count : written ≡ length bytes =
        ap₂ (λ a b. u8 (sub_u32 (rxbuf_at a + b) (rxbuf_at who))) channel offset ∙ omega arith in
      let r : ModbusRegister = record (t.registers who) { rx_len = written } in
      (
        record t { ctrl_time = t.now; busy = false; registers = with_register who r t.registers },
        rw user refl,
        record {
          free = refl;
          register =
              with_register_self who r t.registers
              ∙ ap₂ (λ (x : ModbusRegister) (n : ℕ). record x { rx_len = n }) register count;
          others = λ k h. with_register_ne who k r t.registers h ∙ others k h;
        },
      )

  rx_done-HasReceived :
      (s : ModbusCtrl) (who rxlen : ℕ) (bytes : List ℕ) (t : ModbusCtrl)
      → IsReceiving s who rxlen bytes t
      → length bytes < 2 ^ 8
      → rxbuf_at who < 2 ^ 32
      → t.rx_irq ≡ true
      → (u : ModbusCtrl) × (step rxbuf_at rx_done t ≡ some u) × HasReceived s who bytes u
  unfolding step dma_irq_handler
  rx_done-HasReceived s who rxlen bytes t r short near irq = rw irq (
      ended-HasReceived s who bytes (record t { rx_irq = false }) r.user r.channel r.offset
        r.register r.others short near)

  fire-HasReceived :
      (s : ModbusCtrl) (who rxlen : ℕ) (bytes : List ℕ) (t : ModbusCtrl)
      → IsReceiving s who rxlen bytes t
      → length bytes < 2 ^ 8
      → rxbuf_at who < 2 ^ 32
      → (u : ModbusCtrl) × (step rxbuf_at fire t ≡ some u) × HasReceived s who bytes u
  unfolding step alarm_hand end
  fire-HasReceived s who rxlen bytes t r short near =
      ended-HasReceived s who bytes (abort (record t { alarm = none })) r.user r.channel r.offset
        r.register r.others short near

  -- From a controller that may start a transfer for a register whose buffer has room for `rxlen`
  -- bytes, fewer than 256: the request of the register is handed to the sender, and an answer of
  -- up to `rxlen` bytes comes in byte by byte, whatever time passes in between. Behind the last
  -- byte of a full answer the interrupt is pending, and its handler leaves the bytes at the front
  -- of the register's buffer with their number, no other register changed, and the controller
  -- free; for any answer the handler of the alarm does the same.
  pub transfer-HasReceived :
      (s : ModbusCtrl) (who rxlen timeout_ms : ℕ) (answer : List (ℕ × ℕ))
      → enabled rxbuf_at (begin who rxlen timeout_ms) s ≡ true
      → length (bytes_of answer) ≤ rxlen
      → rxlen ≤ length (s.registers who).rxbuf
      → rxlen < 2 ^ 8
      → rxbuf_at who < 2 ^ 32
      → (t : ModbusCtrl) × Runs rxbuf_at s
          (answers answer (arm ∷ channels ∷ begin who rxlen timeout_ms ∷ []))
          (started s.now ∷ [])
          t
        × (t.tx ≡ frame (s.registers who))
        × (0 < rxlen
            → length (bytes_of answer) ≡ rxlen
            → (enabled rxbuf_at rx_done t ≡ true)
              × (u : ModbusCtrl) × (step rxbuf_at rx_done t ≡ some u)
              × HasReceived s who (bytes_of answer) u)
        × (u : ModbusCtrl) × (step rxbuf_at fire t ≡ some u)
        × HasReceived s who (bytes_of answer) u
  unfolding enabled
  transfer-HasReceived s who rxlen timeout_ms answer able short fits small near =
      let (t0, run, r) = start-IsReceiving s who rxlen timeout_ms able in
      let (t, run', r') =
        answers-IsReceiving rxbuf_at s who rxlen answer [] s t0
          (arm ∷ channels ∷ begin who rxlen timeout_ms ∷ []) (started s.now ∷ []) run r
          (omega arith) fits in
      let irq : 0 < rxlen → length (bytes_of answer) ≡ rxlen → t.rx_irq ≡ true =
        λ some_left full. ground (arith, r'.complete) in
      let (u, done, got) = fire-HasReceived s who rxlen (bytes_of answer) t r' (omega arith) near in
      (
        t,
        run',
        r'.sent,
        λ some_left full.
            let pending = irq some_left full in
            let (w, done', got') =
              rx_done-HasReceived s who rxlen (bytes_of answer) t r' (omega arith) near pending in
            (pending, w, done', got'),
        u,
        done,
        got,
      )
