-- ===== src/Modbus/Bus.antt =====
-- The controller of the MODBUS line, src/modbus_handler/modbus_controller.h and
-- modbus_controller.cpp, with the calls of src/pico_hw/dma_channel.cpp that it makes.
pub mod Safe
pub mod Timeout
pub mod Receiving
pub mod Transfer
pub mod Value
mod Tests
use ventilation_system_proje.Common.{
  ℕ, zero, suc, ◌+◌, ◌-◌, ◌*◌, ◌/◌, ◌%◌, ◌^◌, ◌≡◌, Bool, true, false, not, ◌&&◌, ◌||◌, Option, none,
  some, List, [], ◌∷◌, ◌>>=◌, ltb, leb, ◌==◌, if◌then◌else◌, length, set, drop, u8, u32, sub_u32,
  sub_u64,
}
use ventilation_system_proje.Modbus.{ModbusRegister, frame}

-- Where the program stands in `start`: an interrupt may come between any two of its parts.
pub data Phase : Type 0 where
  outside : Phase
  begun launched : ℕ → ℕ → ℕ → Phase

abbrev pub is_outside : Phase → Bool
is_outside outside = true
is_outside _ = false

abbrev pub is_begun : Phase → Bool
is_begun (begun who rxlen timeout_ms) = true
is_begun _ = false

abbrev pub is_launched : Phase → Bool
is_launched (launched who rxlen timeout_ms) = true
is_launched _ = false

-- The fields of `ModbusCtrl`, and the hardware that it drives: the clock in microseconds, the
-- target of the alarm, the receiving channel (the register and the place in its buffer where it
-- writes next, the bytes left, its interrupt) and the bytes left to the sending channel.
-- `registers` are the register objects, by a number that stands for their address.
pub record ModbusCtrl : Type 0 where
  pub registers : ℕ → ModbusRegister
  pub current_user : Option ℕ
  pub uart_baud : ℕ
  pub busy : Bool
  pub ctrl_time : ℕ
  pub now : ℕ
  pub alarm : Option ℕ
  pub rx_user : ℕ
  pub rx_offset : ℕ
  pub rx_left : ℕ
  pub rx_irq : Bool
  pub tx : List ℕ
  pub phase : Phase

-- The constructor; the channels have not been given an address yet.
abbrev pub modbus_ctrl : ℕ → ℕ → (ℕ → ModbusRegister) → ModbusCtrl
modbus_ctrl baud time registers = record {
  registers = registers;
  current_user = none;
  uart_baud = baud;
  busy = false;
  ctrl_time = 0;
  now = time;
  alarm = none;
  rx_user = 0;
  rx_offset = 0;
  rx_left = 0;
  rx_irq = false;
  tx = [];
  phase = outside;
}

abbrev pub get_char_delay : ℕ → ℕ
get_char_delay baud = 8 * 1000000 * 4 / baud

abbrev pub isbusy : ModbusCtrl → Bool
isbusy s = s.busy

abbrev pub with_register : ℕ → ModbusRegister → (ℕ → ModbusRegister) → ℕ → ModbusRegister
with_register who r registers k = if k == who then r else registers k

-- The condition of the loop with which `start` waits.
abbrev pub must_wait : ModbusCtrl → Bool
must_wait s = s.busy || ltb (sub_u64 s.now s.ctrl_time) (get_char_delay s.uart_baud)

-- `DMAChannel::start` of the two channels.
abbrev pub rx_start : ℕ → ℕ → ModbusCtrl → ModbusCtrl
rx_start who len s = record s { rx_user = who; rx_offset = 0; rx_left = len }

abbrev pub tx_start : List ℕ → ModbusCtrl → ModbusCtrl
tx_start bytes s = record s { tx = bytes }

-- The three parts of `start` behind the wait: up to `current_user`, the channels, the alarm.
abbrev pub start_begin : ℕ → ℕ → ℕ → ModbusCtrl → ModbusCtrl
start_begin who rxlen timeout_ms s = record s {
  busy = true;
  current_user = some who;
  phase = begun who rxlen timeout_ms;
}

abbrev pub start_channels : ℕ → ℕ → ℕ → ModbusCtrl → ModbusCtrl
start_channels who rxlen timeout_ms s =
    let s1 = rx_start who rxlen s in
    let s2 = tx_start (frame (s1.registers who)) s1 in
    record s2 { phase = launched who rxlen timeout_ms }

abbrev pub start_alarm : ℕ → ModbusCtrl → ModbusCtrl
start_alarm timeout_ms s = record s {
  alarm = if timeout_ms == 0 then s.alarm else some (s.now + timeout_ms * 1000);
  phase = outside;
}

-- The part of `start` that the phase asks for.
abbrev pub go_on : Phase → ModbusCtrl → ModbusCtrl
go_on outside s = s
go_on (begun who rxlen timeout_ms) s = start_channels who rxlen timeout_ms s
go_on (launched who rxlen timeout_ms) s = start_alarm timeout_ms s

-- `DMAChannel::abort` of both channels: a channel keeps its address.
abbrev pub abort : ModbusCtrl → ModbusCtrl
abort s = record s { rx_left = 0; tx = [] }

-- What can happen next: time passes, a byte comes in or goes out, an interrupt is served, or the
-- program goes on with `start`. `fire_inside` is the alarm in the middle of `start`.
pub data Event : Type 0 where
  pass receive : ℕ → Event
  transmit rx_done fire fire_inside channels arm : Event
  begin : ℕ → ℕ → ℕ → Event

-- When a transfer was started and when `end` was run.
pub data Mark : Type 0 where
  started ended : ℕ → Mark

abbrev pub mark : Event → ModbusCtrl → List Mark → List Mark
mark rx_done s ms = ended s.now ∷ ms
mark fire s ms = ended s.now ∷ ms
mark fire_inside s ms = ended s.now ∷ ms
mark (begin who rxlen timeout_ms) s ms = started s.now ∷ ms
mark _ s ms = ms

-- `rxbuf_at` is the address of the receive buffer of a register.
module _ (rxbuf_at : ℕ → ℕ) where
  -- `none` is a null pointer that is read.
  unfoldable pub end : Bool → ModbusCtrl → Option ModbusCtrl
  end timeout s =
      let s1 = if timeout then abort s else s in
      do
        user ← s1.current_user
        let r = s1.registers user
        let written = u8 (sub_u32 (rxbuf_at s1.rx_user + s1.rx_offset) (rxbuf_at user))
        some (record s1 {
          ctrl_time = s1.now;
          busy = false;
          registers = with_register user (record r { rx_len = written }) s1.registers;
        })

  unfoldable pub dma_irq_handler : ModbusCtrl → Option ModbusCtrl
  unfolding end
  dma_irq_handler s = if s.rx_irq then end false (record s { rx_irq = false }) else some s

  -- The hardware disarms an alarm when it calls back.
  unfoldable pub alarm_hand : ModbusCtrl → Option ModbusCtrl
  unfolding end
  alarm_hand s = end true (record s { alarm = none })

  -- The receiving channel writes a byte; `none` is a write behind the buffer. The interrupt is
  -- raised with the last byte.
  unfoldable pub dma_receive : ℕ → ModbusCtrl → Option ModbusCtrl
  dma_receive v s =
      let r = s.registers s.rx_user in
      if ltb s.rx_offset (length r.rxbuf)
      then some (record s {
        registers =
            with_register s.rx_user (record r { rxbuf = set r.rxbuf s.rx_offset v }) s.registers;
        rx_offset = s.rx_offset + 1;
        rx_left = s.rx_left - 1;
        rx_irq = s.rx_left == 1;
      })
      else none

  -- An alarm fires behind its target only.
  abbrev pub is_due : ModbusCtrl → Bool
  is_due s = elim s.alarm [ none ↦ false | some t ↦ leb t s.now ]

  -- The program goes on only when no interrupt is pending.
  unfoldable pub enabled : Event → ModbusCtrl → Bool
  enabled (pass us) s = true
  enabled (receive v) s = ltb 0 s.rx_left
  enabled transmit s = ltb 0 (length s.tx)
  enabled rx_done s = s.rx_irq
  enabled fire s = is_outside s.phase && is_due s
  enabled fire_inside s = not (is_outside s.phase) && is_due s
  enabled channels s = not s.rx_irq && is_begun s.phase
  enabled arm s = not s.rx_irq && is_launched s.phase
  enabled (begin who rxlen timeout_ms) s = not s.rx_irq && (is_outside s.phase && not (must_wait s))

  unfoldable pub step : Event → ModbusCtrl → Option ModbusCtrl
  unfolding dma_receive dma_irq_handler alarm_hand
  step (pass us) s = some (record s { now = s.now + us })
  step (receive v) s = dma_receive v s
  step transmit s = some (record s { tx = drop 1 s.tx })
  step rx_done s = dma_irq_handler s
  step fire s = alarm_hand s
  step fire_inside s = alarm_hand s
  step channels s = some (go_on s.phase s)
  step arm s = some (go_on s.phase s)
  step (begin who rxlen timeout_ms) s = some (start_begin who rxlen timeout_ms s)

  -- A run of events that were possible, the newest first, and what it came to.
  pub data Runs (s : ModbusCtrl) : List Event → List Mark → ModbusCtrl → Type 0 where
    here : Runs s [] [] s
    next :
        {es : List Event} {ms : List Mark} {t u : ModbusCtrl} (e : Event)
        → Runs s es ms t
        → enabled e t ≡ true
        → step e t ≡ some u
        → Runs s (e ∷ es) (mark e t ms) u
