-- ===== src/Modbus/Bus/Safe.antt =====
-- When the controller of the MODBUS line starts a transfer.
use ventilation_system_proje.Common.{
  ℕ, ◌+◌, ◌*◌, ◌/◌, ◌^◌, ◌≤◌, ◌<◌, ◌≡◌, Bool, true, false, some, List, [], ◌∷◌, arith, ltb, ltb→le,
  All, sub_u64,
}
use ventilation_system_proje.Modbus.{ModbusRegister}
use ventilation_system_proje.Modbus.Bus.{
  is_begun, ModbusCtrl, modbus_ctrl, get_char_delay, Event, pass, receive, transmit, rx_done, fire,
  fire_inside, channels, arm, begin, Mark, started, ended, mark, end, dma_irq_handler, alarm_hand,
  dma_receive, enabled, step, Runs, here, next,
}

-- Before a start at a time there is nothing, or an end that lies a delay back.
abbrev pub IsFree : ℕ → ℕ → List Mark → Type 0
IsFree delay time [] = Unit
IsFree delay time (ended u ∷ ms) = u + delay ≤ time
IsFree delay time (started u ∷ ms) = ⊥

abbrev pub IsSpaced : ℕ → List Mark → Type 0
IsSpaced delay [] = Unit
IsSpaced delay (ended u ∷ ms) = IsSpaced delay ms
IsSpaced delay (started u ∷ ms) = IsFree delay u ms × IsSpaced delay ms

abbrev pub IsLatest : ℕ → List Mark → Type 0
IsLatest time [] = Unit
IsLatest time (ended u ∷ ms) = u ≡ time
IsLatest time (started u ∷ ms) = ⊥

-- The alarm does not fire in the middle of `start`.
abbrev pub is_calm : Event → Bool
is_calm fire_inside = false
is_calm _ = true

-- The receiver runs only while the controller is busy, so that a transfer never starts into
-- another; `spaced` is about the times.
pub record IsSafe (baud : ℕ) (ms : List Mark) (s : ModbusCtrl) : Type 0 where
  pub same_baud : s.uart_baud ≡ baud
  pub past : s.ctrl_time ≤ s.now
  pub spaced : IsSpaced (get_char_delay baud) ms
  pub latest : s.busy ≡ false → IsLatest s.ctrl_time ms
  pub marked : is_begun s.phase ≡ true → s.busy ≡ true
  pub quiet : is_begun s.phase ≡ true → (s.rx_left ≡ 0) × (s.rx_irq ≡ false)
  pub last : s.rx_irq ≡ true → s.rx_left ≡ 0
  pub receiving : 0 < s.rx_left → s.busy ≡ true

free :
    (delay now time : ℕ) (ms : List Mark)
    → IsLatest time ms
    → time ≤ now
    → now < 2 ^ 64
    → ltb (sub_u64 now time) delay ≡ false
    → IsFree delay now ms
free delay now time [] l p h w = tt
free delay now time (ended u ∷ ms) l p h w = ground (arith, ltb→le (sub_u64 now time) delay w)
free delay now time (started u ∷ ms) l p h w = absurd l

module _ (rxbuf_at : ℕ → ℕ) where
  step-now : (e : Event) (s u : ModbusCtrl) → step rxbuf_at e s ≡ some u → s.now ≤ u.now
  unfolding step dma_receive dma_irq_handler alarm_hand end
  step-now (pass us) s u h = ground arith
  step-now (receive v) s u h = ground arith
  step-now transmit s u h = ground arith
  step-now rx_done s u h = ground arith
  step-now fire s u h = ground arith
  step-now fire_inside s u h = ground arith
  step-now channels s u h = ground arith
  step-now arm s u h = ground arith
  step-now (begin who rxlen timeout_ms) s u h = ground arith

  step-IsSafe :
      (baud : ℕ) (e : Event) (ms : List Mark) (s u : ModbusCtrl)
      → IsSafe baud ms s
      → is_calm e ≡ true
      → s.now < 2 ^ 64
      → enabled rxbuf_at e s ≡ true
      → step rxbuf_at e s ≡ some u
      → IsSafe baud (mark e s ms) u
  unfolding step enabled dma_receive dma_irq_handler alarm_hand end
  step-IsSafe baud (pass us) ms s u v calm early able h = ground arith
  step-IsSafe baud (receive b) ms s u v calm early able h = ground arith
  step-IsSafe baud transmit ms s u v calm early able h = ground arith
  step-IsSafe baud rx_done ms s u v calm early able h = ground arith
  step-IsSafe baud fire ms s u v calm early able h = ground arith
  step-IsSafe baud fire_inside ms s u v calm early able h = cc
  step-IsSafe baud channels ms s u v calm early able h = ground arith
  step-IsSafe baud arm ms s u v calm early able h = ground arith
  step-IsSafe baud (begin who rxlen timeout_ms) ms s u v calm early able h =
      ground (arith, free (get_char_delay baud) s.now s.ctrl_time ms)

  Runs-IsSafe :
      (baud : ℕ) {s : ModbusCtrl} {es : List Event} {ms : List Mark} {t : ModbusCtrl}
      → IsSafe baud [] s
      → Runs rxbuf_at s es ms t
      → All (λ e. is_calm e ≡ true) es
      → t.now < 2 ^ 64
      → IsSafe baud ms t
  Runs-IsSafe baud v here calm early = v
  Runs-IsSafe baud v (next {es} {ms} {t} {u} e r able h) calm early =
      let before : t.now < 2 ^ 64 = omega (arith, step-now e t u h) in
      step-IsSafe baud e ms t u (Runs-IsSafe baud v r calm.1 before) calm.0 before able h

  -- In every run from the constructor in which the alarm does not fire in the middle of `start`,
  -- and within the clock's 64 bits, between two transfers there is an end, each transfer starts at
  -- least the time of 32 bits, in whole microseconds, behind the last end, and the receiver runs
  -- only while the controller is busy, so that no transfer starts into another.
  pub Runs-IsSpaced :
      (baud time : ℕ) (registers : ℕ → ModbusRegister) (es : List Event) (ms : List Mark)
      (s : ModbusCtrl)
      → Runs rxbuf_at (modbus_ctrl baud time registers) es ms s
      → All (λ e. is_calm e ≡ true) es
      → s.now < 2 ^ 64
      → IsSpaced (32 * 1000000 / baud) ms × (0 < s.rx_left → s.busy ≡ true)
  Runs-IsSpaced baud time registers es ms s r calm early =
      let v : IsSafe baud [] (modbus_ctrl baud time registers) = ground arith in
      let w = Runs-IsSafe baud v r calm early in (w.spaced, w.receiving)
