-- ===== src/Modbus/Bus/Timeout.antt =====
-- The timeout of the controller of the MODBUS line.
use ventilation_system_proje.Common.{
  ℕ, ◌+◌, ◌-◌, ◌*◌, ◌≤◌, ◌<◌, ◌≡◌, refl, ◌≢◌, inl, inr, Bool, true, false, ◌&&◌, Option, none, some,
  List, [], ◌∷◌, arith, ltb, leb, Option-cases, All,
}
use ventilation_system_proje.Modbus.{ModbusRegister}
use ventilation_system_proje.Modbus.Bus.{
  Phase, outside, begun, launched, is_outside, ModbusCtrl, modbus_ctrl, Event, pass, receive,
  transmit, rx_done, fire, fire_inside, channels, arm, begin, Mark, ended, end, dma_irq_handler,
  alarm_hand, dma_receive, enabled, step, Runs, here, next,
}

-- The alarm does not fire in the middle of `start`, and a start has a timeout of up to `limit`
-- milliseconds.
abbrev pub is_timed : ℕ → Event → Bool
is_timed limit fire_inside = false
is_timed limit (begin who rxlen timeout_ms) = ltb 0 timeout_ms && leb timeout_ms limit
is_timed limit _ = true

abbrev pub IsAsked : ℕ → Phase → Type 0
IsAsked limit outside = Unit
IsAsked limit (begun who rxlen timeout_ms) = (0 < timeout_ms) × (timeout_ms ≤ limit)
IsAsked limit (launched who rxlen timeout_ms) = (0 < timeout_ms) × (timeout_ms ≤ limit)

abbrev pub IsNear : ℕ → Option ℕ → Type 0
IsNear time none = Unit
IsNear time (some t) = t ≤ time

-- Behind `start` the alarm is set, at a time that is not too far away.
pub record IsWatched (limit : ℕ) (s : ModbusCtrl) : Type 0 where
  pub armed : s.busy ≡ true → is_outside s.phase ≡ true → s.alarm ≢ none
  pub near : IsNear (s.now + limit * 1000) s.alarm
  pub asked : IsAsked limit s.phase
  pub used : s.busy ≡ true → s.current_user ≢ none

module _ (rxbuf_at : ℕ → ℕ) where
  step-IsWatched :
      (limit : ℕ) (e : Event) (s u : ModbusCtrl)
      → IsWatched limit s
      → is_timed limit e ≡ true
      → enabled rxbuf_at e s ≡ true
      → step rxbuf_at e s ≡ some u
      → IsWatched limit u
  unfolding step enabled dma_receive dma_irq_handler alarm_hand end
  step-IsWatched limit (pass us) s u v calm able h = ground arith
  step-IsWatched limit (receive b) s u v calm able h = ground (arith, v.near, v.asked)
  step-IsWatched limit transmit s u v calm able h = ground arith
  step-IsWatched limit rx_done s u v calm able h = ground arith
  step-IsWatched limit fire s u v calm able h = ground arith
  step-IsWatched limit fire_inside s u v calm able h = cc
  step-IsWatched limit channels s u v calm able h = ground arith
  step-IsWatched limit arm s u v calm able h = ground arith
  step-IsWatched limit (begin who rxlen timeout_ms) s u v calm able h = ground arith

  Runs-IsWatched :
      (limit : ℕ) {s : ModbusCtrl} {es : List Event} {ms : List Mark} {t : ModbusCtrl}
      → IsWatched limit s
      → Runs rxbuf_at s es ms t
      → All (λ e. is_timed limit e ≡ true) es
      → IsWatched limit t
  Runs-IsWatched limit v here timed = v
  Runs-IsWatched limit v (next {es} {ms} {t} {u} e r able h) timed =
      step-IsWatched limit e t u (Runs-IsWatched limit v r timed.1) timed.0 able h

  freed :
      (s : ModbusCtrl)
      → s.current_user ≢ none
      → (u : ModbusCtrl) × (step rxbuf_at fire s ≡ some u) × (u.busy ≡ false)
  unfolding step alarm_hand end
  freed s h = elim (Option-cases (step rxbuf_at fire s)) [
    | inl e ↦ absurd (ground arith)
    | inr (u, e) ↦ (u, e, ground arith)
  ]

  -- Letting the time pass up to the target of the alarm, which then fires.
  watched_lem :
      (limit : ℕ) (s : ModbusCtrl)
      → IsWatched limit s
      → s.busy ≡ true
      → is_outside s.phase ≡ true
      → (us : ℕ) × (u : ModbusCtrl) × (us ≤ limit * 1000)
        × Runs rxbuf_at s (fire ∷ pass us ∷ []) (ended (s.now + us) ∷ []) u
        × (u.busy ≡ false)
  unfolding step enabled alarm_hand end
  watched_lem limit s v b o = elim (Option-cases s.alarm) [
    | inl e ↦ absurd (v.armed b o e)
    | inr (t, e) ↦
        let later : ModbusCtrl = record s { now = s.now + (t - s.now) } in
        let (u, done, open_again) = freed later (v.used b) in
        (
          t - s.now,
          u,
          ground (arith, v.near),
          next fire (next (pass (t - s.now)) here refl refl) (ground arith) done,
          open_again,
        )
  ]

  -- In every run from the constructor in which the alarm does not fire in the middle of `start`
  -- and each start has a timeout of 1 to `limit` milliseconds, whenever the controller is busy
  -- outside `start`, letting at most `limit` milliseconds pass brings the alarm, and its handler
  -- frees the controller, even if no byte of an answer comes.
  pub Runs-ends :
      (limit baud time : ℕ) (registers : ℕ → ModbusRegister) (es : List Event) (ms : List Mark)
      (s : ModbusCtrl)
      → Runs rxbuf_at (modbus_ctrl baud time registers) es ms s
      → All (λ e. is_timed limit e ≡ true) es
      → s.busy ≡ true
      → is_outside s.phase ≡ true
      → (us : ℕ) × (u : ModbusCtrl) × (us ≤ limit * 1000)
        × Runs rxbuf_at s (fire ∷ pass us ∷ []) (ended (s.now + us) ∷ []) u
        × (u.busy ≡ false)
  Runs-ends limit baud time registers es ms s r timed =
      let v : IsWatched limit (modbus_ctrl baud time registers) = ground arith in
      watched_lem limit s (Runs-IsWatched limit v r timed)
