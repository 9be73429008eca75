-- ===== src/Control/Message.antt =====
-- What a message makes of the fan in the round behind it.
use ventilation_system_proje.Common.{
  ◌≡◌, refl, sym, ap, ◌∙◌, subst, inl, inr, Bool, true, false, not, some, ltb, ◌==◌, if◌then◌else◌,
  Bool-cases, Option-cases, sub_u32,
}
use ventilation_system_proje.Common.Int.{ℤ, pos, ◌*ℤ◌, to_u16}
use ventilation_system_proje.Input.{return_state}
use ventilation_system_proje.CommHandler.{is_zero}
use ventilation_system_proje.CommHandler.Settings.{Settings, set_manual}
use ventilation_system_proje.Fan.{Fan, set_speed}
use ventilation_system_proje.Display.Menus.{Readings, MainState, main_menu}
use ventilation_system_proje.Control.{send_delay, Board, served, Round, Loop, equal_ℤ, limited}
use ventilation_system_proje.Control.Body.{
  readings, menu_state, page_part, manual_part, is_adjust_time, adjust_now, automatic_part,
  control_part, send_part, yield_part, round,
}

-- Without a button the main page changes nothing.
unpressed : (r : Readings) (m : MainState) → return_state m.inputs ≡ false → (main_menu r m).0 ≡ m
unfolding main_menu
unpressed r m e = elim (Bool-cases (m.display_mode == 0)) [
  | inl zero_mode ↦ rw (e, zero_mode) refl
  | inr other ↦ elim (Bool-cases (m.display_mode == 1)) [
    | inl one_mode ↦ rw (e, other, one_mode) refl
    | inr none_mode ↦ rw (e, other, none_mode) refl
  ]
]

mode_bit : (b : Bool) → not ((if b then 1 else 0) == 0) ≡ b
mode_bit true = refl
mode_bit false = refl

module _ (board : Board) where
  -- Behind a message the settings are its own.
  message_settings :
      (r : Round) (s : Loop board) (v aut : ℤ)
      → r.message ≡ some (v, aut)
      → (round board true r s).0.settings ≡ record { setpoint = v; manual = is_zero aut }
  unfolding round yield_part
  message_settings r s v aut e = rw e refl

  page_still :
      (r : Round) (s : Loop board)
      → return_state (served r.before_page s.inputs) ≡ false
      → (page_part board r s).0 ≡ record s { inputs = served r.before_page s.inputs }
  unfolding page_part
  page_still r s e =
      let same = unpressed (readings board s) (menu_state board r s) e in
      ap
        (λ (x : MainState). record s {
          inputs = x.inputs;
          display_mode = x.display_mode;
          settings = set_manual (not (x.mode == 0)) s.settings;
        })
        same
      ∙ ap
          (λ c. record s {
            inputs = served r.before_page s.inputs;
            settings = set_manual c s.settings;
          })
          (mode_bit s.settings.manual)

  -- The parts behind keep what the control has set.
  behind_lem :
      (use_wifi mode : Bool) (r : Round) (s : Loop board)
      → let u = yield_part board use_wifi r (send_part board use_wifi mode r s).0 in
        (u.speed_val ≡ s.speed_val) × (u.pres_val ≡ s.pres_val) × (u.fan ≡ s.fan)
  unfolding yield_part send_part
  behind_lem false mode r s = elim (Bool-cases (ltb send_delay (sub_u32 r.send_at s.send_time))) [
    | inl due ↦ rw due (refl, refl, refl)
    | inr early ↦ rw early (refl, refl, refl)
  ]
  behind_lem true mode r s = elim (Option-cases r.message) [
    | inl e ↦ elim (Bool-cases (ltb send_delay (sub_u32 r.send_at s.send_time))) [
      | inl due ↦ rw (e, due) (refl, refl, refl)
      | inr early ↦ rw (e, early) (refl, refl, refl)
    ]
    | inr (m, e) ↦ elim (Bool-cases (ltb send_delay (sub_u32 r.send_at s.send_time))) [
      | inl due ↦ rw (e, due) (refl, refl, refl)
      | inr early ↦ rw (e, early) (refl, refl, refl)
    ]
  ]

  -- What the control part sets when the set point is new, wherever the encoder is.
  manual_lem :
      (r : Round) (s : Loop board)
      → equal_ℤ s.settings.setpoint s.old_set_point ≡ false
      → let u = manual_part board r s in
        let val = limited 100 s.settings.setpoint in
        (u.speed_val ≡ val) × (u.fan.speed ≡ pos (to_u16 (val *ℤ 10)))
  unfolding manual_part set_speed
  manual_lem r s new = rw new (refl, refl)

  automatic_lem :
      (r : Round) (s : Loop board)
      → equal_ℤ s.settings.setpoint s.old_set_point ≡ false
      → (automatic_part board r s).pres_val ≡ limited 120 s.settings.setpoint
  unfolding automatic_part adjust_now
  automatic_lem r s new = elim (Bool-cases (is_adjust_time board r.adjust_at s.adjust_time)) [
    | inl due ↦ rw (new, due) refl
    | inr early ↦ rw (new, early) refl
  ]

  -- The values that a set point is to be taken over to.
  abbrev pub TakesOver : ℤ → Bool → Loop board → Type 0
  TakesOver v manual u =
      (manual ≡ true
        → (u.speed_val ≡ limited 100 v) × (u.fan.speed ≡ pos (to_u16 (limited 100 v *ℤ 10))))
      × (manual ≡ false → u.pres_val ≡ limited 120 v)

  control_lem :
      (r : Round) (s : Loop board)
      → equal_ℤ s.settings.setpoint s.old_set_point ≡ false
      → TakesOver s.settings.setpoint s.settings.manual (control_part board r s)
  control_lem r s new = (
    λ e.
        subst
          (λ (u : Loop board).
            (u.speed_val ≡ limited 100 s.settings.setpoint)
            × (u.fan.speed ≡ pos (to_u16 (limited 100 s.settings.setpoint *ℤ 10))))
          (ap (λ b. if b then manual_part board r s else automatic_part board r s) (sym e))
          (manual_lem r s new),
    λ e.
        ap (λ (b : Bool). (if b then manual_part board r s else automatic_part board r s).pres_val)
          e
        ∙ automatic_lem r s new,
  )

  round_lem :
      (use_wifi : Bool) (r : Round) (s : Loop board)
      → return_state (served r.before_page s.inputs) ≡ false
      → equal_ℤ s.settings.setpoint s.old_set_point ≡ false
      → TakesOver s.settings.setpoint s.settings.manual (round board use_wifi r s).0
  unfolding round
  round_lem use_wifi r s e new =
      let p = (page_part board r s).0 in
      let still = page_still r s e in
      let done : TakesOver s.settings.setpoint s.settings.manual (control_part board r p) =
        subst
          (λ (q : Loop board).
            TakesOver s.settings.setpoint s.settings.manual (control_part board r q))
          (sym still) (control_lem r (record s { inputs = served r.before_page s.inputs }) new) in
      let (speed, pres, f) = behind_lem use_wifi p.settings.manual r (control_part board r p) in
      (
        λ m. (speed ∙ (done.0 m).0, ap (λ (x : Fan). x.speed) f ∙ (done.0 m).1),
        λ m. pres ∙ done.1 m,
      )

  -- A message with the numbers `v` and `aut` comes in a round, whatever else happens in it. If no
  -- button is pressed when the next round draws its page, and `v` is not the set point that was
  -- last taken over, then with `aut` 0 the next round sets the speed to `v`, limited to 0 to 100
  -- percent, and the fan to ten times that; with another `aut` it sets the target pressure to `v`,
  -- limited to 0 to 120.
  pub message_lem :
      (r next : Round) (s : Loop board) (v aut : ℤ)
      → r.message ≡ some (v, aut)
      → let s1 = (round board true r s).0 in
        return_state (served next.before_page s1.inputs) ≡ false
        → equal_ℤ v s1.old_set_point ≡ false
        → TakesOver v (is_zero aut) (round board true next s1).0
  message_lem r next s v aut e unpressed_button new =
      let s1 = (round board true r s).0 in
      let set = message_settings r s v aut e in
      subst (λ (x : Settings). TakesOver x.setpoint x.manual (round board true next s1).0) set
        (round_lem true next s1 unpressed_button
          (ap (λ (x : Settings). equal_ℤ x.setpoint s1.old_set_point) set ∙ new))
