-- ===== src/Control/Counting.antt =====
-- The calls of `adjust_speed` in the control loop, seen from the hardware.
use ventilation_system_proje.Common.{
  ℕ, ◌+◌, ◌≡◌, refl, ap, ◌∙◌, inl, inr, Bool, true, false, not, ◌&&◌, ltb, arith, if◌then◌else◌,
  Bool-cases, Option-cases, sub_u32,
}
use ventilation_system_proje.Common.Int.{ℤ, abs}
use ventilation_system_proje.Fan.{
  FanHardware, Fan, pressure_target_tolerance, pressure_distance, set_speed, adjust_speed,
}
use ventilation_system_proje.Control.{send_delay, Board, Round, Loop}
use ventilation_system_proje.Control.Body.{
  page_part, manual_part, is_adjust_time, adjust_now, automatic_part, control_part, send_part,
  yield_part, round,
}

-- The hardware with a count of the reads of the pressure sensor in front of its state. Each call of
-- `adjust_speed` reads it once, and nothing else in the loop does.
abbrev pub counting_hardware : FanHardware → FanHardware
counting_hardware hw = record {
  World = ℕ × hw.World;
  get_pressure = λ w. let (p, w') = hw.get_pressure w.1 in (p, (w.0 + 1, w'));
  read_counter = λ w. let (c, w') = hw.read_counter w.1 in (c, (w.0, w'));
  send_speed = λ speed w. (w.0, hw.send_speed speed w.1);
  now_ms = λ w. hw.now_ms w.1;
}

abbrev pub counting : Board → Board
counting board = record {
  hw = counting_hardware board.hw;
  F = board.F;
  temp = λ w. board.temp w.1;
  co = λ w. board.co w.1;
  rh = λ w. board.rh w.1;
  absh = λ w. board.absh w.1;
  to_int = board.to_int;
  transfers = λ w. (w.0, board.transfers w.1);
}

adjust_speed-counts :
    (hw : FanHardware) (target : ℤ) (f : Fan) (w : ℕ × hw.World)
    → (adjust_speed (counting_hardware hw) target f w).1.0 ≡ w.0 + 1
unfolding adjust_speed pressure_distance
adjust_speed-counts hw target f w =
    let near =
      ltb (abs (pressure_distance (counting_hardware hw) target f w).0) pressure_target_tolerance in
    elim (Bool-cases near) [ inl e ↦ rw e refl | inr e ↦ rw e refl ]

module _ (board : Board) where
  -- How many calls there were.
  abbrev pub adjusted_calls : Loop (counting board) → ℕ
  adjusted_calls s = s.world.0

  control_counts :
      (r : Round) (s : Loop (counting board))
      → adjusted_calls (control_part (counting board) r s)
        ≡ adjusted_calls s
          + (if not s.settings.manual && is_adjust_time (counting board) r.adjust_at s.adjust_time
              then 1
              else 0)
  unfolding manual_part set_speed automatic_part adjust_now
  control_counts r s = elim (Bool-cases s.settings.manual) [
    | inl e ↦ rw e (omega arith)
    | inr e ↦ elim (Bool-cases (is_adjust_time (counting board) r.adjust_at s.adjust_time)) [
      | inl due ↦ rw (e, due) (adjust_speed-counts board.hw _ s.fan s.world)
      | inr early ↦ rw (e, early) (omega arith)
    ]
  ]

  send_counts :
      (use_wifi mode : Bool) (r : Round) (s : Loop (counting board))
      → adjusted_calls (send_part (counting board) use_wifi mode r s).0 ≡ adjusted_calls s
  unfolding send_part
  send_counts use_wifi mode r s =
      elim (Bool-cases (ltb send_delay (sub_u32 r.send_at s.send_time))) [
        | inl due ↦ rw due refl
        | inr early ↦ rw early refl
      ]

  yield_counts :
      (use_wifi : Bool) (r : Round) (s : Loop (counting board))
      → adjusted_calls (yield_part (counting board) use_wifi r s) ≡ adjusted_calls s
  unfolding yield_part
  yield_counts false r s = refl
  yield_counts true r s = elim (Option-cases r.message) [
    | inl e ↦ rw e refl
    | inr (m, e) ↦ rw e refl
  ]

  page_counts :
      (r : Round) (s : Loop (counting board))
      → (adjusted_calls (page_part (counting board) r s).0 ≡ adjusted_calls s)
        × ((page_part (counting board) r s).0.adjust_time ≡ s.adjust_time)
  unfolding page_part
  page_counts r s = (refl, refl)

  -- A round calls `adjust_speed` once if the page leaves the automatic mode and the time has come.
  pub round_counts :
      (use_wifi : Bool) (r : Round) (s : Loop (counting board))
      → adjusted_calls (round (counting board) use_wifi r s).0
        ≡ adjusted_calls s
          + (if not (page_part (counting board) r s).0.settings.manual
                && is_adjust_time (counting board) r.adjust_at s.adjust_time
              then 1
              else 0)
  unfolding round
  round_counts use_wifi r s =
      let s1 = (page_part (counting board) r s).0 in
      let s2 = control_part (counting board) r s1 in
      yield_counts use_wifi r (send_part (counting board) use_wifi s1.settings.manual r s2).0
      ∙ send_counts use_wifi s1.settings.manual r s2
      ∙ control_counts r s1
      ∙ ap
          (λ t.
            adjusted_calls s1
            + (if not s1.settings.manual && is_adjust_time (counting board) r.adjust_at t
                then 1
                else 0))
          (page_counts r s).1
      ∙ ap
          (λ n.
            n
            + (if not s1.settings.manual
                  && is_adjust_time (counting board) r.adjust_at s.adjust_time
                then 1
                else 0))
          (page_counts r s).0
