-- ===== src/Control/Bounds.antt =====
-- The values of the control loop stay in their ranges.
use ventilation_system_proje.Common.{
  ℕ, ◌≤◌, ◌≡◌, refl, inl, inr, Bool, true, false, List, [], ◌∷◌, arith, dec_lt, ltb, if◌then◌else◌,
  Bool-cases, Option-cases, sub_u32,
}
use ventilation_system_proje.Common.Int.{ℤ, pos, negsuc, ◌*ℤ◌, to_u16}
use ventilation_system_proje.Fan.{set_speed}
use ventilation_system_proje.Fan.Control.{IsSpeed, adjust_speed-IsSpeed}
use ventilation_system_proje.Control.{send_delay, Board, Round, Loop, turn, take_over, limited}
use ventilation_system_proje.Control.Body.{
  page_part, manual_part, is_adjust_time, adjust_now, automatic_part, control_part, send_part,
  yield_part, round, rounds,
}

-- A number from zero to a limit.
abbrev pub IsWithin : ℕ → ℤ → Type 0
IsWithin high v = (n : ℕ) × (v ≡ pos n) × (n ≤ high)

pub limited-IsWithin : (high : ℕ) (v : ℤ) → IsWithin high (limited high v)
limited-IsWithin high (pos n) = elim (dec_lt high n) [
  | yes above ↦ (high, ground arith, omega arith)
  | no below ↦ (n, ground arith, omega arith)
]
limited-IsWithin high (negsuc n) = (0, ground arith, omega arith)

tenfold : (v : ℤ) → IsWithin 100 v → to_u16 (v *ℤ 10) ≤ 1000
tenfold v (n, e, h) = rw e (ground arith)

module _ (board : Board) where
  pub record IsBounded (s : Loop board) : Type 0 where
    pub percent : IsWithin 100 s.speed_val
    pub target : IsWithin 120 s.pres_val
    pub speed : IsSpeed s.fan.speed

  either :
      (b : Bool) (x y : Loop board) → IsBounded x → IsBounded y → IsBounded (if b then x else y)
  either true x y v w = v
  either false x y v w = w

  page_part-IsBounded :
      (r : Round) (s : Loop board) → IsBounded s → IsBounded (page_part board r s).0
  unfolding page_part
  page_part-IsBounded r s v = record { percent = v.percent; target = v.target; speed = v.speed }

  manual_part-IsBounded :
      (r : Round) (s : Loop board) → IsBounded s → IsBounded (manual_part board r s)
  unfolding manual_part set_speed
  manual_part-IsBounded r s v =
      let t = turn r s.speed_val s.prevval s.inputs in
      let val = limited 100 (take_over s.settings.setpoint s.old_set_point t.turned_val) in
      let within : IsWithin 100 val =
        limited-IsWithin 100 (take_over s.settings.setpoint s.old_set_point t.turned_val) in
      record {
        percent = within;
        target = v.target;
        speed = (to_u16 (val *ℤ 10), refl, tenfold val within);
      }

  adjust_now-IsBounded :
      (r : Round) (s : Loop board) → IsBounded s → IsBounded (adjust_now board r s)
  unfolding adjust_now
  adjust_now-IsBounded r s v = record {
    percent = v.percent;
    target = v.target;
    speed = adjust_speed-IsSpeed board.hw s.pres_val s.fan s.world v.speed;
  }

  automatic_part-IsBounded :
      (r : Round) (s : Loop board) → IsBounded s → IsBounded (automatic_part board r s)
  unfolding automatic_part
  automatic_part-IsBounded r s v =
      let t = turn r s.pres_val s.prevval s.inputs in
      let val = limited 120 (take_over s.settings.setpoint s.old_set_point t.turned_val) in
      let s1 : Loop board = record s {
        pres_val = val;
        prevval = t.kept_val;
        inputs = t.left_inputs;
        old_set_point = s.settings.setpoint;
      } in
      let w : IsBounded s1 = record {
        percent = v.percent;
        target = limited-IsWithin 120 (take_over s.settings.setpoint s.old_set_point t.turned_val);
        speed = v.speed;
      } in
      either (is_adjust_time board r.adjust_at s.adjust_time) (adjust_now board r s1) s1
        (adjust_now-IsBounded r s1 w) w

  control_part-IsBounded :
      (r : Round) (s : Loop board) → IsBounded s → IsBounded (control_part board r s)
  control_part-IsBounded r s v =
      either s.settings.manual (manual_part board r s) (automatic_part board r s)
        (manual_part-IsBounded r s v) (automatic_part-IsBounded r s v)

  send_part-IsBounded :
      (use_wifi mode : Bool) (r : Round) (s : Loop board)
      → IsBounded s
      → IsBounded (send_part board use_wifi mode r s).0
  unfolding send_part
  send_part-IsBounded use_wifi mode r s v =
      elim (Bool-cases (ltb send_delay (sub_u32 r.send_at s.send_time))) [
        | inl due ↦ rw due (record { percent = v.percent; target = v.target; speed = v.speed })
        | inr early ↦ rw early v
      ]

  yield_part-IsBounded :
      (use_wifi : Bool) (r : Round) (s : Loop board)
      → IsBounded s
      → IsBounded (yield_part board use_wifi r s)
  unfolding yield_part
  yield_part-IsBounded false r s v = v
  yield_part-IsBounded true r s v = elim (Option-cases r.message) [
    | inl e ↦ rw e v
    | inr (m, e) ↦ rw e (record { percent = v.percent; target = v.target; speed = v.speed })
  ]

  round-IsBounded :
      (use_wifi : Bool) (r : Round) (s : Loop board)
      → IsBounded s
      → IsBounded (round board use_wifi r s).0
  unfolding round
  round-IsBounded use_wifi r s v =
      let s1 = (page_part board r s).0 in
      let v1 = page_part-IsBounded r s v in
      let v2 = control_part-IsBounded r s1 v1 in
      let v3 = send_part-IsBounded use_wifi s1.settings.manual r (control_part board r s1) v2 in
      yield_part-IsBounded use_wifi r
        (send_part board use_wifi s1.settings.manual r (control_part board r s1)).0 v3

  -- Whatever comes from outside, the interrupts in any number and at any place, the clock and the
  -- messages with any numbers, every round of the control loop keeps the speed between 0 and 100
  -- percent, the target pressure between 0 and 120, and the speed of the fan between 0 and 1000.
  pub rounds-IsBounded :
      (use_wifi : Bool) (rs : List Round) (s : Loop board)
      → IsBounded s
      → IsBounded (rounds board use_wifi rs s)
  unfolding rounds
  rounds-IsBounded use_wifi [] s v = v
  rounds-IsBounded use_wifi (r ∷ rs) s v =
      rounds-IsBounded use_wifi rs (round board use_wifi r s).0 (round-IsBounded use_wifi r s v)
