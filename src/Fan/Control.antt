-- ===== src/Fan/Control.antt =====
-- What `FAN::adjust_speed` and `FAN::is_spinning` do in each case, over any hardware.
use ventilation_system_proje.Common.{
  ◌↔◌, ◌≢◌, ◌==◌, dec_lt, subst, ltb→le, min, zero, suc, ℕ, zero, suc, ◌+◌, ◌*◌, ◌/◌, ◌-◌, ◌≤◌, ◌<◌,
  ◌≡◌, ◌≢◌, ◌⊎◌, inl, inr, refl, ap, ◌∙◌, min, arith, ltb, ltb→lt, if◌then◌else◌, true, Bool-cases,
  sub_u32, lt→ltb, ◌==◌, le→ltb,
}
use ventilation_system_proje.Common.Int.{ℤ, pos, negsuc, ◌-ℤ◌, abs, to_u16}
use ventilation_system_proje.Fan.{
  check_counter, FanHardware, Fan, adjusted, clamped, adjust_speed, is_spinning, pressure_distance,
}
use ventilation_system_proje.Fan.Speed.{clamped-below, clamped-above}

-- The invariant: the speed is between 0 and 1000.
abbrev pub IsSpeed : ℤ → Type 0
IsSpeed v = (s : ℕ) × (v ≡ pos s) × (s ≤ 1000)

-- Which way the speed moves for a distance: up below the target and down above it, by at least 16
-- unless the end of the range is reached.
pub data Moves (s : ℕ) : ℤ → ℕ → Type 0 where
  up : (d s' : ℕ) → (s + 16 ≤ s') ⊎ (s' ≡ 1000) → s' ≤ 1000 → Moves s (pos d) s'
  down : (d s' : ℕ) → (s' + 16 ≤ s) ⊎ (s' ≡ 0) → s' ≤ 1000 → Moves s (negsuc d) s'

moves :
    (s : ℕ) (distance : ℤ)
    → s ≤ 1000
    → 5 ≤ abs distance
    → (s' : ℕ) × (clamped (adjusted (pos s) distance) ≡ pos s') × Moves s distance s'
moves s (pos d) h far = (
  min 1000 ((2 * s + d * 1000 / 150) / 2),
  clamped-below s d,
  up d _ (ground arith) (ground arith),
)
moves s (negsuc d) h far =
    ((2 * s - suc d * 1000 / 150) / 2, clamped-above s d h, down d _ (ground arith) (ground arith))

Moves-le : {s s' : ℕ} {d : ℤ} → Moves s d s' → s' ≤ 1000
Moves-le (up d s' a b) = b
Moves-le (down d s' a b) = b

Moves-up : {s s' d : ℕ} → Moves s (pos d) s' → (s + 16 ≤ s') ⊎ (s' ≡ 1000)
Moves-up (up d s' a b) = a

module _ (hw : FanHardware) where
  open hw use {World, get_pressure, read_counter, send_speed, now_ms}

  -- Outside the tolerance.
  pub record Adjusted (distance : ℤ) (s : ℕ) (f : Fan) (w1 : World) (out : Fan × World)
      : Type 0 where
    pub next : ℕ
    pub speed : out.0.speed ≡ pos next
    pub moved : Moves s distance next
    pub sent : out.1 ≡ send_speed next w1
    pub late : 30000 < sub_u32 (now_ms w1) f.error_time_ms → out.0.error ≡ true
    pub in_time : sub_u32 (now_ms w1) f.error_time_ms ≤ 30000 → out.0.error ≡ f.error
    pub kept_time : out.0.error_time_ms ≡ f.error_time_ms

  sent_exactly : {s' s : ℕ} {d : ℤ} → Moves s d s' → to_u16 (pos s') ≡ s'
  sent_exactly (up d s' a b) = omega arith
  sent_exactly (down d s' a b) = omega arith

  -- With a speed between 0 and 1000 and a reading at least 5 away from the target, `adjust_speed`
  -- moves the speed towards the target by at least 16, or to the end of the range, inside it; it
  -- sends exactly this speed; it reports an error if more than 30000 ms have passed since the
  -- pressure was last in the tolerance, and otherwise leaves the error and that time as they were.
  pub adjust_speed-Adjusted :
      (target : ℤ) (f : Fan) (w : World) (s : ℕ)
      → f.speed ≡ pos s
      → s ≤ 1000
      → 5 ≤ abs (target -ℤ (get_pressure w).0)
      → Adjusted (target -ℤ (get_pressure w).0) s f (get_pressure w).1 (adjust_speed hw target f w)
  unfolding adjust_speed pressure_distance
  adjust_speed-Adjusted target f w s e h far =
      let distance = target -ℤ (get_pressure w).0 in
      let w1 = (get_pressure w).1 in
      let (s', eq, m) = moves s distance h far in
      let quiet = le→ltb (abs distance) 5 far in
      let next = ap (λ v. clamped (adjusted v distance)) e ∙ eq in
      elim (Bool-cases (ltb 30000 (sub_u32 (now_ms w1) f.error_time_ms))) [
        | inl late ↦
            rw (quiet, late, next)
              (record {
                next = s';
                speed = refl;
                moved = m;
                sent = ap (λ v. send_speed v w1) (sent_exactly m);
                late = λ _. refl;
                in_time = λ p. absurd (omega (arith, ltb→lt 30000 _ late));
                kept_time = refl;
              })
        | inr soon ↦
            rw (quiet, soon, next)
              (record {
                next = s';
                speed = refl;
                moved = m;
                sent = ap (λ v. send_speed v w1) (sent_exactly m);
                late = λ p. absurd (omega (arith, ltb→le 30000 _ soon));
                in_time = λ p. refl;
                kept_time = refl;
              })
      ]

  -- In every case `adjust_speed` keeps a speed between 0 and 1000 in that range.
  pub adjust_speed-IsSpeed :
      (target : ℤ) (f : Fan) (w : World)
      → IsSpeed f.speed
      → IsSpeed (adjust_speed hw target f w).0.speed
  unfolding adjust_speed pressure_distance
  adjust_speed-IsSpeed target f w v =
      let (s, e, h) = v in
      let distance = target -ℤ (get_pressure w).0 in
      elim (dec_lt (abs distance) 5) [
        | yes near ↦ rw (lt→ltb (abs distance) 5 near) v
        | no far ↦
            let a = adjust_speed-Adjusted target f w s e h (omega arith) in
            (a.next, a.speed, Moves-le a.moved)
      ]

  -- `n` calls one after the other.
  unfoldable pub adjust_times : ℤ → ℕ → Fan → World → Fan × World
  adjust_times target zero f w = (f, w)
  adjust_times target (suc n) f w =
      let (f', w') = adjust_speed hw target f w in adjust_times target n f' w'

  rises :
      (target : ℤ) (n : ℕ) (f : Fan) (w : World) (s : ℕ)
      → ((w' : World) → (d : ℕ) × (target -ℤ (get_pressure w').0 ≡ pos d) × (5 ≤ d))
      → f.speed ≡ pos s
      → s ≤ 1000
      → (s' : ℕ) × ((adjust_times target n f w).0.speed ≡ pos s')
        × (min 1000 (s + 16 * n) ≤ s')
        × (s' ≤ 1000)
  unfolding adjust_times
  rises target zero f w s below e h = (s, e, omega arith, h)
  rises target (suc n) f w s below e h =
      let (d, eq, far) = below w in
      let a = adjust_speed-Adjusted target f w s e h (rw eq (omega arith)) in
      let up = Moves-up (subst (λ t. Moves s t a.next) eq a.moved) in
      let (s', eq', more, top) =
        rises target n (adjust_speed hw target f w).0 (adjust_speed hw target f w).1 a.next below
          a.speed (Moves-le a.moved) in
      (s', eq', omega arith, top)

  -- While every reading stays at least 5 below the target, 63 calls or more bring the fan from any
  -- speed between 0 and 1000 to its full speed.
  pub adjust_times-full :
      (target : ℤ) (n : ℕ) (f : Fan) (w : World)
      → IsSpeed f.speed
      → ((w' : World) → (d : ℕ) × (target -ℤ (get_pressure w').0 ≡ pos d) × (5 ≤ d))
      → 63 ≤ n
      → (adjust_times target n f w).0.speed ≡ pos 1000
  adjust_times-full target n f w v below h =
      let (s, e, l) = v in
      let (s', eq, more, top) = rises target n f w s below e l in
      let full : s' ≡ 1000 = omega arith in eq ∙ ap pos full

  -- `is_spinning` says yes exactly when the first reading of the counter, or the second, differs
  -- from the stored one, and it stores the last reading that it took.
  pub is_spinning_lem :
      (f : Fan) (w : World)
      → let first = read_counter w in
        let second = read_counter first.1 in
        let out = is_spinning hw f w in
        ((out.0 ≡ true) ↔ ((first.0 ≢ f.counter) ⊎ (second.0 ≢ f.counter)))
        × (out.1.counter ≡ (if first.0 == f.counter then second.0 else first.0))
  unfolding is_spinning check_counter
  is_spinning_lem f w = ground arith
