-- ===== src/Control/Timing.antt =====
-- How often the control loop adjusts the fan and sends a message.
use mathlib.Core.Path.{subst₂}
use ventilation_system_proje.Common.{
  ℕ, ◌-◌, ◌<◌, ◌≡◌, refl, sym, ap, ◌∙◌, subst, ◌⊎◌, inl, inr, Bool, true, false, not, ◌&&◌, Option,
  none, some, List, [], ◌∷◌, ◌++◌, replicate, arith, ltb, if◌then◌else◌, ltb→lt, Bool-cases,
  Option-cases, sub_u32,
}
use ventilation_system_proje.Control.{send_delay, Board, Round, Loop, Status}
use ventilation_system_proje.Control.Counting.{counting, adjusted_calls, round_counts}
use ventilation_system_proje.Control.Body.{
  page_part, manual_part, is_adjust_time, adjust_now, automatic_part, control_part, send_part,
  yield_part, round,
}

-- Each time is more than `delay` behind the one before it, the first behind `last`, by the
-- differences of the 32-bit clock.
abbrev pub IsApart : ℕ → ℕ → List ℕ → Type 0
IsApart delay last [] = Unit
IsApart delay last (t ∷ ts) = (delay < sub_u32 t last) × IsApart delay t ts

-- `n` calls at the time `now`, of which there is one if `b` holds.
IsApart-replicate :
    (b : Bool) (n last now time : ℕ) (ts : List ℕ)
    → n ≡ (if b then 1 else 0)
    → time ≡ (if b then now else last)
    → (b ≡ true → 5000 < sub_u32 now last)
    → IsApart 5000 time ts
    → IsApart 5000 last (replicate n now ++ ts)
IsApart-replicate true n last now time ts one e late h =
    subst (λ k. IsApart 5000 last (replicate k now ++ ts)) (sym one)
      (late refl, subst (λ t. IsApart 5000 t ts) e h)
IsApart-replicate false n last now time ts one e late h =
    subst (λ k. IsApart 5000 last (replicate k now ++ ts)) (sym one)
      (subst (λ t. IsApart 5000 t ts) e h)

module _ (board : Board) where
  -- Whether a round is one that adjusts the fan.
  abbrev adjusts : Round → Loop board → Bool
  adjusts r s =
      not (page_part board r s).0.settings.manual && is_adjust_time board r.adjust_at s.adjust_time

  -- The times of the rounds that send a status message.
  abbrev pub message_times : List Round → Loop board → List ℕ
  message_times [] s = []
  message_times (r ∷ rs) s =
      let rest = message_times rs (round board true r s).0 in
      elim (round board true r s).2 [ none ↦ rest | some m ↦ r.send_at ∷ rest ]

  control_times :
      (r : Round) (s : Loop board)
      → ((control_part board r s).send_time ≡ s.send_time)
        × ((control_part board r s).adjust_time ≡ (
            if not s.settings.manual && is_adjust_time board r.adjust_at s.adjust_time
            then r.adjust_at
            else s.adjust_time))
  unfolding manual_part automatic_part adjust_now
  control_times r s = elim (Bool-cases s.settings.manual) [
    | inl e ↦ rw e (refl, refl)
    | inr e ↦ elim (Bool-cases (is_adjust_time board r.adjust_at s.adjust_time)) [
      | inl due ↦ rw (e, due) (refl, refl)
      | inr early ↦ rw (e, early) (refl, refl)
    ]
  ]

  yield_times :
      (use_wifi : Bool) (r : Round) (s : Loop board)
      → ((yield_part board use_wifi r s).send_time ≡ s.send_time)
        × ((yield_part board use_wifi r s).adjust_time ≡ s.adjust_time)
  unfolding yield_part
  yield_times false r s = (refl, refl)
  yield_times true r s = elim (Option-cases r.message) [
    | inl e ↦ rw e (refl, refl)
    | inr (m, e) ↦ rw e (refl, refl)
  ]

  send_adjust_time :
      (use_wifi mode : Bool) (r : Round) (s : Loop board)
      → (send_part board use_wifi mode r s).0.adjust_time ≡ s.adjust_time
  unfolding send_part
  send_adjust_time use_wifi mode r s =
      elim (Bool-cases (ltb send_delay (sub_u32 r.send_at s.send_time))) [
        | inl due ↦ rw due refl
        | inr early ↦ rw early refl
      ]

  -- Either the message is sent and its time is kept, or nothing is.
  abbrev Sent : ℕ → ℕ → Option (Status board.F) → ℕ → Type 0
  Sent last now status time =
      ((status ≡ none) × (time ≡ last))
      ⊎ ((m : Status board.F) × (status ≡ some m) × (time ≡ now) × (5000 < sub_u32 now last))

  Sent-IsApart :
      (last now time : ℕ) (status : Option (Status board.F)) (ts : List ℕ)
      → Sent last now status time
      → IsApart 5000 time ts
      → IsApart 5000 last (elim status [ none ↦ ts | some m ↦ now ∷ ts ])
  Sent-IsApart last now time none ts (inl (e, kept)) h = subst (λ t. IsApart 5000 t ts) kept h
  Sent-IsApart last now time none ts (inr (m, e, new, late)) h = cc
  Sent-IsApart last now time (some x) ts (inl (e, kept)) h = cc
  Sent-IsApart last now time (some x) ts (inr (m, e, new, late)) h =
      (late, subst (λ t. IsApart 5000 t ts) new h)

  send_lem :
      (mode : Bool) (r : Round) (s : Loop board)
      → Sent s.send_time r.send_at
          (send_part board true mode r s).1
          (send_part board true mode r s).0.send_time
  unfolding send_part
  send_lem mode r s = elim (Bool-cases (ltb send_delay (sub_u32 r.send_at s.send_time))) [
    | inl due ↦ rw due (inr (_, refl, refl, ltb→lt 5000 (sub_u32 r.send_at s.send_time) due))
    | inr early ↦ rw early (inl (refl, refl))
  ]

  page_times :
      (r : Round) (s : Loop board)
      → ((page_part board r s).0.send_time ≡ s.send_time)
        × ((page_part board r s).0.adjust_time ≡ s.adjust_time)
  unfolding page_part
  page_times r s = (refl, refl)

  round_adjust_time :
      (use_wifi : Bool) (r : Round) (s : Loop board)
      → (round board use_wifi r s).0.adjust_time
        ≡ (if adjusts r s then r.adjust_at else s.adjust_time)
  unfolding round
  round_adjust_time use_wifi r s =
      let s1 = (page_part board r s).0 in
      let s2 = control_part board r s1 in
      (yield_times use_wifi r (send_part board use_wifi s1.settings.manual r s2).0).1
      ∙ send_adjust_time use_wifi s1.settings.manual r s2
      ∙ (control_times r s1).1
      ∙ ap
          (λ t.
            if not s1.settings.manual && is_adjust_time board r.adjust_at t then r.adjust_at else t)
          (page_times r s).1

  round_send_time :
      (r : Round) (s : Loop board)
      → Sent s.send_time r.send_at (round board true r s).2 (round board true r s).0.send_time
  unfolding round
  round_send_time r s =
      let s1 = (page_part board r s).0 in
      let s2 = control_part board r s1 in
      let kept : s2.send_time ≡ s.send_time = (control_times r s1).0 ∙ (page_times r s).0 in
      subst₂
        (λ last time. Sent last r.send_at (send_part board true s1.settings.manual r s2).1 time)
        kept (sym (yield_times true r (send_part board true s1.settings.manual r s2).0).0)
        (send_lem s1.settings.manual r s2)

  messages-IsApart :
      (rs : List Round) (s : Loop board) → IsApart 5000 s.send_time (message_times rs s)
  messages-IsApart [] s = tt
  messages-IsApart (r ∷ rs) s =
      Sent-IsApart s.send_time r.send_at (round board true r s).0.send_time (round board true r s).2
        (message_times rs (round board true r s).0) (round_send_time r s)
        (messages-IsApart rs (round board true r s).0)

module _ (board : Board) where
  -- The times that are read in front of the calls of `adjust_speed`, as often as it is called.
  abbrev pub adjust_times : Bool → List Round → Loop (counting board) → List ℕ
  adjust_times use_wifi [] s = []
  adjust_times use_wifi (r ∷ rs) s =
      let s' = (round (counting board) use_wifi r s).0 in
      replicate (adjusted_calls board s' - adjusted_calls board s) r.adjust_at
      ++ adjust_times use_wifi rs s'

  adjust_times-IsApart :
      (use_wifi : Bool) (rs : List Round) (s : Loop (counting board))
      → IsApart 5000 s.adjust_time (adjust_times use_wifi rs s)
  adjust_times-IsApart use_wifi [] s = tt
  adjust_times-IsApart use_wifi (r ∷ rs) s =
      let s' = (round (counting board) use_wifi r s).0 in
      IsApart-replicate (adjusts (counting board) r s)
        (adjusted_calls board s' - adjusted_calls board s) s.adjust_time r.adjust_at s'.adjust_time
        (adjust_times use_wifi rs s') (omega (arith, round_counts board use_wifi r s))
        (round_adjust_time (counting board) use_wifi r s)
        (λ due. ltb→lt 5000 (sub_u32 r.adjust_at s.adjust_time) (ground arith))
        (adjust_times-IsApart use_wifi rs s')

  -- In any sequence of rounds, with any messages and interrupts in between, on any hardware whose
  -- reads of the pressure sensor are counted: two calls of `adjust_speed`, which reads it once each,
  -- are more than 5000 ms apart, and so are two status messages, the first of each from the times
  -- that the loop starts with, all by the differences of the 32-bit clock. The time of a call is
  -- the one that its round has read for it.
  pub rounds-IsApart :
      (rs : List Round) (s : Loop (counting board))
      → IsApart 5000 s.adjust_time (adjust_times true rs s)
        × IsApart 5000 s.send_time (message_times (counting board) rs s)
  rounds-IsApart rs s = (adjust_times-IsApart true rs s, messages-IsApart (counting board) rs s)
