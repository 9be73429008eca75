-- ===== src/Input/Encoder.antt =====
-- The rotary encoder: its two lines change one after the other, and the handler counts.
use ventilation_system_proje.Common.{
  ℕ, suc, ◌+◌, ◌/◌, ◌%◌, ◌≡◌, refl, ap₂, ◌∙◌, ◌⊎◌, inl, inr, ◌||◌, arith, ◌==◌, if◌then◌else◌,
  Bool-cases,
}
use ventilation_system_proje.Common.Int.{ℤ, pos, negsuc, ◌+ℤ◌, ◌-ℤ◌}
use ventilation_system_proje.Input.{Inputs, handler}

-- The lines at a position, of which four make a period: 00, 10, 11, 01.
abbrev pub line_a : ℕ → ℕ
line_a p = if (p % 4 == 1) || (p % 4 == 2) then 1 else 0

abbrev pub line_b : ℕ → ℕ
line_b p = if (p % 4 == 2) || (p % 4 == 3) then 1 else 0

-- The pin that changes between a position and the next.
abbrev pub edge_pin : ℕ → ℕ
edge_pin p = if p % 2 == 0 then 10 else 11

-- A walk of the encoder with its interrupts: positions are counted from one that it does not pass
-- below, and each change runs the handler before the next.
pub data Walk (s : Inputs) (p : ℕ) : Inputs → ℕ → Type 0 where
  still : Walk s p s p
  clockwise :
      (s' : Inputs) (q : ℕ)
      → Walk s p s' q
      → Walk s p (handler (edge_pin q) (line_a (suc q)) (line_b (suc q)) s') (suc q)
  back :
      (s' : Inputs) (q : ℕ)
      → Walk s p s' (suc q)
      → Walk s p (handler (edge_pin q) (line_a q) (line_b q) s') q

-- The handler has seen the first line, and its value is `base` and one for every two positions.
pub record Counts (base : ℤ) (s : Inputs) (p : ℕ) : Type 0 where
  pub seen : s.last_state ≡ line_a p
  pub value : s.pass.data_value ≡ base +ℤ pos ((p + 1) / 2)

plus_one : (base : ℤ) (n : ℕ) → (base +ℤ pos n) +ℤ pos 1 ≡ base +ℤ pos (n + 1)
plus_one (pos b) n = ground arith
plus_one (negsuc b) n = ground arith

minus_one : (base : ℤ) (n : ℕ) → (base +ℤ pos (n + 1)) -ℤ pos 1 ≡ base +ℤ pos n
minus_one (pos b) n = ground arith
minus_one (negsuc b) n = ground arith

-- What the handler makes of the value.
abbrev counted : ℕ → ℕ → ℕ → ℤ → ℤ
counted last a b v = if last == a then v else if b == a then v -ℤ pos 1 else v +ℤ pos 1

handler_lem :
    (q a b : ℕ) (s : Inputs)
    → ((handler (edge_pin q) a b s).last_state ≡ a)
      × ((handler (edge_pin q) a b s).pass.data_value ≡ counted s.last_state a b s.pass.data_value)
unfolding handler
handler_lem q a b s = elim (Bool-cases (q % 2 == 0)) [
  | inl even ↦ rw (even) (refl, value)
  | inr odd ↦ rw (odd) (refl, value)
]
  where
    value :
        (if s.last_state == a
          then s.pass
          else if b == a
          then record (s.pass) { data_value = s.pass.data_value -ℤ pos 1 }
          else record (s.pass) { data_value = s.pass.data_value +ℤ pos 1 }).data_value
        ≡ counted s.last_state a b s.pass.data_value
    value = elim (Bool-cases (s.last_state == a)) [
      | inl same ↦ rw (same) refl
      | inr other ↦ elim (Bool-cases (b == a)) [
        | inl equal ↦ rw (other, equal) refl
        | inr apart ↦ rw (other, apart) refl
      ]
    ]

-- The lines at a position and the next, by the position in the period.
lines_at :
    (q : ℕ)
    → ((line_a q ≡ 0)
        × (line_a (suc q) ≡ 1)
        × (line_b q ≡ 0)
        × (line_b (suc q) ≡ 0)
        × ((suc q + 1) / 2 ≡ (q + 1) / 2 + 1))
      ⊎ (((line_a q ≡ 1) × (line_a (suc q) ≡ 1) × ((suc q + 1) / 2 ≡ (q + 1) / 2))
          ⊎ (((line_a q ≡ 1)
                × (line_a (suc q) ≡ 0)
                × (line_b q ≡ 1)
                × (line_b (suc q) ≡ 1)
                × ((suc q + 1) / 2 ≡ (q + 1) / 2 + 1))
              ⊎ ((line_a q ≡ 0) × (line_a (suc q) ≡ 0) × ((suc q + 1) / 2 ≡ (q + 1) / 2))))
lines_at q = ground arith

forward :
    (base : ℤ) (q : ℕ)
    → counted (line_a q) (line_a (suc q)) (line_b (suc q)) (base +ℤ pos ((q + 1) / 2))
      ≡ base +ℤ pos ((suc q + 1) / 2)
forward base q = elim (lines_at q) [
  | inl (a, a', b, b', n) ↦ rw (a, a', b', n) (plus_one base ((q + 1) / 2))
  | inr (inl (a, a', n)) ↦ rw (a, a', n) refl
  | inr (inr (inl (a, a', b, b', n))) ↦ rw (a, a', b', n) (plus_one base ((q + 1) / 2))
  | inr (inr (inr (a, a', n))) ↦ rw (a, a', n) refl
]

backward :
    (base : ℤ) (q : ℕ)
    → counted (line_a (suc q)) (line_a q) (line_b q) (base +ℤ pos ((suc q + 1) / 2))
      ≡ base +ℤ pos ((q + 1) / 2)
backward base q = elim (lines_at q) [
  | inl (a, a', b, b', n) ↦ rw (a, a', b, n) (minus_one base ((q + 1) / 2))
  | inr (inl (a, a', n)) ↦ rw (a, a', n) refl
  | inr (inr (inl (a, a', b, b', n))) ↦ rw (a, a', b, n) (minus_one base ((q + 1) / 2))
  | inr (inr (inr (a, a', n))) ↦ rw (a, a', n) refl
]

-- However the encoder is turned to and fro, the value depends only on where it stands: it goes up
-- by one for every two positions clockwise and down again on the way back, and no sequence of
-- turns makes it drift.
pub Walk-Counts :
    (base : ℤ) (s : Inputs) (p : ℕ) (s' : Inputs) (q : ℕ)
    → Walk s p s' q
    → Counts base s p
    → Counts base s' q
Walk-Counts base s p s' q still c = c
Walk-Counts base s p _ _ (clockwise s1 q w) c =
    let d = Walk-Counts base s p s1 q w c in
    let (seen, value) = handler_lem q (line_a (suc q)) (line_b (suc q)) s1 in
    record {
      seen = seen;
      value =
          value
          ∙ ap₂ (λ l v. counted l (line_a (suc q)) (line_b (suc q)) v) d.seen d.value
          ∙ forward base q;
    }
Walk-Counts base s p _ _ (back s1 q w) c =
    let d = Walk-Counts base s p s1 (suc q) w c in
    let (seen, value) = handler_lem q (line_a q) (line_b q) s1 in
    record {
      seen = seen;
      value =
          value ∙ ap₂ (λ l v. counted l (line_a q) (line_b q) v) d.seen d.value ∙ backward base q;
    }
