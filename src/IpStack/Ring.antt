-- ===== src/IpStack/Ring.antt =====
-- Where the bytes of a received chain go in the ring buffer.
use ventilation_system_proje.Common.{
  ℕ, ◌+◌, ◌-◌, ◌%◌, ◌≤◌, ◌<◌, ◌≡◌, refl, ap, ◌∙◌, List, ltb, if◌then◌else◌, length, take, drop,
  get_or, arith, dec_lt, length-take, length-drop, get_or-take, get_or-drop, lt→ltb, le→ltb,
}
use ventilation_system_proje.Common.Cells.{overwritten, overwritten_inside, overwritten_outside}
use ventilation_system_proje.IpStack.{IpStack}

-- The invariant: the indices are inside the buffer, and the write index is `count` behind the read
-- index.
pub record IsValid (s : IpStack) : Type 0 where
  pub fits : s.count ≤ 2048
  pub rd_in : s.rd < 2048
  pub wr_at : s.wr ≡ (s.rd + s.count) % 2048

-- How far behind the write index a place of the buffer is.
abbrev pub offset : ℕ → ℕ → ℕ
offset wr p = (p + 2048 - wr) % 2048

-- The buffer with the first `c` bytes of `xs` from the write index on, round its end.
abbrev pub wrapped : (ℕ → ℕ) → ℕ → ℕ → List ℕ → ℕ → ℕ
wrapped f wr c xs p = if ltb (offset wr p) c then get_or xs (offset wr p) 0 else f p

pub one_part :
    (f : ℕ → ℕ) (wr c : ℕ) (xs : List ℕ) (p : ℕ)
    → wr + c ≤ 2048
    → c ≤ length xs
    → p < 2048
    → wr < 2048
    → overwritten f wr (take c xs) p ≡ wrapped f wr c xs p
one_part f wr c xs p h l q v = elim (dec_lt (offset wr p) c) [
  | yes inside ↦
      let size = length-take c xs in
      let place : p - wr ≡ offset wr p = omega arith in
      rw (lt→ltb (offset wr p) c inside) (
        overwritten_inside f wr (take c xs) p (omega arith) (omega arith)
        ∙ get_or-take c xs (p - wr) 0 (omega arith)
        ∙ ap (λ t. get_or xs t 0) place)
  | no outside ↦
      let size = length-take c xs in
      rw (le→ltb (offset wr p) c (omega arith))
        (overwritten_outside f wr (take c xs) p (omega arith))
]

pub two_parts :
    (f : ℕ → ℕ) (wr c : ℕ) (xs : List ℕ) (p : ℕ)
    → 2048 < wr + c
    → c ≤ length xs
    → c ≤ 2048
    → p < 2048
    → wr < 2048
    → overwritten
        (overwritten f wr (take (2048 - wr) xs))
        0
        (take (c - (2048 - wr)) (drop (2048 - wr) xs))
        p
      ≡ wrapped f wr c xs p
two_parts f wr c xs p h l top q v =
    let k = 2048 - wr in
    let n = c - k in
    let g = overwritten f wr (take k xs) in
    let first_size = length-take k xs in
    let rest_size = length-drop k xs in
    let second_size = length-take n (drop k xs) in
    elim (dec_lt p n) [
      | yes front ↦
          let place : k + (p - 0) ≡ offset wr p = omega arith in
          rw (lt→ltb (offset wr p) c (omega arith)) (
            overwritten_inside g 0 (take n (drop k xs)) p (omega arith) (omega arith)
            ∙ get_or-take n (drop k xs) (p - 0) 0 (omega arith)
            ∙ get_or-drop k xs (p - 0) 0
            ∙ ap (λ t. get_or xs t 0) place)
      | no behind ↦
          let same = overwritten_outside g 0 (take n (drop k xs)) p (omega arith) in
          same ∙ one_part f wr k xs p (omega arith) (omega arith) q v ∙ elim (dec_lt p wr) [
            | yes between ↦
                rw (le→ltb (offset wr p) k (omega arith), le→ltb (offset wr p) c (omega arith)) refl
            | no back ↦
                rw (lt→ltb (offset wr p) k (omega arith), lt→ltb (offset wr p) c (omega arith)) refl
          ]
    ]

pub wrapped_outside :
    (f : ℕ → ℕ) (wr c : ℕ) (xs : List ℕ) (p : ℕ) → c ≤ offset wr p → wrapped f wr c xs p ≡ f p
wrapped_outside f wr c xs p h = rw (le→ltb (offset wr p) c h) refl

pub wrapped_inside :
    (f : ℕ → ℕ) (wr c : ℕ) (xs : List ℕ) (p j : ℕ)
    → offset wr p ≡ j
    → j < c
    → wrapped f wr c xs p ≡ get_or xs j 0
wrapped_inside f wr c xs p j e h =
    rw (lt→ltb (offset wr p) c (omega arith)) (ap (λ t. get_or xs t 0) e)
