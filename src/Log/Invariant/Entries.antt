-- ===== src/Log/Invariant/Entries.antt =====
-- An area of the EEPROM that holds its entries from the first slot on without a gap.
use ventilation_system_proje.Common.{
  ℕ, suc, ◌+◌, ◌≤◌, ◌<◌, ◌≡◌, ◌≢◌, sym, ap, ◌∙◌, List, Option, some, length, arith, dec_lt, subst,
  get_or,
}
use ventilation_system_proje.Common.Cells.{overwritten, overwritten_inside, overwritten_outside}
use ventilation_system_proje.Log.Slots.{slot, Search, hit, miss}

-- The first `k` slots of the area at `base` are in use, and the others, up to 256, are free.
pub record Filled (f : ℕ → ℕ) (base k : ℕ) : Type 0 where
  pub room : k < 256
  pub used : (i : ℕ) → i < k → f (slot base i) ≢ 0
  pub free : (i : ℕ) → k ≤ i → i < 256 → f (slot base i) ≡ 0

-- Only one number of entries fits.
pub Search-Filled :
    {f : ℕ → ℕ} {base k : ℕ} {o : Option ℕ}
    → Filled f base k
    → Search f 256 base o
    → o ≡ some (slot base k)
Search-Filled {f} {base} {k} p (hit j a e q z before) = elim (dec_lt j k) [
  | yes lt ↦ absurd (p.used j lt (subst (λ t. f t ≡ 0) e z))
  | no ge ↦ elim (dec_lt k j) [
    | yes gt ↦ absurd (before k gt (p.free k (omega arith) p.room))
    | no le ↦ ap some (omega arith)
  ]
]
Search-Filled {f} {base} {k} p (miss full) = absurd (full k p.room (p.free k (omega arith) p.room))

-- Writing an entry in the first free slot.
pub Filled-store :
    (f : ℕ → ℕ) (base k : ℕ) (entry : List ℕ)
    → length entry ≡ 8
    → get_or entry 0 0 ≡ 1
    → suc k < 256
    → Filled f base k
    → Filled (overwritten f (slot base k) entry) base (suc k)
Filled-store f base k entry len first more p = record {
  room = more;
  used = λ i q e. elim (dec_lt i k) [
    | yes lt ↦
        p.used i lt
          (sym (overwritten_outside f (slot base k) entry (slot base i) (omega arith)) ∙ e)
    | no ge ↦ absurd (
        omega (
          arith,
          sym e
              ∙ overwritten_inside f (slot base k) entry (slot base i) (omega arith) (omega arith)
              ∙ ap (λ t. get_or entry t 0) (omega arith)
              ∙ first,
        ))
  ];
  free = λ i q r.
      overwritten_outside f (slot base k) entry (slot base i) (omega arith)
      ∙ p.free i (omega arith) r;
}

-- What happens outside an area leaves it as it is.
pub Filled-same :
    (f g : ℕ → ℕ) (base k : ℕ)
    → ((b : ℕ) → base ≤ b → b < base + 2048 → g b ≡ f b)
    → Filled f base k
    → Filled g base k
Filled-same f g base k same p = record {
  room = p.room;
  used = λ i q e.
      let r = p.room in p.used i q (sym (same (slot base i) (omega arith) (omega arith)) ∙ e);
  free = λ i q r. same (slot base i) (omega arith) (omega arith) ∙ p.free i q r;
}

-- An area with every slot free.
pub Filled-cleared :
    (f : ℕ → ℕ) (base : ℕ) → ((i : ℕ) → i < 256 → f (slot base i) ≡ 0) → Filled f base 0
Filled-cleared f base h = record {
  room = omega arith;
  used = λ i q e. absurd (omega arith);
  free = λ i q r. h i r;
}
