-- ===== src/Log/Invariant/Area.antt =====
-- One area of the EEPROM under a push: the entry goes into the first free slot, and when it was the
-- last one the whole area is freed.
use ventilation_system_proje.Common.{
  ℕ, suc, ◌+◌, ◌%◌, ◌^◌, ◌≤◌, ◌<◌, ◌≡◌, ◌⊎◌, inl, inr, sym, ◌∙◌, List, length, arith, get_or, subst,
}
use mathlib.Core.Path.{fun_ext}
use ventilation_system_proje.Common.Cells.{overwritten, overwritten_outside}
use ventilation_system_proje.Eeprom.Storage.{Storage}
use ventilation_system_proje.Log.Handler.{clear_slots}
use ventilation_system_proje.Log.Slots.{slot, clear_slots-Cleared}
use ventilation_system_proje.Log.Invariant.Entries.{Filled, Filled-store, Filled-cleared}

-- Where an area may lie.
pub record IsArea (base : ℕ) : Type 0 where
  pub aligned : base % 8 ≡ 0
  pub inside : base + 2048 < 2 ^ 15

-- The first slot behind `k`, round the area.
abbrev pub next_slot : ℕ → ℕ
next_slot k = (k + 1) % 256

module _ (s : Storage) where
  pub record Pushed (base k : ℕ) (entry : List ℕ) (m m' : s.Mem) : Type 0 where
    pub ready : s.IsReady m'
    pub filled : Filled (s.cell m') base (next_slot k)
    pub outside : (b : ℕ) → (b < base) ⊎ (base + 2048 ≤ b) → s.cell m' b ≡ s.cell m b
    pub kept : suc k < 256 → (b : ℕ) → s.cell m' b ≡ overwritten (s.cell m) (slot base k) entry b

  module _ {base k : ℕ} {entry : List ℕ} (m : s.Mem) (area : IsArea base) (v : s.IsReady m)
      (p : Filled (s.cell m) base k) (len : length entry ≡ 8) (first : get_or entry 0 0 ≡ 1) where
    written :
        (b : ℕ)
        → s.cell (s.store (slot base k) entry m) b ≡ overwritten (s.cell m) (slot base k) entry b
    written b =
        let r = p.room in
        let al = area.aligned in
        let ins = area.inside in s.cell-store (slot base k) entry m b (omega arith) v

    ready : s.IsReady (s.store (slot base k) entry m)
    ready =
        let r = p.room in
        let al = area.aligned in
        let ins = area.inside in s.store-IsReady (slot base k) entry m (omega arith) v

    beside :
        (b : ℕ)
        → (b < base) ⊎ (base + 2048 ≤ b)
        → s.cell (s.store (slot base k) entry m) b ≡ s.cell m b
    beside b o =
        let r = p.room in
        written b ∙ overwritten_outside (s.cell m) (slot base k) entry b (omega arith)

    pub Pushed-room : suc k < 256 → Pushed base k entry m (s.store (slot base k) entry m)
    Pushed-room more = record {
      ready = ready;
      filled = subst (Filled (s.cell (s.store (slot base k) entry m)) base) (omega arith) (
          subst (λ f. Filled f base (suc k)) (sym (fun_ext written))
            (Filled-store (s.cell m) base k entry len first more p));
      outside = beside;
      kept = λ _. written;
    }

    pub Pushed-full :
        suc k ≡ 256 → Pushed base k entry m (clear_slots s 256 base (s.store (slot base k) entry m))
    Pushed-full full =
        let ins = area.inside in
        let c =
          clear_slots-Cleared s 256 base (s.store (slot base k) entry m) (omega arith) ready in
        record {
          ready = c.ready;
          filled =
              subst (Filled (s.cell (clear_slots s 256 base (s.store (slot base k) entry m))) base)
                (omega arith)
                (Filled-cleared (s.cell (clear_slots s 256 base (s.store (slot base k) entry m)))
                  base c.free);
          outside = λ b o. elim o [
            | inl lt ↦ c.below b lt ∙ beside b (inl lt)
            | inr ge ↦ c.above b (omega arith) ∙ beside b (inr ge)
          ];
          kept = λ more. absurd (omega arith);
        }
