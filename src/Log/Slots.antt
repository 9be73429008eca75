-- ===== src/Log/Slots.antt =====
-- The loops of the log handler over an area of slots of eight bytes: what `clearAllLogs` frees, and
-- which slot `findFirstAvailableLog` finds.
use ventilation_system_proje.Common.{
  ℕ, zero, suc, ◌+◌, ◌*◌, ◌^◌, ◌≤◌, ◌<◌, ◌≡◌, ◌≢◌, inl, inr, refl, sym, ap, ◌∙◌, Option, some, none,
  u16, ◌==◌, Bool-cases, ==_iff, ==_ne, arith, subst,
}
use mathlib.Core.Path.{fun_ext}
use ventilation_system_proje.Eeprom.Storage.{Storage}
use ventilation_system_proje.Log.Handler.{clear_slots, find_slot}

-- The use byte of slot `i` of the area at `base`.
abbrev pub slot : ℕ → ℕ → ℕ
slot base i = base + 8 * i

-- An area of `n` slots that a 16-bit address reaches, inside the chip.
abbrev pub Reachable : ℕ → ℕ → Type 0
Reachable base n = base + 8 * n < 2 ^ 15

module _ (s : Storage) where
  pub record Cleared (n base : ℕ) (m m' : s.Mem) : Type 0 where
    pub ready : s.IsReady m'
    pub free : (i : ℕ) → i < n → s.cell m' (slot base i) ≡ 0
    pub below : (b : ℕ) → b < base → s.cell m' b ≡ s.cell m b
    pub above : (b : ℕ) → base + 8 * n ≤ b → s.cell m' b ≡ s.cell m b

  pub next-slot : (base n : ℕ) → Reachable base (suc n) → u16 (base + 8) ≡ base + 8
  next-slot base n h = omega arith

  write-other :
      (a c b : ℕ) (m : s.Mem)
      → a < 2 ^ 15
      → s.IsReady m
      → b ≢ a
      → s.cell (s.write_byte a c m) b ≡ s.cell m b
  write-other a c b m h v ne = ground (arith, s.cell-write_byte a c m b h v)

  write-same : (a c : ℕ) (m : s.Mem) → a < 2 ^ 15 → s.IsReady m → s.cell (s.write_byte a c m) a ≡ c
  write-same a c m h v = ground (arith, s.cell-write_byte a c m a h v)

  Cleared-suc :
      (n base : ℕ) (m m' : s.Mem)
      → Reachable base (suc n)
      → s.IsReady m
      → Cleared n (base + 8) (s.write_byte base 0 m) m'
      → Cleared (suc n) base m m'
  Cleared-suc n base m m' h v rest = record {
    ready = rest.ready;
    free = free;
    below =
        λ b p. rest.below b (omega arith) ∙ write-other base 0 b m (omega arith) v (omega arith);
    above =
        λ b p. rest.above b (omega arith) ∙ write-other base 0 b m (omega arith) v (omega arith);
  }
    where
      first : slot base 0 ≡ base
      first = omega arith

      later : (i : ℕ) → slot base (suc i) ≡ slot (base + 8) i
      later i = omega arith

      free : (i : ℕ) → i < suc n → s.cell m' (slot base i) ≡ 0
      free zero p =
          ap (s.cell m') first ∙ rest.below base (omega arith) ∙ write-same base 0 m (omega arith) v
      free (suc i) p = ap (s.cell m') (later i) ∙ rest.free i (omega arith)

  -- Over a ready storage, freeing `n` slots from a base inside the chip sets the use byte of each
  -- of them to zero, touches no cell outside them, and leaves the storage ready.
  pub clear_slots-Cleared :
      (n base : ℕ) (m : s.Mem)
      → Reachable base n
      → s.IsReady m
      → Cleared n base m (clear_slots s n base m)
  unfolding clear_slots
  clear_slots-Cleared zero base m h v = record {
    ready = v;
    free = λ i p. absurd (omega arith);
    below = λ b p. refl;
    above = λ b p. refl;
  }
  clear_slots-Cleared (suc n) base m h v = rw (next-slot base n h) (
      Cleared-suc n base m (clear_slots s n (base + 8) (s.write_byte base 0 m)) h v (
        clear_slots-Cleared n (base + 8) (s.write_byte base 0 m) (omega arith)
          (s.write_byte-IsReady base 0 m (omega arith) v)))

-- The first of `n` slots whose use byte is zero.
pub data Search (f : ℕ → ℕ) (n base : ℕ) : Option ℕ → Type 0 where
  hit :
      (k a : ℕ)
      → a ≡ slot base k
      → k < n
      → f a ≡ 0
      → ((i : ℕ) → i < k → f (slot base i) ≢ 0)
      → Search f n base (some a)
  miss : ((i : ℕ) → i < n → f (slot base i) ≢ 0) → Search f n base none

Search-suc :
    (f : ℕ → ℕ) (n base : ℕ) (o : Option ℕ)
    → f base ≢ 0
    → Search f n (base + 8) o
    → Search f (suc n) base o
Search-suc f n base o used (hit k a e p z before) =
    hit (suc k) a (omega arith) (omega arith) z first
  where
    first : (i : ℕ) → i < suc k → f (slot base i) ≢ 0
    first zero q = subst (λ t. f t ≢ 0) (omega arith) used
    first (suc i) q = subst (λ t. f t ≢ 0) (omega arith) (before i (omega arith))
Search-suc f n base o used (miss none_free) = miss first
  where
    first : (i : ℕ) → i < suc n → f (slot base i) ≢ 0
    first zero q = subst (λ t. f t ≢ 0) (omega arith) used
    first (suc i) q = subst (λ t. f t ≢ 0) (omega arith) (none_free i (omega arith))

module _ (s : Storage) where
  pub record Searched (n base : ℕ) (m : s.Mem) (out : Option ℕ × s.Mem) : Type 0 where
    pub ready : s.IsReady out.1
    pub same : (b : ℕ) → s.cell out.1 b ≡ s.cell m b
    pub found : Search (s.cell m) n base out.0

  Searched-suc :
      (n base : ℕ) (m : s.Mem) {m' : s.Mem} (out : Option ℕ × s.Mem)
      → ((b : ℕ) → s.cell m' b ≡ s.cell m b)
      → s.cell m base ≢ 0
      → Searched n (base + 8) m' out
      → Searched (suc n) base m out
  Searched-suc n base m out same taken rest = record {
    ready = rest.ready;
    same = λ b. rest.same b ∙ same b;
    found =
        Search-suc (s.cell m) n base out.0 taken
          (subst (λ f. Search f n (base + 8) out.0) (fun_ext same) rest.found);
  }

  -- Over a ready storage, the search through `n` slots from a base inside the chip returns the
  -- address of the first whose use byte is zero, or nothing if there is none, changes no cell, and
  -- leaves the storage ready.
  pub find_slot-Searched :
      (n base : ℕ) (m : s.Mem)
      → Reachable base n
      → s.IsReady m
      → Searched n base m (find_slot s n base m)
  unfolding find_slot
  find_slot-Searched zero base m h v = record {
    ready = v;
    same = λ b. refl;
    found = miss (λ i p. absurd (omega arith));
  }
  find_slot-Searched (suc n) base m h v =
      let c = (s.read_byte base m).0 in
      let m' = (s.read_byte base m).1 in
      let value = s.read_byte-cell base m (omega arith) v in
      let ready = s.read_byte-IsReady base m (omega arith) v in
      let same = λ (b : ℕ). s.cell-read_byte base m b (omega arith) v in
      elim (Bool-cases (c == 0)) [
        | inl free ↦ rw free (record {
          ready = ready;
          same = same;
          found =
              hit 0 base (omega arith) (omega arith) (sym value ∙ (==_iff c 0).0 free)
                (λ i p. absurd (omega arith));
        })
        | inr used ↦
            let taken : s.cell m base ≢ 0 = λ e. ==_ne c 0 used (value ∙ e) in
            rw (used, next-slot s base n h)
              (Searched-suc n base m (find_slot s n (base + 8) m') same taken
                (find_slot-Searched n (base + 8) m' (omega arith) ready))
      ]
