-- ===== src/Common/Cells.antt =====
-- Memory as cells under addresses: what a row of bytes leaves, and rows of cells.
use Prim.Native.Nat.{ℕ, zero, suc, ◌+◌, ◌-◌, ◌≤◌, ◌<◌}
use mathlib.Core.Bool.{◌&&◌}
use mathlib.Core.Logic.{◌⊎◌}
use mathlib.Core.List.{List, [], ◌∷◌, ◌++◌}
use mathlib.Core.Path.{◌≡◌, refl, ap, ap₂, ◌∙◌}
use ventilation_system_proje.Common.Tests.{ltb, leb, if◌then◌else◌}
use ventilation_system_proje.Common.Lists.{length, get_or, values, take}
use native.Mathlib.Omega.{arith}

-- A cell after a row of bytes was stored from `a` on.
abbrev pub overwritten : (ℕ → ℕ) → ℕ → List ℕ → ℕ → ℕ
overwritten cell a bytes b =
    if leb a b && ltb b (a + length bytes) then get_or bytes (b - a) 0 else cell b

pub overwritten_inside :
    (f : ℕ → ℕ) (a : ℕ) (bytes : List ℕ) (b : ℕ)
    → a ≤ b
    → b < a + length bytes
    → overwritten f a bytes b ≡ get_or bytes (b - a) 0
overwritten_inside f a bytes b h k = ground arith

pub overwritten_outside :
    (f : ℕ → ℕ) (a : ℕ) (bytes : List ℕ) (b : ℕ)
    → (b < a) ⊎ (a + length bytes ≤ b)
    → overwritten f a bytes b ≡ f b
overwritten_outside f a bytes b h = ground arith

-- The cells that a row of bytes was written to hold these bytes.
pub values-overwritten_from :
    (f : ℕ → ℕ) (a : ℕ) (all : List ℕ) (k n : ℕ)
    → k + n ≤ length all
    → values (overwritten f a all) (a + k) n ≡ values (λ i. get_or all i 0) k n
values-overwritten_from f a all k zero h = refl
values-overwritten_from f a all k (suc n) h =
    let back : a + k - a ≡ k = omega arith in
    let next : a + k + 1 ≡ a + (k + 1) = omega arith in
    ap₂ (λ x xs. x ∷ xs)
      (overwritten_inside f a all (a + k) (omega arith) (omega arith)
        ∙ ap (λ i. get_or all i 0) back)
      (ap (λ t. values (overwritten f a all) t n) next
        ∙ values-overwritten_from f a all (k + 1) n (omega arith))

-- Rows of equal cells are equal.
pub values-same :
    (f g : ℕ → ℕ) (a n : ℕ)
    → ((b : ℕ) → a ≤ b → b < a + n → f b ≡ g b)
    → values f a n ≡ values g a n
values-same f g a zero h = refl
values-same f g a (suc n) h =
    ap₂ (λ x xs. x ∷ xs) (h a (omega arith) (omega arith))
      (values-same f g (a + 1) n (λ b p q. h b (omega arith) (omega arith)))

pub length-values : (f : ℕ → ℕ) (a n : ℕ) → length (values f a n) ≡ n
length-values f a zero = refl
length-values f a (suc n) = omega (arith, length-values f (a + 1) n)

-- A row is the row of its first cells and that of the others.
pub values-append :
    (f : ℕ → ℕ) (a m n : ℕ) → values f a (m + n) ≡ values f a m ++ values f (a + m) n
values-append f a zero n =
    let start : a ≡ a + 0 = omega arith in
    let all : zero + n ≡ n = omega arith in ap (values f a) all ∙ ap (λ t. values f t n) start
values-append f a (suc m) n =
    let more : suc m + n ≡ suc (m + n) = omega arith in
    let next : a + 1 + m ≡ a + suc m = omega arith in
    ap (values f a) more
    ∙ ap (λ xs. f a ∷ xs)
        (values-append f (a + 1) m n ∙ ap (λ t. values f (a + 1) m ++ values f t n) next)

-- Rows of two memories that agree along them are equal.
pub values-along :
    (f g : ℕ → ℕ) (a b n : ℕ)
    → ((j : ℕ) → j < n → f (a + j) ≡ g (b + j))
    → values f a n ≡ values g b n
values-along f g a b zero h = refl
values-along f g a b (suc n) h =
    ap₂ (λ x xs. x ∷ xs) (start ∙ h 0 (omega arith) ∙ end)
      (values-along f g (a + 1) (b + 1) n later)
  where
    start : f a ≡ f (a + 0)
    start = ap f (omega arith)

    end : g (b + 0) ≡ g b
    end = ap g (omega arith)

    later : (j : ℕ) → j < n → f (a + 1 + j) ≡ g (b + 1 + j)
    later j q =
        let left : a + 1 + j ≡ a + suc j = omega arith in
        let right : b + suc j ≡ b + 1 + j = omega arith in
        ap f left ∙ h (suc j) (omega arith) ∙ ap g right

-- A row that agrees with the front of a list is that front.
pub values-take :
    (f : ℕ → ℕ) (a n : ℕ) (xs : List ℕ)
    → n ≤ length xs
    → ((j : ℕ) → j < n → f (a + j) ≡ get_or xs j 0)
    → values f a n ≡ take n xs
values-take f a zero xs l h = refl
values-take f a (suc n) [] l h = absurd (omega arith)
values-take f a (suc n) (x ∷ xs) l h =
    ap₂ (λ y ys. y ∷ ys) (start ∙ h 0 (omega arith))
      (values-take f (a + 1) n xs (omega arith) later)
  where
    start : f a ≡ f (a + 0)
    start = ap f (omega arith)

    later : (j : ℕ) → j < n → f (a + 1 + j) ≡ get_or xs j 0
    later j q =
        let left : a + 1 + j ≡ a + suc j = omega arith in ap f left ∙ h (suc j) (omega arith)
