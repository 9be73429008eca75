-- ===== src/Common/Branches.antt =====
-- What is known of the branch of a test, and of the parts of a chain of optional results, when the
-- whole is known.
use ventilation_system_proje.Common.Tests.{if◌then◌else◌, ◌>>=◌, of_some_eq}
use mathlib.Core.Path.{◌≡◌, refl, sym, ap}
use mathlib.Core.Logic.{◌≢◌, ◌⊎◌, inl, inr}
use mathlib.Core.Bool.{Bool, true, false, ◌||◌}
use mathlib.Core.Option.{Option, none, some}

pub none≢some {ℓ} : {A : Type ℓ} {a : A} → none ≢ some a
none≢some e = cc

pub false≢true : false ≢ true
false≢true e = cc

pub then_inv {ℓ} : {A : Type ℓ} (b : Bool) (x y z : A) → b ≡ true → (if b then x else y) ≡ z → x ≡ z
then_inv true x y z on e = e
then_inv false x y z on e = absurd (false≢true on)

pub else_inv {ℓ} :
    {A : Type ℓ} (b : Bool) (x y z : A) → b ≡ false → (if b then x else y) ≡ z → y ≡ z
else_inv true x y z off e = absurd (false≢true (sym off))
else_inv false x y z off e = e

pub if_true {ℓ} : {A : Type ℓ} (b : Bool) (x y : A) → b ≡ true → (if b then x else y) ≡ x
if_true true x y on = refl
if_true false x y on = absurd (false≢true on)

pub if_false {ℓ} : {A : Type ℓ} (b : Bool) (x y : A) → b ≡ false → (if b then x else y) ≡ y
if_false true x y off = absurd (false≢true (sym off))
if_false false x y off = refl

pub bound {ℓ} :
    {A B : Type ℓ} (o : Option A) (f : A → Option B) (a : A) → o ≡ some a → (o >>= f) ≡ f a
bound o f a e = ap (λ p. p >>= f) e

pub if_inv {ℓ} :
    {A : Type ℓ} (b : Bool) (o : Option A) (a u : A)
    → (if b then o else some a) ≡ some u
    → ((b ≡ true) × (o ≡ some u)) ⊎ ((b ≡ false) × (a ≡ u))
if_inv true o a u e = inl (refl, e)
if_inv false o a u e = inr (refl, of_some_eq e)

pub bind_inv {ℓ} :
    {A B : Type ℓ} (o : Option A) (f : A → Option B) (b : B)
    → (o >>= f) ≡ some b
    → (a : A) × (o ≡ some a) × (f a ≡ some b)
bind_inv none f b e = absurd (none≢some e)
bind_inv (some a) f b e = (a, refl, e)

pub if-or : (b c : Bool) → (if b then true else c) ≡ (b || c)
if-or true c = refl
if-or false c = refl
