-- ===== src/Display/MonoVlsb/Rect.antt =====
-- `fill_rect` of `mono_vlsb` paints exactly its rectangle.
use ventilation_system_proje.Common.{
  ℕ, zero, suc, ◌+◌, ◌%◌, ◌≤◌, ◌<◌, ◌≡◌, refl, ap, ◌∙◌, ◌&&◌, arith, ltb, leb, ◌==◌, if◌then◌else◌,
  ◌>>=◌, u16,
}
use ventilation_system_proje.Common.Or.{bit_and_0x7}
use ventilation_system_proje.Display.MonoVlsb.{MonoVlsb, index, fill_row, fill_rect}
use ventilation_system_proje.Display.MonoVlsb.Bit.{shade}
use ventilation_system_proje.Display.MonoVlsb.Pixels.{
  IsValid, pixel, Shows, written, written-IsValid, pixel-written, put-written, index_in,
}

-- The picture with `n` pixels of a row painted, and with a rectangle.
abbrev rowed : (ℕ → ℕ → ℕ) → ℕ → ℕ → ℕ → ℕ → ℕ → ℕ → ℕ
rowed f x y n color x' y' =
    if (y' == y) && (leb x x' && ltb x' (x + n)) then shade color else f x' y'

abbrev pub boxed : (ℕ → ℕ → ℕ) → ℕ → ℕ → ℕ → ℕ → ℕ → ℕ → ℕ → ℕ
boxed f x y w h color x' y' =
    if (leb y y' && ltb y' (y + h)) && (leb x x' && ltb x' (x + w)) then shade color else f x' y'

rowed-step :
    (f g : ℕ → ℕ → ℕ) (x y n color x' y' : ℕ)
    → g x' y' ≡ (if (x' == x) && (y' == y) then shade color else f x' y')
    → rowed g (x + 1) y n color x' y' ≡ rowed f x y (suc n) color x' y'
rowed-step f g x y n color x' y' e = ground (arith, e)

fill_row-Shows :
    (n : ℕ) (m : MonoVlsb) (x y color : ℕ)
    → IsValid m
    → x + n ≤ m.width
    → y < m.height
    → Shows m (rowed (pixel m) x y n color) (fill_row n (index x y m) (y % 8) color m)
unfolding fill_row
fill_row-Shows zero m x y color v hx hy = record {
  next = m;
  returns = refl;
  valid = v;
  width = refl;
  height = refl;
  picture = λ x' y' hx' hy'. ground arith;
}
fill_row-Shows (suc n) m x y color v hx hy =
    let i = index x y m in
    let m1 = written i (y % 8) color m in
    let rest =
      fill_row-Shows n m1 (x + 1) y color (written-IsValid i (y % 8) color m v) (omega arith) hy in
    let start : i + 1 ≡ index (x + 1) y m1 = omega arith in
    record {
      next = rest.next;
      returns =
          ap (λ o. o >>= (λ t. fill_row n (i + 1) (y % 8) color t))
            (put-written i (y % 8) color m (index_in m x y v (omega arith) hy))
          ∙ ap (λ t. fill_row n t (y % 8) color m1) start
          ∙ rest.returns;
      valid = rest.valid;
      width = rest.width;
      height = rest.height;
      picture = λ x' y' hx' hy'.
          rest.picture x' y' hx' hy'
          ∙ rowed-step (pixel m) (pixel m1) x y n color x' y'
              (pixel-written m x y color x' y' v (omega arith) hx');
    }

boxed-step :
    (f g : ℕ → ℕ → ℕ) (x y w h color x' y' : ℕ)
    → g x' y' ≡ (if (y' == y) && (leb x x' && ltb x' (x + w)) then shade color else f x' y')
    → boxed g x (y + 1) w h color x' y' ≡ boxed f x y w (suc h) color x' y'
boxed-step f g x y w h color x' y' e = ground (arith, e)

-- On a valid buffer, for a rectangle inside the picture, `fill_rect` paints exactly its pixels,
-- leaves every other pixel as it was, and never writes outside the buffer.
pub fill_rect-Shows :
    (h : ℕ) (m : MonoVlsb) (x y w color : ℕ)
    → IsValid m
    → x + w ≤ m.width
    → y + h ≤ m.height
    → Shows m (boxed (pixel m) x y w h color) (fill_rect x y w h color m)
unfolding fill_rect
fill_rect-Shows zero m x y w color v hx hy = record {
  next = m;
  returns = refl;
  valid = v;
  width = refl;
  height = refl;
  picture = λ x' y' hx' hy'. ground arith;
}
fill_rect-Shows (suc h) m x y w color v hx hy =
    let row = fill_row-Shows w m x y color v hx (omega arith) in
    let wide = row.width in
    let high = row.height in
    let tall = v.tall in
    let rest = fill_rect-Shows h row.next x (y + 1) w color row.valid (omega arith) (omega arith) in
    let below : u16 (y + 1) ≡ y + 1 = omega arith in
    record {
      next = rest.next;
      returns =
          ap
            (λ o.
              fill_row w (index x y m) o color m >>= (λ t. fill_rect x (u16 (y + 1)) w h color t))
            (bit_and_0x7 y)
          ∙ ap (λ o. o >>= (λ t. fill_rect x (u16 (y + 1)) w h color t)) row.returns
          ∙ ap (λ t. fill_rect x t w h color row.next) below
          ∙ rest.returns;
      valid = rest.valid;
      width = rest.width ∙ wide;
      height = rest.height ∙ high;
      picture = λ x' y' hx' hy'.
          rest.picture x' y' (omega arith) (omega arith)
          ∙ boxed-step (pixel m) (pixel row.next) x y w h color x' y' (row.picture x' y' hx' hy');
    }
