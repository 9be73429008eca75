-- ===== src/Display/Framebuf/Safe.antt =====
-- Drawing a text or a line never leaves the buffer, over any class whose pixel functions keep to
-- their picture.
use ventilation_system_proje.Common.{
  ℕ, zero, suc, ◌+◌, ◌-◌, ◌*◌, ◌≤◌, ◌<◌, bit_and, ◌≡◌, refl, ap, ◌∙◌, inl, inr, Bool, true, false,
  Option, some, List, [], ◌∷◌, arith, dec_lt, ltb, ◌==◌, if◌then◌else◌, lt→ltb, Bool-cases,
  of_some_eq, ◌>>=◌, le→ltb, u16, ◌>>>◌,
}
use ventilation_system_proje.Common.Int.{ℤ, pos, negsuc, ◌+ℤ◌, ◌-ℤ◌, pos_part, neg_part}
use ventilation_system_proje.Display.Framebuf.{Virtual, scan, draw_columns, text, column_of}
use ventilation_system_proje.Display.Framebuf.Line.{step, clip, rows_on, line_loop, line}

-- What a class promises of `setpixel`: inside the picture it returns a good canvas of the same
-- sizes.
pub record Drawn (fb : Virtual) (IsGood : fb.Canvas → Type 0) (c : fb.Canvas)
    (out : Option fb.Canvas) : Type 0 where
  pub next : fb.Canvas
  pub returns : out ≡ some next
  pub good : IsGood next
  pub width : fb.width next ≡ fb.width c
  pub height : fb.height next ≡ fb.height c

pub record Class : Type 1 where
  pub fb : Virtual
  pub IsGood : fb.Canvas → Type 0
  pub setpixel-Drawn :
      (x y color : ℕ) (c : fb.Canvas)
      → IsGood c
      → x < fb.width c
      → y < fb.height c
      → Drawn fb IsGood c (fb.setpixel x y color c)

module _ (k : Class) where
  open k use {fb, IsGood}

  abbrev pub Draws : fb.Canvas → Option fb.Canvas → Type 0
  Draws c out = Drawn fb IsGood c out

  Draws-self : (c : fb.Canvas) → IsGood c → Draws c (some c)
  Draws-self c g = record { next = c; returns = refl; good = g; width = refl; height = refl }

  -- One drawing after another.
  Draws-then :
      (c : fb.Canvas) (out : Option fb.Canvas) (f : fb.Canvas → Option fb.Canvas)
      → Draws c out
      → ((c' : fb.Canvas)
          → IsGood c'
          → fb.width c' ≡ fb.width c
          → fb.height c' ≡ fb.height c
          → Draws c' (f c'))
      → Draws c (out >>= f)
  Draws-then c out f d h =
      let e = h d.next d.good d.width d.height in
      record {
        next = e.next;
        returns = ap (λ o. o >>= f) d.returns ∙ e.returns;
        good = e.good;
        width = e.width ∙ d.width;
        height = e.height ∙ d.height;
      }

  dot-Draws :
      (b : Bool) (x y color : ℕ) (c : fb.Canvas)
      → IsGood c
      → x < fb.width c
      → Draws c
          (if b then if ltb y (fb.height c) then fb.setpixel x y color c else some c else some c)
  dot-Draws false x y color c g hx = Draws-self c g
  dot-Draws true x y color c g hx = elim (dec_lt y (fb.height c)) [
    | yes inside ↦ rw (lt→ltb y (fb.height c) inside) (k.setpixel-Drawn x y color c g hx inside)
    | no outside ↦ rw (le→ltb y (fb.height c) (omega arith)) (Draws-self c g)
  ]

  scan-Draws :
      (n bits x y1 color : ℕ) (c : fb.Canvas)
      → IsGood c
      → x < fb.width c
      → Draws c (scan fb n bits x y1 color c)
  unfolding scan
  scan-Draws zero bits x y1 color c g hx = Draws-self c g
  scan-Draws (suc n) bits x y1 color c g hx = elim (Bool-cases (bits == 0)) [
    | inl done ↦ rw (done) (Draws-self c g)
    | inr more ↦ rw (more) (
        Draws-then c _ (scan fb n (bits >>> 1) x (y1 + 1) color)
          (dot-Draws (bit_and bits 1 == 1) x y1 color c g hx)
          (λ c' g' w h. scan-Draws n (bits >>> 1) x (y1 + 1) color c' g' (omega arith)))
  ]

  column-Draws :
      (chr j x y color : ℕ) (c : fb.Canvas)
      → IsGood c
      → Draws c (if ltb x (fb.width c) then scan fb 8 (column_of chr j) x y color c else some c)
  column-Draws chr j x y color c g = elim (dec_lt x (fb.width c)) [
    | yes inside ↦
        rw (lt→ltb x (fb.width c) inside) (scan-Draws 8 (column_of chr j) x y color c g inside)
    | no outside ↦ rw (le→ltb x (fb.width c) (omega arith)) (Draws-self c g)
  ]

  columns-Draws :
      (n chr x y color : ℕ) (c : fb.Canvas)
      → IsGood c
      → (x' : ℕ) × (c' : fb.Canvas) × (draw_columns fb n chr x y color c ≡ some (x', c'))
        × Draws c (some c')
  unfolding draw_columns
  columns-Draws zero chr x y color c g = (x, c, refl, Draws-self c g)
  columns-Draws (suc n) chr x y color c g =
      let d = column-Draws chr (7 - n) x y color c g in
      let (x', c', e, r) = columns-Draws n chr (u16 (x + 1)) y color d.next d.good in
      (
        x',
        c',
        ap (λ o. o >>= (λ t. draw_columns fb n chr (u16 (x + 1)) y color t)) d.returns ∙ e,
        record {
          next = r.next;
          returns = r.returns;
          good = r.good;
          width = r.width ∙ d.width;
          height = r.height ∙ d.height;
        },
      )

  -- Over any class whose `setpixel` works inside its picture, drawing any text at any place
  -- returns, with every write inside the picture, whether or not the text fits.
  pub text-Draws :
      (str : List ℕ) (x y color : ℕ) (c : fb.Canvas) → IsGood c → Draws c (text fb str x y color c)
  unfolding text
  text-Draws [] x y color c g = Draws-self c g
  text-Draws (chr ∷ str) x y color c g =
      let (x', c', e, r) = columns-Draws 8 chr x y color c g in
      let same = of_some_eq r.returns in
      let rest =
        Draws-then c (some c') (text fb str x' y color) r
          (λ c2 g2 w h. text-Draws str x' y color c2 g2) in
      record {
        next = rest.next;
        returns = ap (λ o. o >>= (λ t. text fb str t.0 y color t.1)) e ∙ rest.returns;
        good = rest.good;
        width = rest.width;
        height = rest.height;
      }

  clip-Draws : (x y color : ℕ) (c : fb.Canvas) → IsGood c → Draws c (clip fb x y color c)
  clip-Draws x y color c g = elim (dec_lt x (fb.width c)) [
    | yes in_x ↦ elim (dec_lt y (fb.height c)) [
      | yes in_y ↦
          rw (lt→ltb x (fb.width c) in_x, lt→ltb y (fb.height c) in_y)
            (k.setpixel-Drawn x y color c g in_x in_y)
      | no out_y ↦
          rw (lt→ltb x (fb.width c) in_x, le→ltb y (fb.height c) (omega arith)) (Draws-self c g)
    ]
    | no out_x ↦ rw (le→ltb x (fb.width c) (omega arith)) (Draws-self c g)
  ]

  -- The error term stays below `2 * dx`, so that the row moves at most once in a round.
  Below : ℕ → ℤ → Type 0
  Below dx e = pos_part e < neg_part e + 2 * dx

  rows_on_once :
      (dx dy y1 : ℕ) (up : Bool) (e : ℤ)
      → dy ≤ dx
      → Below dx e
      → (y' : ℕ) × (e' : ℤ) × (rows_on fb 2 dx up y1 e ≡ some (y', e'))
        × Below dx (e' +ℤ pos (2 * dy))
  unfolding rows_on Below
  rows_on_once dx dy y1 up (negsuc n) h b = (y1, negsuc n, ground arith, ground arith)
  rows_on_once dx dy y1 up (pos n) h b =
      (step up y1, pos n -ℤ pos (2 * dx), ground arith, ground arith)

  place-Draws :
      (steep : Bool) (x y color : ℕ) (c : fb.Canvas)
      → IsGood c
      → Draws c (if steep then clip fb y x color c else clip fb x y color c)
  place-Draws true x y color c g = clip-Draws y x color c g
  place-Draws false x y color c g = clip-Draws x y color c g

  line_loop-Draws :
      (n : ℕ) (steep : Bool) (dx dy : ℕ) (sx sy : Bool) (color x1 y1 : ℕ) (e : ℤ) (c : fb.Canvas)
      → dy ≤ dx
      → Below dx e
      → IsGood c
      → Draws c (line_loop fb n steep dx dy sx sy color x1 y1 e c)
  unfolding line_loop
  line_loop-Draws zero steep dx dy sx sy color x1 y1 e c h b g = Draws-self c g
  line_loop-Draws (suc n) steep dx dy sx sy color x1 y1 e c h b g =
      let (y', e', moved, b') = rows_on_once dx dy y1 sy e h b in
      rw (moved) (
        Draws-then c _ (line_loop fb n steep dx dy sx sy color (step sx x1) y' (e' +ℤ pos (2 * dy)))
          (place-Draws steep x1 y1 color c g)
          (λ c' g' w t.
            line_loop-Draws n steep dx dy sx sy color (step sx x1) y' (e' +ℤ pos (2 * dy)) c' h b'
              g'))

  starts-Below : (d dy : ℕ) → dy ≤ suc d → Below (suc d) (pos (2 * dy) -ℤ pos (suc d))
  unfolding Below
  starts-Below d dy h = ground arith

  -- Without a length there is no round.
  line_start :
      (steep : Bool) (dx dy : ℕ) (sx sy : Bool) (color x1 y1 : ℕ) (c : fb.Canvas)
      → dy ≤ dx
      → IsGood c
      → Draws c (line_loop fb dx steep dx dy sx sy color x1 y1 (pos (2 * dy) -ℤ pos dx) c)
  unfolding line_loop
  line_start steep zero dy sx sy color x1 y1 c h g = Draws-self c g
  line_start steep (suc d) dy sx sy color x1 y1 c h g =
      line_loop-Draws (suc d) steep (suc d) dy sx sy color x1 y1 (pos (2 * dy) -ℤ pos (suc d)) c h
        (starts-Below d dy h) g

  -- Over any class whose `setpixel` works inside its picture, drawing a line between any two
  -- places returns: the inner loop over the rows ends, and every write is inside the picture.
  pub line-Draws :
      (x1 y1 x2 y2 color : ℕ) (c : fb.Canvas) → IsGood c → Draws c (line fb x1 y1 x2 y2 color c)
  unfolding line
  line-Draws x1 y1 x2 y2 color c g =
      let sx = ltb x1 x2 in
      let dx = if sx then x2 - x1 else x1 - x2 in
      let sy = ltb y1 y2 in
      let dy = if sy then y2 - y1 else y1 - y2 in
      Draws-then c _ (clip fb x2 y2 color)
        (elim (dec_lt dx dy) [
          | yes steep ↦
              rw (lt→ltb dx dy steep) (line_start true dy dx sy sx color y1 x1 c (omega arith) g)
          | no flat ↦
              rw (le→ltb dx dy (omega arith))
                (line_start false dx dy sx sy color x1 y1 c (omega arith) g)
        ])
        (λ c' g' w h. clip-Draws x2 y2 color c' g')
