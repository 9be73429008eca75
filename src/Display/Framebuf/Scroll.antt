-- ===== src/Display/Framebuf/Scroll.antt =====
-- `framebuf::blit` and `framebuf::scroll`. The steps and the place of the source are signed.
use ventilation_system_proje.Common.{
  ℕ, zero, suc, ◌+◌, ◌-◌, min, Bool, ◌||◌, Option, none, some, leb, ◌==◌, if◌then◌else◌, ◌>>=◌, u16,
}
use ventilation_system_proje.Common.Int.{ℤ, pos, ◌-ℤ◌, ltb_ℤ, to_u16, pos_part, neg_part}
use ventilation_system_proje.Display.Framebuf.{Virtual}

module _ (fb : Virtual) where
  open fb use {Canvas, width, height, setpixel, getpixel}

  abbrev pub palette_of : Option Canvas → ℕ → Option ℕ
  palette_of none col = some col
  palette_of (some p) col = fb.getpixel (u16 col) 0 p

  -- The inner loop of `blit`, with `n` columns left.
  unfoldable pub blit_row : ℕ → ℕ → ℕ → ℕ → ℕ → ℕ → Option Canvas → Canvas → Canvas → Option Canvas
  blit_row zero cx0 y0 cx1 y1 key palette source c = some c
  blit_row (suc n) cx0 y0 cx1 y1 key palette source c = do
    seen ← getpixel (u16 cx1) (u16 y1) source
    col ← palette_of palette seen
    c' ← (if col == key then some c else setpixel (u16 cx0) (u16 y0) col c)
    blit_row n (cx0 + 1) y0 (cx1 + 1) y1 key palette source c'

  unfoldable pub blit_rows :
      ℕ → ℕ → ℕ → ℕ → ℕ → ℕ → ℕ → Option Canvas → Canvas → Canvas → Option Canvas
  unfolding blit_row
  blit_rows zero columns x0 y0 x1 y1 key palette source c = some c
  blit_rows (suc n) columns x0 y0 x1 y1 key palette source c = do
    c' ← blit_row columns x0 y0 x1 y1 key palette source c
    blit_rows n columns x0 (y0 + 1) x1 (y1 + 1) key palette source c'

  -- The source is another canvas than the target.
  unfoldable pub blit : Canvas → ℤ → ℤ → ℕ → Option Canvas → Canvas → Option Canvas
  unfolding blit_rows
  blit source x y key palette c =
      let x0 = pos_part x in
      let y0 = pos_part y in
      let x1 = neg_part x in
      let y1 = neg_part y in
      let x0end = min (width c) (x0 + width source - x1) in
      let y0end = min (height c) (y0 + height source - y1) in
      if (leb (width c) x0 || leb (height c) y0)
        || (leb (width source) x1 || leb (height source) y1)
      then some c
      else blit_rows (y0end - y0) (x0end - x0) x0 y0 x1 y1 key palette source c

  -- The inner loop of `scroll` with `n` columns left, from `x` on, upwards or downwards.
  unfoldable pub scroll_row : ℕ → Bool → ℕ → ℕ → ℤ → ℤ → Canvas → Option Canvas
  scroll_row zero up x y xstep ystep c = some c
  scroll_row (suc n) up x y xstep ystep c = do
    seen ← getpixel (to_u16 (pos x -ℤ xstep)) (to_u16 (pos y -ℤ ystep)) c
    c' ← setpixel (u16 x) (u16 y) seen c
    scroll_row n up (if up then x + 1 else x - 1) y xstep ystep c'

  unfoldable pub scroll_rows : ℕ → Bool → ℕ → Bool → ℕ → ℕ → ℤ → ℤ → Canvas → Option Canvas
  unfolding scroll_row
  scroll_rows zero down y up x columns xstep ystep c = some c
  scroll_rows (suc n) down y up x columns xstep ystep c = do
    c' ← scroll_row columns up x y xstep ystep c
    scroll_rows n down (if down then y + 1 else y - 1) up x columns xstep ystep c'

  -- Along a negative step the loop runs from 0 up to `size + step`, else from `size - 1` down to
  -- `step`; the number of rounds in both is the size less the step.
  unfoldable pub scroll : ℤ → ℤ → Canvas → Option Canvas
  unfolding scroll_rows
  scroll xstep ystep c =
      let up = ltb_ℤ xstep (pos 0) in
      let down = ltb_ℤ ystep (pos 0) in
      let columns = width c - (pos_part xstep + neg_part xstep) in
      let rows = height c - (pos_part ystep + neg_part ystep) in
      let x = if up then 0 else width c - 1 in
      let y = if down then 0 else height c - 1 in
      if columns == 0 || rows == 0
      then some c
      else scroll_rows rows down y up x columns xstep ystep c
