-- ===== src/Display/Framebuf.antt =====
-- `framebuf` of src/display/framebuf.h and framebuf.cpp, over the three virtual functions and the
-- two sizes of the class that implements it, which are the parameter `fb`.
pub mod Scroll
pub mod Line
pub mod Safe
use ventilation_system_proje.Common.{
  ◌>>=◌, ℕ, zero, suc, ◌+◌, ◌-◌, ◌*◌, ◌^◌, bit_and, Bool, ◌||◌, Option, some, List, [], ◌∷◌, ltb,
  ◌==◌, if◌then◌else◌, get_or, u16, ◌>>>◌,
}
use ventilation_system_proje.Common.Int.{ℤ, pos, negsuc, ◌+ℤ◌, ◌-ℤ◌, ltb_ℤ, to_u16, pos_part}
use ventilation_system_proje.Display.Font.{font_petme128_8x8}

-- `none` is what C leaves undefined: a place outside the buffer.
pub record Virtual : Type 1 where
  pub Canvas : Type 0
  pub width : Canvas → ℕ
  pub height : Canvas → ℕ
  pub setpixel : ℕ → ℕ → ℕ → Canvas → Option Canvas
  pub getpixel : ℕ → ℕ → Canvas → Option ℕ
  pub fill_rect : ℕ → ℕ → ℕ → ℕ → ℕ → Canvas → Option Canvas

-- A character's code, with those outside the font replaced, and one of its columns.
abbrev pub in_font : ℕ → ℕ
in_font chr = if ltb chr 32 || ltb 127 chr then 127 else chr

abbrev pub column_of : ℕ → ℕ → ℕ
column_of chr j = get_or font_petme128_8x8 ((in_font chr - 32) * 8 + j) 0

module _ (fb : Virtual) where
  open fb use {Canvas, width, height, setpixel, getpixel, fill_rect}

  abbrev pub hline : ℕ → ℕ → ℕ → ℕ → Canvas → Option Canvas
  hline x y w color c = fill_rect x y w 1 color c

  abbrev pub vline : ℕ → ℕ → ℕ → ℕ → Canvas → Option Canvas
  vline x y h color c = fill_rect x y 1 h color c

  -- `y + h - 1` is a 16-bit argument.
  unfoldable pub rect : ℕ → ℕ → ℕ → ℕ → ℕ → Bool → Canvas → Option Canvas
  rect x y w h color fill c = if fill then fill_rect x y w h color c else (do
    c1 ← fill_rect x y w 1 color c
    c2 ← fill_rect x (u16 (y + h + (2 ^ 16 - 1))) w 1 color c1
    c3 ← fill_rect x y 1 h color c2
    fill_rect (u16 (x + w + (2 ^ 16 - 1))) y 1 h color c3)

  unfoldable pub fill : ℕ → Canvas → Option Canvas
  fill color c = fill_rect 0 0 (width c) (height c) color c

  -- The scan over a column whose data is below `2 ^ n`.
  unfoldable pub scan : ℕ → ℕ → ℕ → ℕ → ℕ → Canvas → Option Canvas
  scan zero vline_data x y1 color c = some c
  scan (suc n) vline_data x y1 color c = if vline_data == 0 then some c else (do
    c' ←
        (if bit_and vline_data 1 == 1
          then if ltb y1 (height c) then setpixel x y1 color c else some c
          else some c)
    scan n (vline_data >>> 1) x (y1 + 1) color c')

  -- The loop over the columns of one character, with `n` left; `x` is a 16-bit number.
  unfoldable pub draw_columns : ℕ → ℕ → ℕ → ℕ → ℕ → Canvas → Option (ℕ × Canvas)
  unfolding scan
  draw_columns zero chr x y color c = some (x, c)
  draw_columns (suc n) chr x y color c = do
    c' ← (if ltb x (width c) then scan 8 (column_of chr (7 - n)) x y color c else some c)
    draw_columns n chr (u16 (x + 1)) y color c'

  -- `text` over the characters up to the terminating zero.
  unfoldable pub text : List ℕ → ℕ → ℕ → ℕ → Canvas → Option Canvas
  unfolding draw_columns
  text [] x y color c = some c
  text (chr ∷ str) x y color c = do
    next ← draw_columns 8 chr x y color c
    text str next.0 y color next.1
