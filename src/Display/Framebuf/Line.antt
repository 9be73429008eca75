-- ===== src/Display/Framebuf/Line.antt =====
-- `framebuf::line`. The coordinates are 16-bit numbers, and what is computed from them is signed.
use ventilation_system_proje.Common.{
  ℕ, zero, suc, ◌+◌, ◌-◌, ◌*◌, ◌^◌, Bool, true, false, ◌&&◌, Option, none, some, ltb, if◌then◌else◌,
  ◌>>=◌, u16,
}
use ventilation_system_proje.Common.Int.{ℤ, pos, ◌+ℤ◌, ◌-ℤ◌, ltb_ℤ}
use ventilation_system_proje.Display.Framebuf.{Virtual}

-- One step of a 16-bit coordinate, up or down.
abbrev pub step : Bool → ℕ → ℕ
step up v = if up then u16 (v + 1) else u16 (v + (2 ^ 16 - 1))

module _ (fb : Virtual) where
  open fb use {Canvas, width, height, setpixel}

  abbrev pub clip : ℕ → ℕ → ℕ → Canvas → Option Canvas
  clip x y color c = if ltb x (width c) && ltb y (height c) then setpixel x y color c else some c

  -- `while (e >= 0)`: the row moves, and `2 * dx` is taken off; `none` if the fuel is short.
  unfoldable pub rows_on : ℕ → ℕ → Bool → ℕ → ℤ → Option (ℕ × ℤ)
  rows_on zero dx up y1 e = if ltb_ℤ e (pos 0) then some (y1, e) else none
  rows_on (suc fuel) dx up y1 e =
      let later = rows_on fuel dx up (step up y1) (e -ℤ pos (2 * dx)) in
      if ltb_ℤ e (pos 0) then some (y1, e) else later

  -- The loop of `line` with `n` of its `dx` rounds left.
  unfoldable pub line_loop : ℕ → Bool → ℕ → ℕ → Bool → Bool → ℕ → ℕ → ℕ → ℤ → Canvas → Option Canvas
  unfolding rows_on
  line_loop zero steep dx dy sx sy color x1 y1 e c = some c
  line_loop (suc n) steep dx dy sx sy color x1 y1 e c = do
    c' ← (if steep then clip y1 x1 color c else clip x1 y1 color c)
    moved ← rows_on 2 dx sy y1 e
    line_loop n steep dx dy sx sy color (step sx x1) moved.0 (moved.1 +ℤ pos (2 * dy)) c'

  unfoldable pub line : ℕ → ℕ → ℕ → ℕ → ℕ → Canvas → Option Canvas
  unfolding line_loop
  line x1 y1 x2 y2 color c =
      let sx = ltb x1 x2 in
      let dx = if sx then x2 - x1 else x1 - x2 in
      let sy = ltb y1 y2 in
      let dy = if sy then y2 - y1 else y1 - y2 in
      do
        c' ←
            (if ltb dx dy
              then line_loop dy true dy dx sy sx color y1 x1 (pos (2 * dx) -ℤ pos dy) c
              else line_loop dx false dx dy sx sy color x1 y1 (pos (2 * dy) -ℤ pos dx) c)
        clip x2 y2 color c'
