-- ===== src/Display/Menus/Pages.antt =====
-- The pages on the display's buffer of 128 by 64 pixels.
use ventilation_system_proje.Common.{
  ℕ, ◌+◌, ◌-◌, ◌^◌, ◌≤◌, ◌<◌, ◌≡◌, refl, ◌∙◌, Bool, true, false, Option, some, List, [], ◌∷◌, arith,
  ◌==◌, if◌then◌else◌, ◌>>=◌, All, u16,
}
use ventilation_system_proje.Common.Int.{ℤ}
use ventilation_system_proje.Display.MonoVlsb.{MonoVlsb, fill_rect}
use ventilation_system_proje.Display.MonoVlsb.Pixels.{IsValid}
use ventilation_system_proje.Display.MonoVlsb.Rect.{fill_rect-Shows}
use ventilation_system_proje.Display.Framebuf.{rect, fill, text}
use ventilation_system_proje.Display.Framebuf.Safe.{text-Draws}
use ventilation_system_proje.Display.Canvas.{mono_virtual, mono_class}
use ventilation_system_proje.Display.Menus.{
  Command, draw_fill, draw_rect, draw_text, draw_one, draw, menu_entry, start_menu, sensor_page,
  control_page, Readings, MainState, switch_display, switch_mode, main_menu,
}
use ventilation_system_proje.Display.Menus.TextInput.{text_page}

-- A rectangle that is inside the picture; the other calls may be anywhere.
abbrev pub Fits : Command → Type 0
Fits (draw_fill color) = Unit
Fits (draw_rect x y w h color filled) = (0 < w) × (0 < h) × (x + w ≤ 128) × (y + h ≤ 64)
Fits (draw_text str x y color) = Unit

-- A valid buffer of the display's size.
pub record IsScreen (m : MonoVlsb) : Type 0 where
  pub valid : IsValid m
  pub width : m.width ≡ 128
  pub height : m.height ≡ 64

-- Drawing returns such a buffer.
abbrev pub Keeps : Option MonoVlsb → Type 0
Keeps out = (m : MonoVlsb) × (out ≡ some m) × IsScreen m

then_lem :
    (out : Option MonoVlsb) (f : MonoVlsb → Option MonoVlsb)
    → Keeps out
    → ((m : MonoVlsb) → IsScreen m → Keeps (f m))
    → Keeps (out >>= f)
then_lem out f (m, e, v) h = rw e (h m v)

fill_rect-Keeps :
    (m : MonoVlsb) (x y w h color : ℕ)
    → IsScreen m
    → x + w ≤ 128
    → y + h ≤ 64
    → Keeps (fill_rect x y w h color m)
fill_rect-Keeps m x y w h color v hx hy =
    let s =
      fill_rect-Shows h m x y w color v.valid (omega (arith, v.width)) (omega (arith, v.height)) in
    (
      s.next,
      s.returns,
      record { valid = s.valid; width = s.width ∙ v.width; height = s.height ∙ v.height },
    )

rect-Keeps :
    (filled : Bool) (m : MonoVlsb) (x y w h color : ℕ)
    → IsScreen m
    → Fits (draw_rect x y w h color filled)
    → Keeps (rect mono_virtual x y w h color filled m)
unfolding rect
rect-Keeps true m x y w h color v (hw, hh, hx, hy) = fill_rect-Keeps m x y w h color v hx hy
rect-Keeps false m x y w h color v (hw, hh, hx, hy) =
    then_lem _ _ (fill_rect-Keeps m x y w 1 color v hx (omega arith)) (λ m1 v1.
      then_lem _ _ (fill_rect-Keeps m1 x (u16 (y + h + (2 ^ 16 - 1))) w 1 color v1 hx (omega arith))
        (λ m2 v2. then_lem _ _ (fill_rect-Keeps m2 x y 1 h color v2 (omega arith) hy) (λ m3 v3.
          fill_rect-Keeps m3 (u16 (x + w + (2 ^ 16 - 1))) y 1 h color v3 (omega arith) hy)))

text-Keeps :
    (str : List ℕ) (x y color : ℕ) (m : MonoVlsb)
    → IsScreen m
    → Keeps (text mono_virtual str x y color m)
text-Keeps str x y color m v =
    let d = text-Draws mono_class str x y color m v.valid in
    (
      d.next,
      d.returns,
      record { valid = d.good; width = d.width ∙ v.width; height = d.height ∙ v.height },
    )

draw_one-Keeps :
    (k : Command) (m : MonoVlsb) → Fits k → IsScreen m → Keeps (draw_one mono_virtual k m)
unfolding draw_one fill
draw_one-Keeps (draw_fill color) m h v =
    fill_rect-Keeps m 0 0 m.width m.height color v (omega (arith, v.width))
      (omega (arith, v.height))
draw_one-Keeps (draw_rect x y w h color filled) m fits v = rect-Keeps filled m x y w h color v fits
draw_one-Keeps (draw_text str x y color) m h v = text-Keeps str x y color m v

draw-Keeps :
    (ks : List Command) (m : MonoVlsb) → All Fits ks → IsScreen m → Keeps (draw mono_virtual ks m)
unfolding draw
draw-Keeps [] m h v = (m, refl, v)
draw-Keeps (k ∷ ks) m h v =
    then_lem _ _ (draw_one-Keeps k m h.0 v) (λ m' v'. draw-Keeps ks m' h.1 v')

entry-Fits :
    (chosen : Bool) (label : List ℕ) (y : ℕ) (rest : List Command)
    → y + 14 ≤ 64
    → All Fits rest
    → All Fits (menu_entry chosen label y rest)
entry-Fits true label y rest h r = ((omega arith, omega arith, omega arith, h), (tt, r))
entry-Fits false label y rest h r = ((omega arith, omega arith, omega arith, h), (tt, r))

start_menu-Fits : (p : ℤ) → All Fits (start_menu p)
unfolding start_menu
start_menu-Fits p = (
  tt,
  entry-Fits _ _ 5 _ (omega arith)
      (entry-Fits _ _ 25 _ (omega arith) (entry-Fits _ _ 45 [] (omega arith) tt)),
)

control_page-Fits : (manual : Bool) (f p t : ℤ) → All Fits (control_page manual f p t)
control_page-Fits true f p t = ground arith
control_page-Fits false f p t = ground arith

pages-Fits :
    (sensors control manual : Bool) (r : Readings) (s1 s2 : MainState)
    (out : MainState × List Command)
    → out ≡ (
        if sensors
        then (s1, sensor_page r.temp r.co2 r.rh r.ah)
        else if control
        then (s2, control_page manual r.fan_speed r.pressure r.target_pressure)
        else (s1, []))
    → All Fits out.1
pages-Fits true control manual r s1 s2 out e = rw e (ground arith)
pages-Fits false true manual r s1 s2 out e =
    rw e (control_page-Fits manual r.fan_speed r.pressure r.target_pressure)
pages-Fits false false manual r s1 s2 out e = rw e tt

main_menu-Fits : (r : Readings) (s : MainState) → All Fits (main_menu r s).1
unfolding main_menu
main_menu-Fits r s =
    let s1 = switch_display s in
    let s2 = switch_mode s1 in
    pages-Fits (s1.display_mode == 0) (s1.display_mode == 1) (s2.mode == 1) r s1 s2 (main_menu r s)
      refl

text_page-Fits :
    (stage input_len : ℕ) (str : List ℕ) (three : ℕ × ℕ × ℕ)
    → All Fits (text_page stage str input_len three)
text_page-Fits stage input_len str (before, chosen, behind) = ground arith

-- On a valid buffer of the display's size every page is drawn inside the buffer, which stays valid
-- and of its size: the start page at any position, the main page in any state with any numbers,
-- and the page of the text input with any text, however far it is moved to the left.
pub pages_lem :
    (m : MonoVlsb)
    → IsScreen m
    → ((p : ℤ) → Keeps (draw mono_virtual (start_menu p) m))
      × ((r : Readings) (s : MainState) → Keeps (draw mono_virtual (main_menu r s).1 m))
      × ((stage input_len : ℕ) (str : List ℕ) (three : ℕ × ℕ × ℕ)
          → Keeps (draw mono_virtual (text_page stage str input_len three) m))
pages_lem m v = (
  λ p. draw-Keeps (start_menu p) m (start_menu-Fits p) v,
  λ r s. draw-Keeps (main_menu r s).1 m (main_menu-Fits r s) v,
  λ stage input_len str three.
      draw-Keeps (text_page stage str input_len three) m (text_page-Fits stage input_len str three)
        v,
)
