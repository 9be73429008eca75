-- ===== src/Display/Canvas.antt =====
-- `mono_vlsb` as a class of `framebuf`: what `ssd1306` draws on.
use ventilation_system_proje.Common.{
  ℕ, ◌+◌, ◌*◌, ◌/◌, ◌%◌, ◌^◌, ◌≤◌, ◌<◌, bit_and, ◌≡◌, refl, ap, arith, ◌==◌, if◌then◌else◌,
}
use ventilation_system_proje.Display.MonoVlsb.{
  MonoVlsb, mono_vlsb, buffer_size, setpixel, getpixel, fill_rect,
}
use ventilation_system_proje.Display.MonoVlsb.Pixels.{IsValid, pixel, setpixel-Shows}
use ventilation_system_proje.Display.Framebuf.{Virtual}
use ventilation_system_proje.Display.Framebuf.Safe.{Drawn, Class}
use native.Mathlib.Nat.{mul-le-mul, zero-div}

abbrev pub mono_virtual : Virtual
mono_virtual = record {
  Canvas = MonoVlsb;
  width = λ m. m.width;
  height = λ m. m.height;
  setpixel = setpixel;
  getpixel = getpixel;
  fill_rect = fill_rect;
}

pub mono-Drawn :
    (x y color : ℕ) (m : MonoVlsb)
    → IsValid m
    → x < m.width
    → y < m.height
    → Drawn mono_virtual IsValid m (setpixel x y color m)
mono-Drawn x y color m v hx hy =
    let s = setpixel-Shows m x y color v hx hy in
    record {
      next = s.next;
      returns = s.returns;
      good = s.valid;
      width = s.width;
      height = s.height;
    }

abbrev pub mono_class : Class
mono_class = record { fb = mono_virtual; IsGood = IsValid; setpixel-Drawn = mono-Drawn }

small_size :
    (width height offset : ℕ)
    → width < 2 ^ 16
    → height < 2 ^ 16
    → offset < 2 ^ 16
    → buffer_size width height offset
      ≡ width * (height / 8 + (if height % 8 == 0 then 0 else 1)) + offset
small_size width height offset hw hh ho =
    let rows : height / 8 + (if height % 8 == 0 then 0 else 1) ≤ 2 ^ 13 = ground arith in
    let wide : width ≤ 2 ^ 16 = omega arith in omega (arith, mul-le-mul (wide) rows)

-- A new buffer without a stride of its own is valid and black, for all sizes of 16 bits.
pub mono_vlsb-IsValid :
    (width height offset : ℕ)
    → width < 2 ^ 16
    → height < 2 ^ 16
    → offset < 2 ^ 16
    → IsValid (mono_vlsb width height 0 offset)
      × ((x y : ℕ) → y < height → pixel (mono_vlsb width height 0 offset) x y ≡ 0)
unfolding mono_vlsb
mono_vlsb-IsValid width height offset hw hh ho = (
  record {
    bytes = λ i. omega arith;
    rows = refl;
    tall = hh;
    room = small_size width height offset hw hh ho;
  },
  λ x y h. ap (λ t. bit_and t 0x1) (zero-div (2 ^ (y % 8))),
)
