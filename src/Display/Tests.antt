-- ===== src/Display/Tests.antt =====
-- The theorems of the frame buffer on the display of main.cpp, 128 by 64 pixels.
use ventilation_system_proje.Common.{refl, [], ◌∷◌, arith}
use ventilation_system_proje.Display.MonoVlsb.{MonoVlsb, fill_rect}
use ventilation_system_proje.Display.MonoVlsb.Pixels.{IsValid, pixel, Shows}
use ventilation_system_proje.Display.MonoVlsb.Rect.{boxed, fill_rect-Shows}
use ventilation_system_proje.Display.Framebuf.{text}
use ventilation_system_proje.Display.Framebuf.Line.{line}
use ventilation_system_proje.Display.Framebuf.Safe.{Draws, text-Draws, line-Draws}
use ventilation_system_proje.Display.Canvas.{mono_virtual, mono_class}

abbrev screen : MonoVlsb
screen = record {
  width = 128;
  height = 64;
  size = 1024;
  stride = 128;
  buffer_offset = 0;
  buffer = λ _. 0;
}

screen-IsValid : IsValid screen
screen-IsValid = record { bytes = λ i. omega arith; rows = refl; tall = omega arith; room = refl }

fill_rect-Shows_example :
    Shows screen (boxed (pixel screen) 100 60 28 4 1) (fill_rect 100 60 28 4 1 screen)
fill_rect-Shows_example =
    fill_rect-Shows 4 screen 100 60 28 1 screen-IsValid (omega arith) (omega arith)

-- Half of the last character is outside.
text-Draws_example : Draws mono_class screen (text mono_virtual (72 ∷ 105 ∷ []) 116 60 1 screen)
text-Draws_example = text-Draws mono_class (72 ∷ 105 ∷ []) 116 60 1 screen screen-IsValid

line-Draws_example : Draws mono_class screen (line mono_virtual 120 60 200 10 1 screen)
line-Draws_example = line-Draws mono_class 120 60 200 10 1 screen screen-IsValid
