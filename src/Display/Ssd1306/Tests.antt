-- ===== src/Display/Ssd1306/Tests.antt =====
-- What the display of main.cpp is sent.
use ventilation_system_proje.Common.{
  ℕ, ◌+◌, ◌*◌, ◌/◌, ◌%◌, ◌<◌, ◌≡◌, refl, List, [], ◌∷◌, arith, length, get_or, take,
}
use ventilation_system_proje.Display.MonoVlsb.{MonoVlsb, mono_vlsb}
use ventilation_system_proje.Display.MonoVlsb.Bit.{bit}
use ventilation_system_proje.Display.MonoVlsb.Pixels.{pixel}
use ventilation_system_proje.Display.Canvas.{mono_vlsb-IsValid}
use ventilation_system_proje.Display.Ssd1306.{init, ssd1306, first_column, last_column, show}
use ventilation_system_proje.Display.Ssd1306.Show.{IsDisplay, window, show_lem}

abbrev picture : MonoVlsb
picture = mono_vlsb 128 64 0 1

picture-IsDisplay : IsDisplay picture
unfolding mono_vlsb
picture-IsDisplay = record {
  valid = (mono_vlsb-IsValid 128 64 1 (omega arith) (omega arith) (omega arith)).0;
  wide = refl;
  whole = refl;
  tall = omega arith;
  small = omega arith;
  front = refl;
}

show_lem_example :
    (bytes : List ℕ) × ((show picture).1 ≡ window 64 (0x40 ∷ bytes))
    × (length bytes ≡ 1024)
    × ((x y : ℕ)
        → x < 128
        → y < 64
        → (bit (get_or bytes (y / 8 * 128 + x) 0) (y % 8) ≡ pixel picture x y)
          × (pixel (show picture).0 x y ≡ pixel picture x y))
    × IsDisplay (show picture).0
unfolding mono_vlsb
show_lem_example = show_lem picture picture-IsDisplay

-- The start sequence turns the display off, sets it up for 64 rows, and turns it on.
start_sequence :
    take 3 (ssd1306 128 64).1 ≡ (0x80 ∷ 0xAE ∷ []) ∷ (0x80 ∷ 0x20 ∷ []) ∷ (0x80 ∷ 0 ∷ []) ∷ []
unfolding ssd1306 init mono_vlsb
start_sequence = refl

-- A display of 64 columns is not written to its middle.
off_centre : (first_column 64 ≡ 64) × (last_column 64 ≡ 127)
off_centre = (refl, refl)
