-- ===== src/Display/Ssd1306.antt =====
-- `ssd1306` of src/display/ssd1306.h and ssd1306.cpp: what the display driver sends over I2C.
pub mod Show
mod Tests
use ventilation_system_proje.Common.{
  ℕ, ◌+◌, ◌-◌, ◌/◌, ◌^◌, List, [], ◌∷◌, map, ltb, ◌==◌, if◌then◌else◌, set, values, u8, u16,
}
use ventilation_system_proje.Display.MonoVlsb.{MonoVlsb, mono_vlsb}

-- The commands of the data sheet.
abbrev pub set_mem_mode : ℕ
set_mem_mode = 0x20

abbrev pub set_col_addr : ℕ
set_col_addr = 0x21

abbrev pub set_page_addr : ℕ
set_page_addr = 0x22

-- The bytes that `init` sends as commands, in their order, with the entry 11 changed for a display
-- of more than 32 rows.
abbrev pub commands : ℕ → List ℕ
commands height =
    let cmds : List ℕ =
      0xAE
      ∷ set_mem_mode
      ∷ 0x00
      ∷ 0x40
      ∷ 0xA1
      ∷ 0xA8
      ∷ u8 (height + (2 ^ 16 - 1))
      ∷ 0xC8
      ∷ 0xD3
      ∷ 0x00
      ∷ 0xDA
      ∷ 0x02
      ∷ 0xD5
      ∷ 0x80
      ∷ 0xD9
      ∷ 0xF1
      ∷ 0xDB
      ∷ 0x30
      ∷ 0x81
      ∷ 0xFF
      ∷ 0xA4
      ∷ 0xA6
      ∷ 0x8D
      ∷ 0x14
      ∷ 0x2E
      ∷ 0xAF
      ∷ [] in
    if ltb 32 height then set cmds 11 0x12 else cmds

-- The bytes of one I2C transfer, to the address of the display.
abbrev pub send_cmd : ℕ → List ℕ
send_cmd cmd = 0x80 ∷ u8 cmd ∷ []

unfoldable pub init : MonoVlsb → List (List ℕ)
init m = map send_cmd (commands m.height)

-- The control byte in front of the pixels.
abbrev pub control : MonoVlsb → MonoVlsb
control m = record m { buffer = λ i. if i == 0 then 0x40 else m.buffer i }

-- The constructor, with what it sends.
unfoldable pub ssd1306 : ℕ → ℕ → MonoVlsb × List (List ℕ)
unfolding init
ssd1306 width height = let m = control (mono_vlsb width height width 1) in (m, init m)

-- The columns that `show` writes to.
abbrev pub first_column : ℕ → ℕ
first_column width = if width == 128 then 0 else u16 (128 + 2 ^ 16 - width)

abbrev pub last_column : ℕ → ℕ
last_column width =
    let x1 = u16 (width + (2 ^ 16 - 1)) in
    if width == 128 then x1 else u16 (x1 + u16 (128 + 2 ^ 16 - width))

unfoldable pub show : MonoVlsb → MonoVlsb × List (List ℕ)
show m =
    let m1 = control m in
    (
      m1,
      send_cmd set_col_addr
          ∷ send_cmd (first_column m.width)
          ∷ send_cmd (last_column m.width)
          ∷ send_cmd set_page_addr
          ∷ send_cmd 0
          ∷ send_cmd (m.height / 8 + (2 ^ 32 - 1))
          ∷ values m1.buffer 0 m1.size
          ∷ [],
    )
