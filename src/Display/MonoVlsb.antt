-- ===== src/Display/MonoVlsb.antt =====
-- `mono_vlsb` of src/display/mono_vlsb.h and mono_vlsb.cpp: one bit per pixel, eight rows to a byte,
-- the lowest bit on top.
pub mod Bit
pub mod Pixels
pub mod Rect
use ventilation_system_proje.Common.{
  ℕ, zero, suc, ◌+◌, ◌-◌, ◌*◌, ◌/◌, ◌%◌, ◌^◌, List, Option, some, none, ◌>>=◌, bit_and, bit_or,
  ◌==◌, ltb, if◌then◌else◌, u8, u16, u32, ◌<<<◌, ◌>>>◌, get_or,
}

-- The bytes of the buffer are a function of the index; there are `size` of them.
pub record MonoVlsb : Type 0 where
  pub width : ℕ
  pub height : ℕ
  pub size : ℕ
  pub stride : ℕ
  pub buffer_offset : ℕ
  pub buffer : ℕ → ℕ

abbrev pub buffer_size : ℕ → ℕ → ℕ → ℕ
buffer_size width height buf_offset =
    u32 (width * (height / 8 + (if height % 8 == 0 then 0 else 1)) + buf_offset)

unfoldable pub mono_vlsb : ℕ → ℕ → ℕ → ℕ → MonoVlsb
mono_vlsb width height stride buf_offset = record {
  width = width;
  height = height;
  size = buffer_size width height buf_offset;
  stride = if stride == 0 then width else stride;
  buffer_offset = buf_offset;
  buffer = λ _. 0;
}

-- The constructor that copies an image, in the memory `raw` of the new buffer; `none` if the
-- offset is behind the size, or the image is shorter than what is copied.
unfoldable pub mono_vlsb_of : List ℕ → (ℕ → ℕ) → ℕ → ℕ → ℕ → ℕ → MonoVlsb
mono_vlsb_of image raw width height stride buf_offset = record {
  width = width;
  height = height;
  size = buffer_size width height buf_offset;
  stride = if stride == 0 then width else stride;
  buffer_offset = buf_offset;
  buffer = λ i. if ltb i buf_offset then raw i else get_or image (i - buf_offset) 0;
}

-- A byte with the bit `offset` cleared and then set to the color, which counts as one if it is not
-- zero. On a byte, `& ~(0x01 << offset)` is `& (0xFF - (1 << offset))`.
unfoldable pub paint : ℕ → ℕ → ℕ → ℕ
paint b offset color =
    u8 (bit_or (bit_and b (0xFF - (1 <<< offset))) ((if color == 0 then 0 else 1) <<< offset))

abbrev pub index : ℕ → ℕ → MonoVlsb → ℕ
index x y m = (y >>> 3) * m.stride + x + m.buffer_offset

-- A write into the buffer; outside it is undefined in C, and `none` here.
unfoldable pub put : ℕ → ℕ → ℕ → MonoVlsb → Option MonoVlsb
unfolding paint
put i offset color m =
    if ltb i m.size
    then some
        (record m { buffer = λ k. if k == i then paint (m.buffer i) offset color else m.buffer k })
    else none

unfoldable pub setpixel : ℕ → ℕ → ℕ → MonoVlsb → Option MonoVlsb
unfolding put
setpixel x y color m = put (index x y m) (bit_and y 0x07) color m

unfoldable pub getpixel : ℕ → ℕ → MonoVlsb → Option ℕ
getpixel x y m =
    if ltb (index x y m) m.size
    then some (bit_and (m.buffer (index x y m) >>> bit_and y 0x07) 0x01)
    else none

-- The inner loop of `fill_rect`: `ww` bytes from the index on.
unfoldable pub fill_row : ℕ → ℕ → ℕ → ℕ → MonoVlsb → Option MonoVlsb
unfolding put
fill_row zero i offset color m = some m
fill_row (suc ww) i offset color m = do
  m' ← put i offset color m
  fill_row ww (i + 1) offset color m'

-- `h` rows are left; `y` is a 16-bit number.
unfoldable pub fill_rect : ℕ → ℕ → ℕ → ℕ → ℕ → MonoVlsb → Option MonoVlsb
unfolding fill_row
fill_rect x y w zero color m = some m
fill_rect x y w (suc h) color m = do
  m' ← fill_row w (index x y m) (bit_and y 0x07) color m
  fill_rect x (u16 (y + 1)) w h color m'
