-- ===== src/Display/MonoVlsb/Pixels.antt =====
-- What the pixel operations of `mono_vlsb` do to the picture.
use ventilation_system_proje.Common.{
  ℕ, ◌+◌, ◌-◌, ◌*◌, ◌/◌, ◌%◌, ◌^◌, ◌≤◌, ◌<◌, ◌≡◌, refl, sym, ap, ap₂, ◌∙◌, inl, inr, true, false,
  ◌&&◌, Option, some, arith, dec_lt, ◌==◌, if◌then◌else◌, lt→ltb, ==_iff, Bool-cases, ==_ne,
}
use native.Mathlib.Nat.{mul_comm}
use ventilation_system_proje.Common.Or.{bit_and_0x7}
use ventilation_system_proje.Display.MonoVlsb.{MonoVlsb, index, put, paint, setpixel, getpixel}
use ventilation_system_proje.Display.MonoVlsb.Bit.{bit, shade, bit-paint, paint-IsByte}

-- A buffer as the constructor makes it without a stride of its own.
pub record IsValid (m : MonoVlsb) : Type 0 where
  pub bytes : (i : ℕ) → m.buffer i < 256
  pub rows : m.stride ≡ m.width
  pub tall : m.height < 2 ^ 16
  pub room :
      m.size ≡ m.width * (m.height / 8 + (if m.height % 8 == 0 then 0 else 1)) + m.buffer_offset

-- The pixel at a place of the picture.
abbrev pub pixel : MonoVlsb → ℕ → ℕ → ℕ
pixel m x y = bit (m.buffer (index x y m)) (y % 8)

-- A whole row of bytes fits between two rows.
row_above : (a b w : ℕ) → a < b → a * w + w ≤ b * w
row_above a b w h =
    let more : a + 1 + (b - a - 1) ≡ b = omega arith in omega (arith, ap (λ t. t * w) (sym more))

-- The byte of a pixel is inside the buffer.
pub index_in :
    (m : MonoVlsb) (x y : ℕ) → IsValid m → x < m.width → y < m.height → index x y m < m.size
index_in m x y v hx hy =
    let rows = v.rows in
    let room = v.room in
    let above =
      row_above (y / 8) (m.height / 8 + (if m.height % 8 == 0 then 0 else 1)) m.width
        (ground arith) in
    omega (
      arith,
      ap (λ t. y / 8 * t) rows,
      above,
      mul_comm m.width (m.height / 8 + (if m.height % 8 == 0 then 0 else 1)),
    )

-- Two pixels share a byte only in one column and in the same eight rows.
index_injective :
    (m : MonoVlsb) (x y x' y' : ℕ)
    → x < m.stride
    → x' < m.stride
    → index x' y' m ≡ index x y m
    → (x' ≡ x) × (y' / 8 ≡ y / 8)
index_injective m x y x' y' hx hx' e = elim (dec_lt (y / 8) (y' / 8)) [
  | yes below ↦ absurd (omega (arith, row_above (y / 8) (y' / 8) m.stride below))
  | no not_below ↦ elim (dec_lt (y' / 8) (y / 8)) [
    | yes above ↦ absurd (omega (arith, row_above (y' / 8) (y / 8) m.stride above))
    | no not_above ↦
        let same : y' / 8 ≡ y / 8 = omega arith in
        (omega (arith, ap (λ t. t * m.stride) same), same)
  ]
]

-- The picture with one pixel painted.
abbrev pub dotted : (ℕ → ℕ → ℕ) → ℕ → ℕ → ℕ → ℕ → ℕ → ℕ
dotted f x y color x' y' = if (x' == x) && (y' == y) then shade color else f x' y'

-- A buffer of the same shape whose picture is `f`.
pub record Shows (m : MonoVlsb) (f : ℕ → ℕ → ℕ) (out : Option MonoVlsb) : Type 0 where
  pub next : MonoVlsb
  pub returns : out ≡ some next
  pub valid : IsValid next
  pub width : next.width ≡ m.width
  pub height : next.height ≡ m.height
  pub picture : (x y : ℕ) → x < m.width → y < m.height → pixel next x y ≡ f x y

-- The buffer after a write.
abbrev pub written : ℕ → ℕ → ℕ → MonoVlsb → MonoVlsb
written i offset color m = record m {
  buffer = λ k. if k == i then paint (m.buffer i) offset color else m.buffer k;
}

pub written-IsValid :
    (i offset color : ℕ) (m : MonoVlsb) → IsValid m → IsValid (written i offset color m)
written-IsValid i offset color m v = record {
  bytes = λ k. elim (Bool-cases (k == i)) [
    | inl here ↦ rw (here) (paint-IsByte (m.buffer i) offset color)
    | inr there ↦ rw (there) (v.bytes k)
  ];
  rows = v.rows;
  tall = v.tall;
  room = v.room;
}

index_same :
    (m : MonoVlsb) (x y x' y' : ℕ) → ((x' == x) && (y' == y)) ≡ true → index x' y' m ≡ index x y m
index_same m x y x' y' e =
    let (ex, ey) : (x' ≡ x) × (y' ≡ y) = ground arith in ap₂ (λ a b. index a b m) ex ey

pub pixel-written :
    (m : MonoVlsb) (x y color x' y' : ℕ)
    → IsValid m
    → x < m.width
    → x' < m.width
    → pixel (written (index x y m) (y % 8) color m) x' y' ≡ dotted (pixel m) x y color x' y'
pixel-written m x y color x' y' v hx hx' =
    let i = index x y m in
    let i' = index x' y' m in
    let rows = v.rows in
    elim (Bool-cases (i' == i)) [
      | inl one_byte ↦
          let e = (==_iff i' i).0 one_byte in
          let (same_x, same_row) = index_injective m x y x' y' (omega arith) (omega arith) e in
          let in_byte =
            bit-paint (m.buffer i) (y % 8) (y' % 8) color (v.bytes i) (omega arith) (omega arith) in
          elim (Bool-cases (y' % 8 == y % 8)) [
            | inl here ↦
                let same_y : y' ≡ y = omega (arith, (==_iff (y' % 8) (y % 8)).0 here) in
                rw (one_byte)
                  (in_byte ∙ rw (here, (==_iff x' x).1 same_x, (==_iff y' y).1 same_y) refl)
            | inr there ↦
                let other : (y' == y) ≡ false = ground (arith, ==_ne (y' % 8) (y % 8) there) in
                rw (one_byte) (
                  in_byte
                  ∙ rw (there, (==_iff x' x).1 same_x, other)
                      (ap (λ t. bit (m.buffer t) (y' % 8)) (sym e)))
          ]
      | inr other_byte ↦ elim (Bool-cases ((x' == x) && (y' == y))) [
        | inl same ↦ absurd (==_ne i' i other_byte (index_same m x y x' y' same))
        | inr apart ↦ rw (other_byte, apart) refl
      ]
    ]

-- Inside the picture `getpixel` reads the pixel.
pub getpixel-pixel :
    (m : MonoVlsb) (x y : ℕ)
    → IsValid m
    → x < m.width
    → y < m.height
    → getpixel x y m ≡ some (pixel m x y)
unfolding getpixel
getpixel-pixel m x y v hx hy =
    rw (lt→ltb (index x y m) m.size (index_in m x y v hx hy), bit_and_0x7 y) refl

pub put-written :
    (i offset color : ℕ) (m : MonoVlsb)
    → i < m.size
    → put i offset color m ≡ some (written i offset color m)
unfolding put
put-written i offset color m h = rw (lt→ltb i m.size h) refl

-- Inside the picture `setpixel` paints its pixel and leaves every other pixel as it was.
pub setpixel-Shows :
    (m : MonoVlsb) (x y color : ℕ)
    → IsValid m
    → x < m.width
    → y < m.height
    → Shows m (dotted (pixel m) x y color) (setpixel x y color m)
unfolding setpixel
setpixel-Shows m x y color v hx hy = record {
  next = written (index x y m) (y % 8) color m;
  returns =
      ap (λ o. put (index x y m) o color m) (bit_and_0x7 y)
      ∙ put-written (index x y m) (y % 8) color m (index_in m x y v hx hy);
  valid = written-IsValid (index x y m) (y % 8) color m v;
  width = refl;
  height = refl;
  picture = λ x' y' hx' hy'. pixel-written m x y color x' y' v hx hx';
}
