-- ===== src/Display/Ssd1306/Show.antt =====
-- What the display is sent is the picture.
use ventilation_system_proje.Common.{
  ℕ, zero, suc, ◌+◌, ◌-◌, ◌*◌, ◌/◌, ◌%◌, ◌^◌, ◌≤◌, ◌<◌, ◌≡◌, refl, sym, ap, ap₂, ◌∙◌, inl, inr,
  false, List, [], ◌∷◌, arith, ◌==◌, if◌then◌else◌, Bool-cases, length, get_or, values,
}
use ventilation_system_proje.Common.Cells.{length-values}
use ventilation_system_proje.Display.MonoVlsb.{MonoVlsb, index}
use ventilation_system_proje.Display.MonoVlsb.Bit.{bit}
use ventilation_system_proje.Display.MonoVlsb.Pixels.{IsValid, pixel}
use ventilation_system_proje.Display.Ssd1306.{send_cmd, control, first_column, last_column, show}

get_or-values : (f : ℕ → ℕ) (a n i d : ℕ) → i < n → get_or (values f a n) i d ≡ f (a + i)
get_or-values f a zero i d h = absurd (omega arith)
get_or-values f a (suc n) zero d h = ap f (omega arith)
get_or-values f a (suc n) (suc i) d h =
    let next : a + 1 + i ≡ a + suc i = omega arith in
    get_or-values f (a + 1) n i d (omega arith) ∙ ap f next

-- A display of 128 columns whose buffer has a place for the control byte.
pub record IsDisplay (m : MonoVlsb) : Type 0 where
  pub valid : IsValid m
  pub wide : m.width ≡ 128
  pub whole : m.height % 8 ≡ 0
  pub tall : 8 ≤ m.height
  pub small : m.height < 2 ^ 11
  pub front : m.buffer_offset ≡ 1

control_byte : (m : MonoVlsb) → IsValid m → (i : ℕ) → (control m).buffer i < 256
control_byte m v i = elim (Bool-cases (i == 0)) [
  | inl e ↦ rw e (omega arith)
  | inr e ↦ rw e (v.bytes i)
]

control-IsDisplay : (m : MonoVlsb) → IsDisplay m → IsDisplay (control m)
control-IsDisplay m d = record {
  valid = record {
    bytes = control_byte m d.valid;
    rows = d.valid.rows;
    tall = d.valid.tall;
    room = d.valid.room;
  };
  wide = d.wide;
  whole = d.whole;
  tall = d.tall;
  small = d.small;
  front = d.front;
}

-- The window of the whole picture, and a transfer of its bytes.
abbrev pub window : ℕ → List ℕ → List (List ℕ)
window height bytes =
    (0x80 ∷ 0x21 ∷ [])
    ∷ (0x80 ∷ 0 ∷ [])
    ∷ (0x80 ∷ 127 ∷ [])
    ∷ (0x80 ∷ 0x22 ∷ [])
    ∷ (0x80 ∷ 0 ∷ [])
    ∷ (0x80 ∷ (height / 8 - 1) ∷ [])
    ∷ bytes
    ∷ []

display_size : (m : MonoVlsb) → IsDisplay m → m.size ≡ suc (m.height / 8 * 128)
display_size m d =
    let rows : (if m.height % 8 == 0 then 0 else 1) ≡ 0 = ground (arith, d.whole) in
    d.valid.room
    ∙ ap₂ (λ w z. w * (m.height / 8 + z) + m.buffer_offset) d.wide rows
    ∙ omega (arith, d.front)

display_index : (m : MonoVlsb) (x y : ℕ) → IsDisplay m → index x y m ≡ suc (y / 8 * 128 + x)
display_index m x y d = ap₂ (λ w z. y / 8 * w + x + z) (d.valid.rows ∙ d.wide) d.front ∙ omega arith

control_behind : (m : MonoVlsb) (i : ℕ) → (control m).buffer (suc i) ≡ m.buffer (suc i)
control_behind m i = let ne : (suc i == 0) ≡ false = ground arith in rw ne refl

-- On a display of 128 columns, `show` sends the window of all columns and all rows, and then the
-- control byte 0x40 with one byte for each column of each eight rows behind it, in which the bits
-- are the pixels; it leaves the picture as it was, and the buffer fit for the next `show`.
pub show_lem :
    (m : MonoVlsb)
    → IsDisplay m
    → (bytes : List ℕ) × ((show m).1 ≡ window m.height (0x40 ∷ bytes))
      × (length bytes ≡ m.height / 8 * 128)
      × ((x y : ℕ)
          → x < 128
          → y < m.height
          → (bit (get_or bytes (y / 8 * 128 + x) 0) (y % 8) ≡ pixel m x y)
            × (pixel (show m).0 x y ≡ pixel m x y))
      × IsDisplay (show m).0
unfolding show
show_lem m d =
    let n = m.height / 8 * 128 in
    let bytes = values (control m).buffer 1 n in
    let first : send_cmd (first_column m.width) ≡ 0x80 ∷ 0 ∷ [] =
      ap (λ w. send_cmd (first_column w)) d.wide in
    let last : send_cmd (last_column m.width) ≡ 0x80 ∷ 127 ∷ [] =
      ap (λ w. send_cmd (last_column w)) d.wide in
    let pages : send_cmd (m.height / 8 + (2 ^ 32 - 1)) ≡ 0x80 ∷ (m.height / 8 - 1) ∷ [] =
      ap (λ k. 0x80 ∷ k ∷ []) (omega (arith, d.tall, d.small)) in
    let whole : values (control m).buffer 0 m.size ≡ 0x40 ∷ bytes =
      ap (values (control m).buffer 0) (display_size m d) in
    (
      bytes,
      rw (first, last, pages, whole) refl,
      length-values (control m).buffer 1 n,
      λ x y hx hy.
          let place : y / 8 * 128 + x < n = omega (arith, d.whole) in
          let sent : get_or bytes (y / 8 * 128 + x) 0 ≡ (control m).buffer (index x y m) =
            get_or-values (control m).buffer 1 n (y / 8 * 128 + x) 0 place
            ∙ ap (control m).buffer (omega (arith, display_index m x y d)) in
          let kept : (control m).buffer (index x y m) ≡ m.buffer (index x y m) =
            ap (control m).buffer (display_index m x y d)
            ∙ control_behind m (y / 8 * 128 + x)
            ∙ ap m.buffer (sym (display_index m x y d)) in
          (ap (λ b. bit b (y % 8)) (sent ∙ kept), ap (λ b. bit b (y % 8)) kept),
      control-IsDisplay m d,
    )
