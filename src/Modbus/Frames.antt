-- ===== src/Modbus/Frames.antt =====
-- The frames that the register classes send.
use ventilation_system_proje.Common.{
  ℕ, ◌/◌, ◌%◌, ◌^◌, ◌≡◌, refl, ap, ◌∙◌, List, [], ◌∷◌, ◌++◌, Bool, some, u8, u16, ◌>>>◌, ◌==◌,
  if◌then◌else◌, length, length-append, All, Bool-cases, inl, inr, Prefix, rest, item, prefix,
  arith,
}
use mathlib.Core.Path.{subst₂}
use ventilation_system_proje.Crc.Fold.{IsByte}
use ventilation_system_proje.Crc.Modbus.{crc}
use ventilation_system_proje.Crc.Modbus.Laws.{crc-append-crc, crc_prefix}
use ventilation_system_proje.Modbus.{
  ModbusRegister, frame, read_register, write_register, write_u16, write_two_words, write_u32,
}

-- The bytes are `body` with its checksum behind, low byte first, so that the checksum of the whole
-- is zero.
abbrev pub IsSealed : List ℕ → List ℕ → Type 0
IsSealed body bytes =
    (c : ℕ) × (crc body (length body) ≡ some c)
    × (bytes ≡ body ++ (c % 2 ^ 8) ∷ (c / 2 ^ 8) ∷ [])
    × (crc bytes (length bytes) ≡ some 0)

-- What the constructor and the two kinds of requests put in front.
abbrev pub header : ℕ → ℕ → ℕ → ℕ → List ℕ
header device function address count =
    device ∷ function ∷ u8 (address >>> 8) ∷ u8 address ∷ 0 ∷ count ∷ []

-- The values that the code appends to a body seal it.
sealed :
    (body : List ℕ)
    → All IsByte body
    → (c : ℕ) × (crc body (length body) ≡ some c) × IsSealed body (body ++ u8 c ∷ u8 (c >>> 8) ∷ [])
sealed body h =
    let (c, e, w, z) = crc-append-crc body h in
    let cut : u8 (c >>> 8) ≡ c / 2 ^ 8 = omega arith in
    (
      c,
      e,
      (
        c,
        e,
        ap (λ t. body ++ c % 2 ^ 8 ∷ t ∷ []) cut,
        ap (λ t. crc (body ++ c % 2 ^ 8 ∷ t ∷ []) (length (body ++ c % 2 ^ 8 ∷ t ∷ []))) cut
            ∙ ap (crc (body ++ (c % 2 ^ 8) ∷ (c / 2 ^ 8) ∷ []))
                (length-append body ((c % 2 ^ 8) ∷ (c / 2 ^ 8) ∷ []))
            ∙ z,
      ),
    )

abbrev register : List ℕ → ℕ → List ℕ → ℕ → ℕ → ModbusRegister
register rx rx_len p n m = record {
  rxbuf = rx;
  rx_len = rx_len;
  payload = p;
  payload_len = n;
  number_of_registers = m;
}

read_register-parts :
    (rx : List ℕ) (rx_len : ℕ) (p : List ℕ) (n m : ℕ)
    → Prefix ℕ 8 p
    → (device address count : ℕ) (holding : Bool) → IsByte device
    → IsByte count
    → (r : ModbusRegister) × (read_register (register rx rx_len p n m) device address count holding
        ≡ some r)
      × IsSealed (header device (if holding then 3 else 4) address count) (frame r)
unfolding read_register
read_register-parts rx rx_len p n m
      (item a0 (item a1 (item a2 (item a3 (item a4 (item a5 (item a6 (item a7 (rest xs)))))))))
      device address count holding hd hc =
    let body = header device (if holding then 3 else 4) address count in
    let (c, e, s) = sealed body (ground arith) in
    let e' : crc (body ++ a6 ∷ a7 ∷ xs) 6 ≡ some c = crc_prefix body (a6 ∷ a7 ∷ xs) ∙ e in
    (register rx rx_len (body ++ u8 c ∷ u8 (c >>> 8) ∷ xs) 8 count, rw e' refl, s)

-- For a device and a count that are bytes, `ReadRegister` builds, in a payload array of 32 bytes
-- of any content, the request of the device, function 3 for holding and 4 for input registers, the
-- register's address and the count, high bytes first, with the checksum of these six bytes behind
-- them, low byte first, so that the checksum of the whole frame is zero.
pub read_register-frame :
    (raw : ModbusRegister) (device address count : ℕ) (holding : Bool)
    → length raw.payload ≡ 32
    → IsByte device
    → IsByte count
    → (r : ModbusRegister) × (read_register raw device address count holding ≡ some r)
      × IsSealed (header device (if holding then 3 else 4) address count) (frame r)
read_register-frame raw device address count holding h =
    read_register-parts raw.rxbuf raw.rx_len raw.payload raw.payload_len raw.number_of_registers
      (prefix 8 raw.payload (omega arith)) device address count holding

write_u16-parts :
    (rx : List ℕ) (rx_len : ℕ) (p : List ℕ) (n m : ℕ)
    → Prefix ℕ 11 p
    → (device address count value : ℕ) → IsByte device
    → IsByte count
    → (r : ModbusRegister) × (write_u16 value
          (write_register (register rx rx_len p n m) device address count)
        ≡ some r)
      × IsSealed (header device 16 address count ++ 2 ∷ u8 (value >>> 8) ∷ u8 value ∷ []) (frame r)
unfolding write_u16 write_register
write_u16-parts rx rx_len p n m
      (item a0 (
        item a1 (
          item a2 (
            item a3
              (item a4 (item a5 (item a6 (item a7 (item a8 (item a9 (item a10 (rest xs))))))))))))
      device address count value hd hc =
    let body = header device 16 address count ++ 2 ∷ u8 (value >>> 8) ∷ u8 value ∷ [] in
    let (c, e, s) = sealed body (ground arith) in
    let e' : crc (body ++ a9 ∷ a10 ∷ xs) 9 ≡ some c = crc_prefix body (a9 ∷ a10 ∷ xs) ∙ e in
    (register rx rx_len (body ++ u8 c ∷ u8 (c >>> 8) ∷ xs) 11 count, rw e' refl, s)

-- Writing one word sends function 16 with two data bytes, high byte first, sealed.
pub write_u16-frame :
    (raw : ModbusRegister) (device address count value : ℕ)
    → length raw.payload ≡ 32
    → IsByte device
    → IsByte count
    → (r : ModbusRegister) × (write_u16 value (write_register raw device address count) ≡ some r)
      × IsSealed (header device 16 address count ++ 2 ∷ u8 (value >>> 8) ∷ u8 value ∷ []) (frame r)
write_u16-frame raw device address count value h =
    write_u16-parts raw.rxbuf raw.rx_len raw.payload raw.payload_len raw.number_of_registers
      (prefix 11 raw.payload (omega arith)) device address count value

-- The four data bytes of a 32-bit value: the low word first, each word high byte first.
abbrev pub two_words : ℕ → List ℕ
two_words value = u8 (value >>> 8) ∷ u8 value ∷ u8 (value >>> 24) ∷ u8 (value >>> 16) ∷ []

write_two_words-parts :
    (rx : List ℕ) (rx_len : ℕ) (p : List ℕ) (n m : ℕ)
    → Prefix ℕ 13 p
    → (device address count value : ℕ) → IsByte device
    → IsByte count
    → (r : ModbusRegister) × (write_two_words value
          (write_register (register rx rx_len p n m) device address count)
        ≡ some r)
      × IsSealed (header device 16 address count ++ 4 ∷ two_words value) (frame r)
unfolding write_two_words write_register
write_two_words-parts rx rx_len p n m
      (item a0 (
        item a1 (
          item a2 (
            item a3 (
              item a4 (
                item a5 (
                  item a6
                    (item a7 (item a8 (item a9 (item a10 (item a11 (item a12 (rest xs))))))))))))))
      device address count value hd hc =
    let body = header device 16 address count ++ 4 ∷ two_words value in
    let (c, e, s) = sealed body (ground arith) in
    let e' : crc (body ++ a11 ∷ a12 ∷ xs) 11 ≡ some c = crc_prefix body (a11 ∷ a12 ∷ xs) ∙ e in
    (register rx rx_len (body ++ u8 c ∷ u8 (c >>> 8) ∷ xs) 13 count, rw e' refl, s)

-- For a device and a count that are bytes, `start_transfer(uint32_t)` on a `WriteRegister` of more
-- or fewer than one register builds the request of function 16 with four data bytes, the low word
-- first and each word high byte first; on one of one register the request has the low word alone.
-- The checksum follows, low byte first, and that of the whole frame is zero.
pub write_u32-frame :
    (raw : ModbusRegister) (device address count value : ℕ)
    → length raw.payload ≡ 32
    → IsByte device
    → IsByte count
    → (r : ModbusRegister) × (write_u32 value (write_register raw device address count) ≡ some r)
      × IsSealed
          (header device 16 address count
            ++ (if count == 1 then 2 ∷ u8 (value >>> 8) ∷ u8 value ∷ [] else 4 ∷ two_words value))
          (frame r)
unfolding write_u32 write_register
write_u32-frame raw device address count value h hd hc = elim (Bool-cases (count == 1)) [
  | inl one ↦ rw one one_word
  | inr more ↦ rw more two
]
  where
    high : u8 (u16 value >>> 8) ≡ u8 (value >>> 8)
    high = omega arith

    low : u8 (u16 value) ≡ u8 value
    low = omega arith

    one_word :
        (r : ModbusRegister) × (write_u16 (u16 value) (write_register raw device address count)
          ≡ some r)
        × IsSealed
            (header device 16 address count ++ 2 ∷ u8 (value >>> 8) ∷ u8 value ∷ [])
            (frame r)
    one_word =
        let (r, e, s) = write_u16-frame raw device address count (u16 value) h hd hc in
        (
          r,
          e,
          subst₂ (λ a b. IsSealed (header device 16 address count ++ 2 ∷ a ∷ b ∷ []) (frame r)) high
              low s,
        )

    two :
        (r : ModbusRegister) × (write_two_words value (write_register raw device address count)
          ≡ some r)
        × IsSealed (header device 16 address count ++ 4 ∷ two_words value) (frame r)
    two =
        write_two_words-parts raw.rxbuf raw.rx_len raw.payload raw.payload_len
          raw.number_of_registers (prefix 13 raw.payload (omega arith)) device address count value
          hd hc
