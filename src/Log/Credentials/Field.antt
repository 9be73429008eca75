-- ===== src/Log/Credentials/Field.antt =====
-- A credential that was stored with its checksum is what is fetched.
use ventilation_system_proje.Common.{
  ℕ, zero, suc, ◌+◌, ◌-◌, ◌/◌, ◌%◌, ◌^◌, ◌≤◌, ◌≡◌, refl, sym, ap, ◌∙◌, subst, true, some, List, [],
  ◌∷◌, ◌++◌, append_assoc, arith, le→leb, le→ltb, length, take, drop, All, length-append,
  take-length-append, All-append, read_n, read_n-take, u8,
}
use ventilation_system_proje.Common.Int.{pos}
use ventilation_system_proje.Crc.Fold.{IsByte}
use ventilation_system_proje.Log.{append_crc, verify_data_integrity}
use ventilation_system_proje.Log.Frame.{append_crc_verifies}
use ventilation_system_proje.Log.Frame.{append_crc_verifies}
use ventilation_system_proje.Crc.Fold.{IsByte}
use ventilation_system_proje.Log.Credentials.{copy_at, create_credential_array, credential, fetched}

-- The bytes of a credential without its checksum.
abbrev pub body : List ℕ → List ℕ
body str = 1 ∷ (length str + 5) ∷ str ++ 0 ∷ []

-- The front of a list behind which more follows.
take-front : (xs ys : List ℕ) → take (length xs) (xs ++ ys) ≡ xs
take-front xs ys = take-length-append xs ys

drop-front : (xs ys : List ℕ) → drop (length xs) (xs ++ ys) ≡ ys
drop-front [] ys = refl
drop-front (x ∷ xs) ys = drop-front xs ys

-- An array with room for a credential and its checksum.
pub data Room (n : ℕ) : List ℕ → Type 0 where
  room :
      (x0 x1 : ℕ) (front : List ℕ) (a b : ℕ) (rest : List ℕ)
      → length front ≡ n + 1
      → Room n (x0 ∷ x1 ∷ front ++ a ∷ b ∷ rest)

split_at :
    (k : ℕ) (ys : List ℕ)
    → k + 2 ≤ length ys
    → (front : List ℕ) × (a : ℕ) × (b : ℕ) × (rest : List ℕ) × (ys ≡ front ++ a ∷ b ∷ rest)
      × (length front ≡ k)
split_at zero [] h = absurd (omega arith)
split_at zero (a ∷ []) h = absurd (omega arith)
split_at zero (a ∷ b ∷ rest) h = ([], a, b, rest, refl, refl)
split_at (suc k) [] h = absurd (omega arith)
split_at (suc k) (y ∷ ys) h =
    let (front, a, b, rest, e, l) = split_at k ys (omega arith) in
    (y ∷ front, a, b, rest, ap (λ t. y ∷ t) e, ap suc l)

enough-Room : (n : ℕ) (raw : List ℕ) → n + 5 ≤ length raw → Room n raw
enough-Room n [] h = absurd (omega arith)
enough-Room n (x0 ∷ []) h = absurd (omega arith)
enough-Room n (x0 ∷ x1 ∷ ys) h =
    let (front, a, b, rest, e, l) = split_at (n + 1) ys (omega arith) in
    subst (λ t. Room n (x0 ∷ x1 ∷ t)) (sym e) (room x0 x1 front a b rest l)

copy_at-head :
    (p q x0 x1 : ℕ) (r : List ℕ) → copy_at 0 (p ∷ q ∷ []) (x0 ∷ x1 ∷ r) ≡ some (p ∷ q ∷ r)
unfolding copy_at
copy_at-head p q x0 x1 r = rw (le→leb 2 (length (x0 ∷ x1 ∷ r)) (omega arith)) refl

copy_at-behind :
    (p q : ℕ) (xs front r : List ℕ)
    → length front ≡ length xs
    → copy_at 2 xs (p ∷ q ∷ front ++ r) ≡ some (p ∷ q ∷ xs ++ r)
unfolding copy_at
copy_at-behind p q xs front r e =
    let at : 2 + length xs ≡ suc (suc (length front)) = omega arith in
    let fits =
      le→leb (2 + length xs) (length (p ∷ q ∷ front ++ r)) (omega (arith, length-append front r)) in
    rw (fits) (
      ap (λ t. some (p ∷ q ∷ xs ++ drop t (p ∷ q ∷ front ++ r))) at
      ∙ ap (λ t. some (p ∷ q ∷ xs ++ t)) (drop-front front r))

created :
    (str : List ℕ) (raw : List ℕ)
    → length str ≤ 60
    → Room (length str) raw
    → (a b : ℕ) × (rest : List ℕ) × (create_credential_array str raw
        ≡ some (body str ++ a ∷ b ∷ rest, pos (length str + 3)))
unfolding create_credential_array
created str _ h (room x0 x1 front a b rest e) =
    let size = length-append str (0 ∷ []) in
    let byte : u8 (length str + 5) ≡ length str + 5 = omega arith in
    (
      a,
      b,
      rest,
      rw
          (
            le→ltb 60 (length str) h,
            copy_at-head 1 (u8 (length str + 5)) x0 x1 (front ++ a ∷ b ∷ rest),
            copy_at-behind 1 (u8 (length str + 5)) (str ++ 0 ∷ []) front (a ∷ b ∷ rest)
                (omega arith),
            byte,
          )
          refl,
    )

length-body : (str : List ℕ) → length (body str) ≡ length str + 3
length-body str = omega (arith, length-append str (0 ∷ []))

body-IsByte : (str : List ℕ) → length str ≤ 59 → All IsByte str → All IsByte (body str)
body-IsByte str h bytes =
    (omega arith, (omega arith, All-append IsByte str (0 ∷ []) bytes (omega arith)))

-- The array that is stored.
abbrev whole : List ℕ → ℕ → List ℕ → List ℕ
whole str c rest = body str ++ (c / 2 ^ 8) ∷ (c % 2 ^ 8) ∷ rest

-- As many bytes as are written are the text with its checksum.
take-whole :
    (str : List ℕ) (c : ℕ) (rest : List ℕ)
    → take (length str + 5) (whole str c rest) ≡ whole str c []
take-whole str c rest =
    let size : length str + 5 ≡ length (whole str c []) =
      omega (arith, length-body str, length-append (body str) ((c / 2 ^ 8) ∷ (c % 2 ^ 8) ∷ [])) in
    ap (λ n. take n (whole str c rest)) size
    ∙ ap (take (length (whole str c [])))
        (sym (append_assoc (body str) ((c / 2 ^ 8) ∷ (c % 2 ^ 8) ∷ []) rest))
    ∙ take-length-append (whole str c []) rest

read_body :
    (str : List ℕ) (c : ℕ) (page : List ℕ)
    → read_n (length str + 5 - 4) (drop 2 (whole str c page)) ≡ some (str ++ 0 ∷ [])
read_body str c page =
    let text = str ++ 0 ∷ [] in
    let size : length str + 5 - 4 ≡ length text = omega (arith, length-append str (0 ∷ [])) in
    let tail = (c / 2 ^ 8) ∷ (c % 2 ^ 8) ∷ page in
    ap (λ n. read_n n (text ++ tail)) size
    ∙ read_n-take (length text) (text ++ tail) (omega (arith, length-append text tail))
    ∙ ap some (take-length-append text tail)

fetched-whole :
    (str : List ℕ) (c : ℕ) (page : List ℕ)
    → verify_data_integrity (whole str c page) (length (body str) + 2) ≡ some true
    → fetched (whole str c page) ≡ some (some (str ++ 0 ∷ []))
unfolding fetched
fetched-whole str c page ok =
    let size : length (body str) + 2 ≡ length str + 5 = omega (arith, length-body str) in
    let ok' = ap (verify_data_integrity (whole str c page)) (sym size) ∙ ok in
    rw (ok', read_body str c page) refl

-- In an array of 64 bytes of any content, a text of at most 59 bytes that is stored with its checksum gives an array whose first bytes,
-- as many as are written to the EEPROM, are fetched as the text and its terminating zero, whatever
-- the page holds behind them.
pub fetched-credential :
    (str raw page : List ℕ)
    → All IsByte str
    → length str ≤ 59
    → length raw ≡ 64
    → (arr : List ℕ) × (credential true str raw ≡ some (arr, length str + 5))
      × (fetched (take (length str + 5) arr ++ page) ≡ some (some (str ++ 0 ∷ [])))
unfolding credential
fetched-credential str raw page bytes h r =
    let (a, b, rest, made) =
      created str raw (omega arith) (enough-Room (length str) raw (omega arith)) in
    let (c, e, stored, verifies) =
      append_crc_verifies (body str) a b rest (body-IsByte str h bytes) in
    let size = length-body str in
    let total : length (body str) + 2 ≡ length str + 5 = omega arith in
    (
      whole str c rest,
      rw (made) (
          ap (append_crc (body str ++ a ∷ b ∷ rest)) (sym size)
          ∙ stored
          ∙ ap (λ n. some (whole str c rest, n)) total),
      ap (λ t. fetched (t ++ page)) (take-whole str c rest)
          ∙ ap fetched (append_assoc (body str) ((c / 2 ^ 8) ∷ (c % 2 ^ 8) ∷ []) page)
          ∙ fetched-whole str c page (verifies page),
    )
