-- ===== src/Display/Menus/Editing.antt =====
-- What the text input does to the text that it holds.
use ventilation_system_proje.Common.{
  ℕ, zero, suc, ◌+◌, ◌-◌, ◌%◌, ◌≤◌, ◌<◌, ◌≡◌, refl, sym, ap, ap₂, ◌∙◌, inl, inr, true, false, some,
  List, [], ◌∷◌, ◌++◌, arith, ltb, ◌==◌, if◌then◌else◌, lt→ltb, Bool-cases, ◌>>=◌, length, get_or,
  set, take, replicate, All, length-append, length-replicate, length-take, All-append,
}
use ventilation_system_proje.Common.Int.{pos}
use ventilation_system_proje.Display.Menus.TextInput.{
  alphabets_cap, alphabets, characters, numbers, array_at, TextState, strlen, c_string, strcat,
  press, neighbours,
}

-- The state holds a text of fewer than 60 characters, with zeros behind it.
pub record IsText (t : List ℕ) (s : TextState) : Type 0 where
  pub held : s.input_string ≡ t ++ replicate (60 - length t) 0
  pub short : length t < 60
  pub printing : All (λ c. 0 < c) t
  pub array : s.current_array < 4

pub strlen-held :
    (t : List ℕ) (k : ℕ) → All (λ c. 0 < c) t → strlen (t ++ replicate (suc k) 0) ≡ some (length t)
strlen-held [] k h = refl
strlen-held (c ∷ t) k h =
    let ne : (c == 0) ≡ false = ground arith in
    rw ne (ap (λ o. o >>= λ n. some (suc n)) (strlen-held t k h.1))

pub c_string-held :
    (t : List ℕ) (k : ℕ) → All (λ c. 0 < c) t → c_string (t ++ replicate (suc k) 0) ≡ some t
c_string-held [] k h = refl
c_string-held (c ∷ t) k h =
    let ne : (c == 0) ≡ false = ground arith in
    rw ne (ap (λ o. o >>= λ n. some (c ∷ n)) (c_string-held t k h.1))

append-held :
    (t : List ℕ) (k c : ℕ)
    → set (set (t ++ replicate (suc (suc k)) 0) (length t) c) (suc (length t)) 0
      ≡ (t ++ c ∷ []) ++ replicate (suc k) 0
append-held [] k c = refl
append-held (x ∷ t) k c = ap (λ l. x ∷ l) (append-held t k c)

erase-held :
    (x : ℕ) (t : List ℕ) (k : ℕ)
    → set ((x ∷ t) ++ replicate k 0) (length t) 0 ≡ take (length t) (x ∷ t) ++ replicate (suc k) 0
erase-held x [] k = refl
erase-held x (y ∷ t) k = ap (λ l. x ∷ l) (erase-held y t k)

get_or-All : (P : ℕ → Type 0) (l : List ℕ) (i d : ℕ) → All P l → i < length l → P (get_or l i d)
get_or-All P [] i d h k = absurd (omega arith)
get_or-All P (x ∷ l) zero d h k = h.0
get_or-All P (x ∷ l) (suc i) d h k = get_or-All P l i d h.1 (omega arith)

-- The array of a number below four.
abbrev pub letters : ℕ → List ℕ
letters a =
    if a == 0
    then alphabets_cap
    else if a == 1
    then alphabets
    else if a == 2
    then characters
    else numbers

pub array_at-letters : (a : ℕ) → a < 4 → array_at a ≡ some (letters a)
array_at-letters zero h = refl
array_at-letters (suc zero) h = refl
array_at-letters (suc (suc zero)) h = refl
array_at-letters (suc (suc (suc zero))) h = refl
array_at-letters (suc (suc (suc (suc a)))) h = absurd (omega arith)

letters_printing : (a : ℕ) → a < 4 → All (λ c. 0 < c) (letters a)
letters_printing zero h = omega arith
letters_printing (suc zero) h = omega arith
letters_printing (suc (suc zero)) h = omega arith
letters_printing (suc (suc (suc zero))) h = omega arith
letters_printing (suc (suc (suc (suc a)))) h = absurd (omega arith)

-- How many there are.
abbrev pub letters_count : ℕ → ℕ
letters_count a = if a == 2 then 31 else if a == 3 then 10 else 26

pub length-letters : (a : ℕ) → a < 4 → length (letters a) ≡ letters_count a
length-letters zero h = refl
length-letters (suc zero) h = refl
length-letters (suc (suc zero)) h = refl
length-letters (suc (suc (suc zero))) h = refl
length-letters (suc (suc (suc (suc a)))) h = absurd (omega arith)

-- The characters around the place `p` of the first `n` of an array, in a circle.
abbrev pub around : List ℕ → ℕ → ℕ → ℕ × ℕ × ℕ
around chars p n = (
  get_or chars (if p == 0 then n - 1 else p - 1) 0,
  get_or chars p 0,
  get_or chars (if ltb (p + 1) n then p + 1 else 0) 0,
)

pub neighbours-around :
    (chars : List ℕ) (p n : ℕ)
    → p < n
    → n ≤ length chars
    → neighbours chars (pos p) n ≡ some (around chars p n)
unfolding neighbours
neighbours-around chars p n h k = ground arith

-- What a button does to the text, with `c` the chosen character, and to the number of the array.
abbrev pub edited : ℕ → ℕ → List ℕ → List ℕ
edited pin c t = if pin == 8 then t ++ c ∷ [] else if pin == 7 then take (length t - 1) t else t

abbrev pub turned : ℕ → ℕ → ℕ
turned pin a = if pin == 9 then (a + 1) % 4 else a

strcat-held :
    (t s : List ℕ) (c : ℕ)
    → length t < 59
    → s ≡ t ++ replicate (60 - length t) 0
    → strcat s (length t) c ≡ some ((t ++ c ∷ []) ++ replicate (60 - length (t ++ c ∷ [])) 0)
strcat-held t s c h e =
    let k = 58 - length t in
    let two : 60 - length t ≡ suc (suc k) = omega arith in
    let one : 60 - length (t ++ c ∷ []) ≡ suc k = omega (arith, length-append t (c ∷ [])) in
    let next : length t + 1 ≡ suc (length t) = omega arith in
    let size : length (t ++ replicate (suc (suc k)) 0) ≡ 60 = omega (
      arith,
      length-append t (replicate (suc (suc k)) 0),
      length-replicate {A = ℕ} (suc (suc k)) 0,
    ) in
    let room : ltb (suc (length t)) (length (t ++ replicate (suc (suc k)) 0)) ≡ true =
      lt→ltb _ _ (omega (arith, size)) in
    rw (e, two, one, next, room) (ap some (append-held t k c))

All-take : (P : ℕ → Type 0) (n : ℕ) (l : List ℕ) → All P l → All P (take n l)
All-take P zero l h = tt
All-take P (suc n) [] h = tt
All-take P (suc n) (x ∷ l) h = (h.0, All-take P n l h.1)

-- Without its last character.
erased-IsText :
    (t : List ℕ) (s : TextState)
    → IsText t s
    → (str : List ℕ)
    → str ≡ (if ltb 0 (length t) then set s.input_string (length t - 1) 0 else s.input_string)
    → IsText (take (length t - 1) t) (record s { input_string = str })
erased-IsText [] s v str e = record {
  held = e ∙ v.held;
  short = v.short;
  printing = tt;
  array = v.array;
}
erased-IsText (x ∷ t) s v str e =
    let e' : str ≡ set s.input_string (suc (length t) - 1) 0 =
      e ∙ (rw (lt→ltb 0 (suc (length t)) (omega arith)) refl) in
    let front : suc (length t) - 1 ≡ length t = omega arith in
    let size : length (take (length t) (x ∷ t)) ≡ length t =
      omega (arith, length-take (length t) (x ∷ t)) in
    let more : 60 - length (take (length t) (x ∷ t)) ≡ suc (60 - suc (length t)) =
      omega (arith, size, v.short) in
    rw (front) (record {
      held =
          e'
          ∙ ap₂ (λ l i. set l i 0) v.held front
          ∙ erase-held x t (60 - suc (length t))
          ∙ ap (λ n. take (length t) (x ∷ t) ++ replicate n 0) (sym more);
      short = omega (arith, size, v.short);
      printing = All-take (λ (c : ℕ). 0 < c) (length t) (x ∷ t) v.printing;
      array = v.array;
    })

module _ (t : List ℕ) (s : TextState) (v : IsText t s) where
  typed-IsText :
      (c : ℕ) (str : List ℕ)
      → 0 < c
      → length t < 59
      → str ≡ (t ++ c ∷ []) ++ replicate (60 - length (t ++ c ∷ [])) 0
      → IsText (t ++ c ∷ []) (record s { input_string = str })
  typed-IsText c str h k e = record {
    held = e;
    short = omega (arith, length-append t (c ∷ []));
    printing = All-append (λ (x : ℕ). 0 < x) t (c ∷ []) v.printing (h, tt);
    array = v.array;
  }

  pub press-typed :
      (p : ℕ)
      → p < length (letters s.current_array)
      → length t < 59
      → (s' : TextState) × (press 8 (pos p) (length t) s ≡ some s')
        × IsText (t ++ get_or (letters s.current_array) p 0 ∷ []) s'
        × (s'.current_array ≡ s.current_array)
  unfolding press
  press-typed p h k =
      let c = get_or (letters s.current_array) p 0 in
      let more = strcat-held t s.input_string c k v.held in
      (
        record s { input_string = (t ++ c ∷ []) ++ replicate (60 - length (t ++ c ∷ [])) 0 },
        rw
            (
              lt→ltb (length t) 60 v.short,
              array_at-letters s.current_array v.array,
              lt→ltb p _ h,
              more,
            )
            refl,
        typed-IsText c _
            (get_or-All (λ (x : ℕ). 0 < x) (letters s.current_array) p 0
              (letters_printing s.current_array v.array) h)
            k refl,
        refl,
      )

  pub press-erased :
      (p : ℕ)
      → (s' : TextState) × (press 7 (pos p) (length t) s ≡ some s')
        × IsText (take (length t - 1) t) s'
        × (s'.current_array ≡ s.current_array)
  unfolding press
  press-erased p = elim (Bool-cases (ltb 0 (length t))) [
    | inl some_left ↦ rw some_left (_, refl, erased-IsText t s v _ (rw some_left refl), refl)
    | inr empty ↦ rw empty (_, refl, erased-IsText t s v _ (rw empty refl), refl)
  ]

  pub press-turned :
      (p : ℕ)
      → (s' : TextState) × (press 9 (pos p) (length t) s ≡ some s')
        × IsText t s'
        × (s'.current_array ≡ turned 9 s.current_array)
  unfolding press
  press-turned p = (
    _,
    refl,
    record {
      held = v.held;
      short = v.short;
      printing = v.printing;
      array = ground (arith, v.array);
    },
    ground (arith, v.array),
  )
