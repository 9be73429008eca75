-- ===== src/Display/Menus/Overrun.antt =====
-- Where `textInput` leaves its arrays.
use ventilation_system_proje.Common.{
  ℕ, ◌+◌, ◌-◌, ◌%◌, ◌≤◌, ◌<◌, ◌≡◌, refl, sym, ap, ◌∙◌, ◌≢◌, ◌↔◌, ◌⊎◌, inl, inr, true, false, ◌&&◌,
  Option, none, some, List, arith, ltb, ◌==◌, lt→ltb, Bool-cases, ◌>>=◌, le→ltb, length, replicate,
  length-append, length-replicate,
}
use ventilation_system_proje.Common.Int.{pos}
use ventilation_system_proje.Input.{Inputs, return_state, return_pin, set_state}
use ventilation_system_proje.Display.Menus.{Command}
use ventilation_system_proje.Display.Menus.TextInput.{
  numbers, TextState, press, neighbours, text_page, text_input_from, start_stage, text_input,
}
use ventilation_system_proje.Display.Menus.Editing.{
  IsText, letters, array_at-letters, letters_count, length-letters,
}
use ventilation_system_proje.Display.Menus.Typing.{
  strlen-IsText, c_string-IsText, text_input_from_lem, start_stage-IsText,
}

-- A character typed behind the 59th, whose zero goes behind the array.
abbrev pub IsFull : List ℕ → Inputs → Type 0
IsFull t inputs = (return_state inputs ≡ true) × (return_pin inputs ≡ 8) × (length t ≡ 59)

-- The array turned from the special characters to the digits, at a place that these do not have
-- with both of its neighbours; the first place has the last of the 31 as its neighbour.
abbrev pub IsBeyond : ℕ → ℕ → Inputs → Type 0
IsBeyond p a inputs =
    (return_state inputs ≡ true) × (return_pin inputs ≡ 9) × (a ≡ 2) × ((p ≡ 0) ⊎ (9 ≤ p))

neighbours_iff : (p : ℕ) → p < 31 → (neighbours numbers (pos p) 31 ≡ none) ↔ ((p ≡ 0) ⊎ (9 ≤ p))
unfolding neighbours
neighbours_iff p h = ground arith

none_iff :
    (o : Option (ℕ × ℕ × ℕ)) (f : ℕ × ℕ × ℕ → TextState × Inputs × List Command)
    → ((o >>= λ t. some (f t)) ≡ none) ↔ (o ≡ none)
none_iff o f = ground arith

press_full :
    (p : ℕ) (t : List ℕ) (s : TextState)
    → IsText t s
    → length t ≡ 59
    → p < length (letters s.current_array)
    → press 8 (pos p) (length t) s ≡ none
unfolding press
press_full p t s v e h =
    let size : length s.input_string ≡ 60 =
      ap length v.held
      ∙ omega (
        arith,
        length-append t (replicate (60 - length t) 0),
        length-replicate {A = ℕ} (60 - length t) 0,
        e,
      ) in
    let full : ltb (length t + 1) (length s.input_string) ≡ false =
      le→ltb _ _ (omega (arith, size, e)) in
    rw (lt→ltb (length t) 60 v.short, array_at-letters s.current_array v.array, lt→ltb p _ h, full)
      refl

full_lem :
    (stage n : ℕ) (t : List ℕ) (s : TextState) (inputs : Inputs)
    → IsText t s
    → IsFull t inputs
    → text_input_from stage (pos n) s inputs ≡ none
unfolding text_input_from
full_lem stage n t s inputs v (on, pin, e) =
    let some_chars : 0 < length (letters s.current_array) =
      ground (arith, length-letters s.current_array v.array) in
    let below : n % length (letters s.current_array) < length (letters s.current_array) =
      grind arith in
    rw
      (
        array_at-letters s.current_array v.array,
        strlen-IsText t s v,
        on,
        pin,
        press_full _ t s v e below,
      )
      refl

beyond_lem :
    (stage n : ℕ) (t : List ℕ) (s : TextState) (inputs : Inputs)
    → IsText t s
    → return_state inputs ≡ true
    → return_pin inputs ≡ 9
    → s.current_array ≡ 2
    → text_input_from stage (pos n) s inputs ≡ (
        neighbours numbers (pos (n % 31)) 31 >>= λ three.
        some (record s { current_array = 3 }, set_state inputs, text_page stage t (length t) three))
unfolding text_input_from press
beyond_lem stage n t s inputs v on pin two =
    rw (two, strlen-IsText t s v, on, pin, c_string-IsText t s v) refl

abbrev pub Leaves : ℕ → ℕ → List ℕ → Inputs → Type 0
Leaves a n t inputs = IsFull t inputs ⊎ IsBeyond (n % letters_count a) a inputs

returns_lem :
    (stage n : ℕ) (t : List ℕ) (s : TextState) (inputs : Inputs)
    → IsText t s
    → (IsFull t inputs → ⊥)
    → (return_state inputs ≡ true → return_pin inputs ≡ 9 → s.current_array ≢ 2)
    → text_input_from stage (pos n) s inputs ≢ none
returns_lem stage n t s inputs v space turn e =
    let room : return_state inputs ≡ true → return_pin inputs ≡ 8 → length t < 59 =
      λ on pin. omega (arith, v.short, λ (l : length t ≡ 59). space (on, pin, l)) in
    let (s', done, held, array) = text_input_from_lem stage n t s inputs v room turn in
    cc (sym e ∙ done)

beyond_iff :
    (stage n : ℕ) (t : List ℕ) (s : TextState) (inputs : Inputs)
    → IsText t s
    → return_state inputs ≡ true
    → return_pin inputs ≡ 9
    → s.current_array ≡ 2
    → (text_input_from stage (pos n) s inputs ≡ none) ↔ ((n % 31 ≡ 0) ⊎ (9 ≤ n % 31))
beyond_iff stage n t s inputs v on pin two =
    let same = beyond_lem stage n t s inputs v on pin two in
    let out = none_iff (neighbours numbers (pos (n % 31)) 31) (λ three.
      (record s { current_array = 3 }, set_state inputs, text_page stage t (length t) three)) in
    let range = neighbours_iff (n % 31) (omega arith) in
    (λ e. range.0 (out.0 (sym same ∙ e)), λ h. same ∙ out.1 (range.1 h))

overrun_iff :
    (stage n : ℕ) (t : List ℕ) (s : TextState) (inputs : Inputs)
    → IsText t s
    → (text_input_from stage (pos n) s inputs ≡ none) ↔ Leaves s.current_array n t inputs
overrun_iff stage n t s inputs v = (
  λ e. elim (Bool-cases (return_state inputs && (return_pin inputs == 9 && s.current_array == 2))) [
    | inl b ↦
        let on : return_state inputs ≡ true = ground arith in
        let pin : return_pin inputs ≡ 9 = ground arith in
        let two : s.current_array ≡ 2 = ground arith in
        let out = (beyond_iff stage n t s inputs v on pin two).0 e in inr (on, pin, two, rw two out)
    | inr b ↦
        elim (Bool-cases (return_state inputs && (return_pin inputs == 8 && length t == 59))) [
          | inl f ↦ inl (ground arith)
          | inr f ↦
              absurd (
                returns_lem stage n t s inputs v (λ h. ground arith) (λ on pin two. ground arith) e)
        ]
  ],
  λ h. elim h [
    | inl full ↦ full_lem stage n t s inputs v full
    | inr (on, pin, two, out) ↦ (beyond_iff stage n t s inputs v on pin two).1 (rw two at out)
  ],
)

-- With a text in the array and a rotary position that is not negative, `textInput` leaves its
-- arrays (what C leaves undefined) exactly when a character is typed behind the 59th, or the
-- array is turned from the 31 special characters to the ten digits at a place that is the first
-- or from the tenth on.
pub text_input_iff :
    (stage n : ℕ) (t : List ℕ) (s : TextState) (inputs : Inputs)
    → IsText t s
    → (text_input stage (pos n) s inputs ≡ none) ↔ (
        IsFull t inputs
        ⊎ IsBeyond
            (n % letters_count (start_stage stage s).current_array)
            (start_stage stage s).current_array
            inputs)
unfolding text_input
text_input_iff stage n t s inputs v =
    overrun_iff stage n t (start_stage stage s) inputs (start_stage-IsText stage t s v)
