-- ===== src/Display/Menus/Typing.antt =====
-- `textInput` as an editor of a text.
use ventilation_system_proje.Common.{
  ℕ, suc, ◌-◌, ◌%◌, ◌≤◌, ◌<◌, ◌≡◌, refl, sym, ap, ◌∙◌, ◌≢◌, inl, inr, true, some, List, ◌++◌, arith,
  ◌==◌, if◌then◌else◌, ==_iff, Bool-cases, length, get_or, replicate,
}
use ventilation_system_proje.Common.Int.{pos}
use ventilation_system_proje.Input.{Inputs, return_state, return_pin, set_state}
use ventilation_system_proje.Display.Menus.TextInput.{
  array_at, TextState, strlen, c_string, press, neighbours, text_page, text_input_from, start_stage,
  text_input,
}
use ventilation_system_proje.Display.Menus.Editing.{
  IsText, strlen-held, c_string-held, letters, array_at-letters, letters_count, length-letters,
  around, neighbours-around, edited, turned, press-typed, press-erased, press-turned,
}

-- The port is typed with the digits.
abbrev pub start_array : ℕ → ℕ → ℕ
start_array stage a = if stage == 3 then 3 else a

-- Any press, of the four pins or another.
pub press_lem :
    (pin p : ℕ) (t : List ℕ) (s : TextState)
    → IsText t s
    → p < length (letters s.current_array)
    → (pin ≡ 8 → length t < 59)
    → (s' : TextState) × (press pin (pos p) (length t) s ≡ some s')
      × IsText (edited pin (get_or (letters s.current_array) p 0) t) s'
      × (s'.current_array ≡ turned pin s.current_array)
unfolding press
press_lem pin p t s v h room = elim (Bool-cases (pin == 9)) [
  | inl e ↦
      let (s', done, v', a) = press-turned t s v p in rw ((==_iff pin 9).0 e) (s', done, v', a)
  | inr e9 ↦ elim (Bool-cases (pin == 8)) [
    | inl e ↦
        let (s', done, v', a) = press-typed t s v p h (room ((==_iff pin 8).0 e)) in
        rw ((==_iff pin 8).0 e) (s', done, v', a)
    | inr e8 ↦ elim (Bool-cases (pin == 7)) [
      | inl e ↦
          let (s', done, v', a) = press-erased t s v p in rw ((==_iff pin 7).0 e) (s', done, v', a)
      | inr e7 ↦ rw (e9, e8, e7) (s, refl, v, refl)
    ]
  ]
]

-- What `textInput` makes of the text and of the array, whether or not a button was pressed; `p` is
-- the chosen place.
abbrev pub edited_by : Inputs → List ℕ → ℕ → List ℕ → List ℕ
edited_by inputs chars p t =
    if return_state inputs then edited (return_pin inputs) (get_or chars p 0) t else t

abbrev pub turned_by : Inputs → ℕ → ℕ
turned_by inputs a = if return_state inputs then turned (return_pin inputs) a else a

abbrev pub released : Inputs → Inputs
released inputs = if return_state inputs then set_state inputs else inputs

acted_lem :
    (p : ℕ) (t : List ℕ) (s : TextState) (inputs : Inputs)
    → IsText t s
    → p < length (letters s.current_array)
    → (return_state inputs ≡ true → return_pin inputs ≡ 8 → length t < 59)
    → (s' : TextState) × ((if return_state inputs
          then press (return_pin inputs) (pos p) (length t) s
          else some s)
        ≡ some s')
      × IsText (edited_by inputs (letters s.current_array) p t) s'
      × (s'.current_array ≡ turned_by inputs s.current_array)
acted_lem p t s inputs v h room = elim (Bool-cases (return_state inputs)) [
  | inl e ↦
      let (s', done, v', a) = press_lem (return_pin inputs) p t s v h (room e) in
      rw e (s', done, v', a)
  | inr e ↦ rw e (s, refl, v, refl)
]

pub strlen-IsText :
    (t : List ℕ) (s : TextState) → IsText t s → strlen s.input_string ≡ some (length t)
strlen-IsText t s v =
    let k = 59 - length t in
    let one : 60 - length t ≡ suc k = omega (arith, v.short) in
    ap strlen (v.held ∙ ap (λ n. t ++ replicate n 0) one) ∙ strlen-held t k v.printing

pub c_string-IsText : (t : List ℕ) (s : TextState) → IsText t s → c_string s.input_string ≡ some t
c_string-IsText t s v =
    let k = 59 - length t in
    let one : 60 - length t ≡ suc k = omega (arith, v.short) in
    ap c_string (v.held ∙ ap (λ n. t ++ replicate n 0) one) ∙ c_string-held t k v.printing

-- The array that is shown has a character at each place of the one that was chosen from, unless
-- the button turns from the 31 characters to the ten digits.
turned-fits :
    (inputs : Inputs) (a b : ℕ)
    → a < 4
    → b ≡ turned_by inputs a
    → (return_state inputs ≡ true → return_pin inputs ≡ 9 → a ≢ 2)
    → length (letters a) ≤ length (letters b)
turned-fits inputs a b h e ok =
    let k : b < 4 = ground arith in
    let counts : letters_count a ≤ letters_count b = ground arith in
    omega (arith, length-letters a h, length-letters b k, counts)

pub chain_lem :
    (stage n : ℕ) (s s1 : TextState) (inputs : Inputs) (chars shown t t' : List ℕ)
    (three : ℕ × ℕ × ℕ)
    → array_at s.current_array ≡ some chars
    → strlen s.input_string ≡ some (length t)
    → (if return_state inputs
        then press (return_pin inputs) (pos (n % length chars)) (length t) s
        else some s)
      ≡ some s1
    → array_at s1.current_array ≡ some shown
    → neighbours shown (pos (n % length chars)) (length chars) ≡ some three
    → c_string s1.input_string ≡ some t'
    → text_input_from stage (pos n) s inputs
      ≡ some (s1, released inputs, text_page stage t' (length t) three)
unfolding text_input_from
chain_lem stage n s s1 inputs chars shown t t' three e1 e2 e3 e4 e5 e6 =
    rw (e1, e2, e3, e4, e5, e6) refl

pub text_input_from_lem :
    (stage n : ℕ) (t : List ℕ) (s : TextState) (inputs : Inputs)
    → IsText t s
    → (return_state inputs ≡ true → return_pin inputs ≡ 8 → length t < 59)
    → (return_state inputs ≡ true → return_pin inputs ≡ 9 → s.current_array ≢ 2)
    → let chars = letters s.current_array in
      let p = n % length chars in
      let t' = edited_by inputs chars p t in
      (s' : TextState) × (text_input_from stage (pos n) s inputs
        ≡ some (
          s',
          released inputs,
          text_page stage t' (length t) (around (letters s'.current_array) p (length chars)),
        ))
      × IsText t' s'
      × (s'.current_array ≡ turned_by inputs s.current_array)
text_input_from_lem stage n t s inputs v room turn =
    let chars = letters s.current_array in
    let some_chars : 0 < length chars = ground (arith, length-letters s.current_array v.array) in
    let p = n % length chars in
    let below : p < length chars = grind arith in
    let (s', done, v', a) = acted_lem p t s inputs v below room in
    let fits : length chars ≤ length (letters s'.current_array) =
      turned-fits inputs s.current_array s'.current_array v.array a turn in
    (
      s',
      chain_lem stage n s s' inputs chars (letters s'.current_array) t (edited_by inputs chars p t)
          (around (letters s'.current_array) p (length chars))
          (array_at-letters s.current_array v.array) (strlen-IsText t s v) done
          (array_at-letters s'.current_array v'.array)
          (neighbours-around (letters s'.current_array) p (length chars) below fits)
          (c_string-IsText (edited_by inputs chars p t) s' v'),
      v',
      a,
    )

pub start_stage-IsText :
    (stage : ℕ) (t : List ℕ) (s : TextState) → IsText t s → IsText t (start_stage stage s)
start_stage-IsText stage t s v = elim (Bool-cases (stage == 3)) [
  | inl e ↦
      rw e (record { held = v.held; short = v.short; printing = v.printing; array = omega arith })
  | inr e ↦ rw e v
]

-- With a text in the array, a rotary position that is not negative, and neither a character typed
-- behind the 59th nor the array turned away from the special characters, `textInput` returns: the
-- array then holds the text with the chosen character behind it (pin 8), without its last
-- character (pin 7), or as it was; pin 9 turns to the next of the four arrays; the button is
-- released; and the page shows the stage, the new text, and three characters of the array turned to:
-- the one at the chosen place, and those before and behind it in a circle of its first places, as
-- many as there are in the array before the turn.
pub text_input-IsText :
    (stage n : ℕ) (t : List ℕ) (s : TextState) (inputs : Inputs)
    → IsText t s
    → (return_state inputs ≡ true → return_pin inputs ≡ 8 → length t < 59)
    → (return_state inputs ≡ true → return_pin inputs ≡ 9 → (start_stage stage s).current_array ≢ 2)
    → let a = (start_stage stage s).current_array in
      let p = n % letters_count a in
      let t' = edited_by inputs (letters a) p t in
      (s' : TextState) × (text_input stage (pos n) s inputs
        ≡ some (
          s',
          released inputs,
          text_page stage t' (length t) (around (letters s'.current_array) p (letters_count a)),
        ))
      × IsText t' s'
      × (s'.current_array ≡ turned_by inputs a)
unfolding text_input
text_input-IsText stage n t s inputs v room turn =
    let v0 = start_stage-IsText stage t s v in
    rw (sym (length-letters (start_stage stage s).current_array v0.array))
      (text_input_from_lem stage n t (start_stage stage s) inputs v0 room turn)
