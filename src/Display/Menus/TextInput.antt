-- ===== src/Display/Menus/TextInput.antt =====
-- The text input of src/display/graphics.cpp: its character arrays, its string and its page.
use ventilation_system_proje.Common.{
  ℕ, suc, ◌+◌, ◌-◌, ◌*◌, ◌%◌, true, false, Option, none, some, List, [], ◌∷◌, ltb, ◌==◌,
  if◌then◌else◌, ◌>>=◌, length, get_or, set, replicate,
}
use ventilation_system_proje.Common.Int.{ℤ, pos, negsuc, ◌+ℤ◌, ◌-ℤ◌, ltb_ℤ, to_u16}
use ventilation_system_proje.Input.{Inputs, return_state, return_pin, set_state}
use ventilation_system_proje.Display.Menus.{Command, draw_fill, draw_rect, draw_text}

abbrev pub alphabets_cap : List ℕ
alphabets_cap =
    65 ∷ 66 ∷ 67 ∷ 68 ∷ 69 ∷ 70 ∷ 71 ∷ 72 ∷ 73 ∷ 74 ∷ 75 ∷ 76 ∷ 77 ∷ 78 ∷ 79 ∷ 80 ∷ 81 ∷ 82 ∷ 83
    ∷ 84 ∷ 85 ∷ 86 ∷ 87 ∷ 88 ∷ 89 ∷ 90 ∷ []

abbrev pub alphabets : List ℕ
alphabets =
    97 ∷ 98 ∷ 99 ∷ 100 ∷ 101 ∷ 102 ∷ 103 ∷ 104 ∷ 105 ∷ 106 ∷ 107 ∷ 108 ∷ 109 ∷ 110 ∷ 111 ∷ 112 ∷ 113
    ∷ 114 ∷ 115 ∷ 116 ∷ 117 ∷ 118 ∷ 119 ∷ 120 ∷ 121 ∷ 122 ∷ []

abbrev pub characters : List ℕ
characters =
    33 ∷ 34 ∷ 35 ∷ 36 ∷ 37 ∷ 38 ∷ 39 ∷ 40 ∷ 41 ∷ 42 ∷ 43 ∷ 44 ∷ 45 ∷ 46 ∷ 47 ∷ 58 ∷ 59 ∷ 60 ∷ 61
    ∷ 62 ∷ 63 ∷ 64 ∷ 91 ∷ 93 ∷ 94 ∷ 95 ∷ 96 ∷ 123 ∷ 124 ∷ 125 ∷ 126 ∷ []

abbrev pub numbers : List ℕ
numbers = 48 ∷ 49 ∷ 50 ∷ 51 ∷ 52 ∷ 53 ∷ 54 ∷ 55 ∷ 56 ∷ 57 ∷ []

-- `arrays` with the length of each; `none` is an index behind them.
abbrev pub array_at : ℕ → Option (List ℕ)
array_at n =
    if n == 0
    then some alphabets_cap
    else if n == 1
    then some alphabets
    else if n == 2
    then some characters
    else if n == 3
    then some numbers
    else none

-- The two static variables; `input_string` is the array of 60 bytes.
pub record TextState : Type 0 where
  pub current_array : ℕ
  pub input_string : List ℕ

-- C's strings: `none` is a read or write outside the array.
abbrev pub strlen : List ℕ → Option ℕ
strlen [] = none
strlen (c ∷ s) = if c == 0 then some 0 else (strlen s >>= λ n. some (suc n))

abbrev pub c_string : List ℕ → Option (List ℕ)
c_string [] = none
c_string (c ∷ s) = if c == 0 then some [] else (c_string s >>= λ t. some (c ∷ t))

-- `strcat` of one character at the end of a string, with the zero behind it.
abbrev pub strcat : List ℕ → ℕ → ℕ → Option (List ℕ)
strcat s len c = if ltb (len + 1) (length s) then some (set (set s len c) (len + 1) 0) else none

abbrev pub char_at : List ℕ → ℤ → Option ℕ
char_at chars (pos n) = if ltb n (length chars) then some (get_or chars n 0) else none
char_at chars (negsuc n) = none

-- C's remainder by a positive number has the sign of the dividend.
abbrev pub rem : ℤ → ℕ → ℤ
rem (pos n) k = pos (n % k)
rem (negsuc n) k = pos 0 -ℤ pos (suc n % k)

-- The button: the next array, a character more, or one less.
unfoldable pub press : ℕ → ℤ → ℕ → TextState → Option TextState
press pin position input_len s =
    if pin == 9
    then some (record s {
      current_array = if ltb 3 (s.current_array + 1) then 0 else s.current_array + 1;
    })
    else if pin == 8
    then if ltb input_len 60
      then (do
        chars ← array_at s.current_array
        c ← char_at chars position
        str ← strcat s.input_string input_len c
        some (record s { input_string = str }))
      else some s
    else if pin == 7
    then if ltb 0 input_len
      then some (record s { input_string = set s.input_string (input_len - 1) 0 })
      else some s
    else some s

-- The characters that the page shows: the one before, the chosen one, and the one behind.
-- `arr_length` is that of the array before the button.
unfoldable pub neighbours : List ℕ → ℤ → ℕ → Option (ℕ × ℕ × ℕ)
neighbours chars position arr_length = do
  before ←
      (if ltb_ℤ (position -ℤ pos 1) (pos 0)
        then char_at chars (pos (arr_length - 1))
        else char_at chars (position -ℤ pos 1))
  chosen ← char_at chars position
  behind ←
      (if ltb_ℤ (position +ℤ pos 1) (pos arr_length)
        then char_at chars (position +ℤ pos 1)
        else char_at chars (pos 0))
  some (before, chosen, behind)

abbrev pub stage_text : ℕ → List ℕ
stage_text stage =
    if stage == 0
    then 83 ∷ 83 ∷ 73 ∷ 68 ∷ 58 ∷ []
    else if stage == 1
    then 80 ∷ 65 ∷ 83 ∷ 83 ∷ 87 ∷ 79 ∷ 82 ∷ 68 ∷ 58 ∷ []
    else if stage == 2
    then 72 ∷ 79 ∷ 83 ∷ 84 ∷ 58 ∷ []
    else if stage == 3
    then 80 ∷ 79 ∷ 82 ∷ 84 ∷ 58 ∷ []
    else []

abbrev pub text_page : ℕ → List ℕ → ℕ → (ℕ × ℕ × ℕ) → List Command
text_page stage str input_len (before, chosen, behind) =
    draw_fill 0
    ∷ draw_text (stage_text stage) 0 0 1
    ∷ draw_rect 112 4 14 56 1 false
    ∷ draw_rect 0 22 110 14 1 false
    ∷ draw_text str (to_u16 (pos 108 -ℤ pos (input_len * 8))) 26 1
    ∷ draw_text (before ∷ []) 114 10 1
    ∷ draw_rect 114 25 9 9 1 true
    ∷ draw_text (chosen ∷ []) 114 26 0
    ∷ draw_text (behind ∷ []) 114 42 1
    ∷ []

-- The rest of `textInput` behind its first `switch`, which `start_stage` is.
unfoldable pub text_input_from :
    ℕ → ℤ → TextState → Inputs → Option (TextState × Inputs × List Command)
text_input_from stage current_position s inputs = do
  chars ← array_at s.current_array
  let position = rem current_position (length chars)
  input_len ← strlen s.input_string
  s1 ← (if return_state inputs then press (return_pin inputs) position input_len s else some s)
  shown ← array_at s1.current_array
  three ← neighbours shown position (length chars)
  str ← c_string s1.input_string
  some (
    s1,
    (if return_state inputs then set_state inputs else inputs),
    text_page stage str input_len three,
  )

abbrev pub start_stage : ℕ → TextState → TextState
start_stage stage s = if stage == 3 then record s { current_array = 3 } else s

unfoldable pub text_input : ℕ → ℤ → TextState → Inputs → Option (TextState × Inputs × List Command)
unfolding text_input_from
text_input stage current_position s inputs =
    text_input_from stage current_position (start_stage stage s) inputs

-- `returnInput`: the string is copied to the caller's array `dst`, byte 60 of which is set to zero,
-- and the array is cleared.
abbrev pub copied : List ℕ → List ℕ → Option (List ℕ)
copied str [] = none
copied [] (d ∷ dst) = some (0 ∷ dst)
copied (c ∷ str) (d ∷ dst) = copied str dst >>= λ t. some (c ∷ t)

unfoldable pub return_input : TextState → List ℕ → Option (TextState × List ℕ)
return_input s dst = do
  str ← c_string s.input_string
  dst1 ← copied str dst
  (if ltb 60 (length dst1)
      then some (record s { input_string = replicate 60 0 }, set dst1 60 0)
      else none)
