-- ===== src/Display/Menus/Returning.antt =====
-- `returnInput`: the text that was typed reaches the caller.
use ventilation_system_proje.Common.{
  ℕ, zero, suc, ◌≤◌, ◌<◌, ◌≡◌, refl, ap, ◌∙◌, false, some, List, [], ◌∷◌, ◌++◌, arith, ◌==◌, lt→ltb,
  ◌>>=◌, length, set, drop, replicate, All, length-append, length-set, length-drop,
}
use ventilation_system_proje.Display.Menus.TextInput.{TextState, c_string, copied, return_input}
use ventilation_system_proje.Display.Menus.Editing.{IsText}
use ventilation_system_proje.Display.Menus.Typing.{c_string-IsText}

copied_lem :
    (t dst : List ℕ)
    → length t < length dst
    → copied t dst ≡ some (t ++ 0 ∷ drop (suc (length t)) dst)
copied_lem t [] h = absurd (omega arith)
copied_lem [] (d ∷ dst) h = refl
copied_lem (c ∷ t) (d ∷ dst) h = ap (λ o. o >>= λ l. some (c ∷ l)) (copied_lem t dst (omega arith))

-- A zero behind the end of a string does not change it.
c_string-set :
    (t rest : List ℕ) (i : ℕ)
    → All (λ c. 0 < c) t
    → length t ≤ i
    → c_string (set (t ++ 0 ∷ rest) i 0) ≡ some t
c_string-set [] rest zero h k = refl
c_string-set [] rest (suc i) h k = refl
c_string-set (c ∷ t) rest zero h k = absurd (omega arith)
c_string-set (c ∷ t) rest (suc i) h k =
    let ne : (c == 0) ≡ false = ground arith in
    rw ne (ap (λ o. o >>= λ l. some (c ∷ l)) (c_string-set t rest i h.1 (omega arith)))

empty-IsText :
    (s : TextState) → s.current_array < 4 → IsText [] (record s { input_string = replicate 60 0 })
empty-IsText s h = record { held = refl; short = omega arith; printing = tt; array = h }

-- With a text in the array, `returnInput` into an array of 61 bytes or more puts the text there,
-- whatever the array held, and leaves an empty text.
pub return_input-c_string :
    (t dst : List ℕ) (s : TextState)
    → IsText t s
    → 60 < length dst
    → (s' : TextState) × (dst' : List ℕ) × (return_input s dst ≡ some (s', dst'))
      × (c_string dst' ≡ some t)
      × (length dst' ≡ length dst)
      × IsText [] s'
unfolding return_input
return_input-c_string t dst s v h =
    let after = t ++ 0 ∷ drop (suc (length t)) dst in
    let size : length after ≡ length dst = omega (
      arith,
      length-append t (0 ∷ drop (suc (length t)) dst),
      length-drop (suc (length t)) dst,
      v.short,
    ) in
    (
      record s { input_string = replicate 60 0 },
      set after 60 0,
      rw
          (
            c_string-IsText t s v,
            copied_lem t dst (omega (arith, v.short)),
            lt→ltb 60 (length after) (omega (arith, size)),
          )
          refl,
      c_string-set t (drop (suc (length t)) dst) 60 v.printing (omega (arith, v.short)),
      length-set after 60 0 ∙ size,
      empty-IsText s v.array,
    )
