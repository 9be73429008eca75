-- ===== src/Setup/Seen.antt =====
-- A press of pin 12 behind the page stores the text with the edit of the page.
use ventilation_system_proje.Common.{
  ℕ, zero, suc, ◌+◌, ◌%◌, ◌<◌, ◌≡◌, refl, sym, ap, ap₂, ◌∙◌, subst, ◌≢◌, true, false, some, List,
  [], ◌∷◌, length, if◌then◌else◌, ◌==◌, arith,
}
use ventilation_system_proje.Common.Branches.{bound}
use ventilation_system_proje.Common.Int.{pos}
use ventilation_system_proje.Input.{Inputs, is_button, return_state, return_pin, handler}
use ventilation_system_proje.Control.{Interrupt, served}
use ventilation_system_proje.Display.Menus.{Command}
use ventilation_system_proje.Display.Menus.TextInput.{text_input, start_stage, text_page, c_string}
use ventilation_system_proje.Display.Menus.Editing.{IsText, around, letters, letters_count}
use ventilation_system_proje.Display.Menus.Typing.{edited_by, released, text_input-IsText}
use ventilation_system_proje.Setup.{Setup, Visit, is_pressed, follow, confirm}
use ventilation_system_proje.Setup.Body.{confirm_part, text_behind, text_part}
use ventilation_system_proje.Setup.Storing.{field, confirm-HasStored}
use ventilation_system_proje.Setup.Swallowed.{IsWaiting, follow-IsWaiting, released_lem, in_page}

-- The pin of the last button among interrupts, behind the button `pin`; 0 stands for none.
abbrev pub last_button : ℕ → List Interrupt → ℕ
last_button pin [] = pin
last_button pin ((gpio, a, b) ∷ rest) = last_button (if is_button gpio then gpio else pin) rest

-- Behind the page, the last button before the read of pin 7 is another one, and the last before the
-- read of pin 12 is that one.
pub record IsConfirmed (v : Visit) : Type 0 where
  pub seven : last_button 0 v.before_seven ≢ 7
  pub twelve : last_button (last_button 0 v.before_seven) v.before_twelve ≡ 12

-- What the last button leaves.
abbrev Sees : ℕ → Inputs → Type 0
Sees pin s =
    (pin ≡ 0 → return_state s ≡ false) × (pin ≢ 0 → (return_state s ≡ true) × (return_pin s ≡ pin))

handler-Sees :
    (gpio a b pin : ℕ) (s : Inputs)
    → Sees pin s
    → Sees (if is_button gpio then gpio else pin) (handler gpio a b s)
unfolding handler
handler-Sees gpio a b pin s h = ground arith

served-Sees :
    (is : List Interrupt) (pin : ℕ) (s : Inputs)
    → Sees pin s
    → Sees (last_button pin is) (served is s)
served-Sees [] pin s h = h
served-Sees ((gpio, a, b) ∷ rest) pin s h =
    served-Sees rest (if is_button gpio then gpio else pin) (handler gpio a b s)
      (handler-Sees gpio a b pin s h)

==_false : (a b : ℕ) → a ≢ b → (a == b) ≡ false
==_false a b ne = ground arith

is_pressed-Sees :
    (button pin : ℕ) (s : Inputs) → button ≢ 0 → Sees pin s → is_pressed button s ≡ (pin == button)
is_pressed-Sees button pin s ne h = ground arith

-- The interrupts behind the page, on top of `s`.
abbrev behind_page : Visit → Inputs → Inputs
behind_page v s = served v.before_twelve (served v.before_seven s)

confirm_part_confirmed :
    (v : Visit) (s : Setup)
    → IsConfirmed v
    → return_state s.inputs ≡ false
    → confirm_part v s ≡ confirm v.scratch (record s { inputs = behind_page v s.inputs })
unfolding confirm_part
confirm_part_confirmed v s c e =
    let at_seven = served v.before_seven s.inputs in
    let seen = served-Sees v.before_seven 0 s.inputs ((λ _. e), λ ne. absurd (ne refl)) in
    let not_seven : is_pressed 7 at_seven ≡ false =
      is_pressed-Sees 7 (last_button 0 v.before_seven) at_seven (omega arith) seen
      ∙ ==_false (last_button 0 v.before_seven) 7 c.seven in
    let twelve : is_pressed 12 (behind_page v s.inputs) ≡ true =
      is_pressed-Sees 12 12 (behind_page v s.inputs) (omega arith) (
        subst (λ p. Sees p (behind_page v s.inputs)) c.twelve
          (served-Sees v.before_twelve (last_button 0 v.before_seven) at_seven seen)) in
    rw (not_seven, twelve) refl

same_field : (s u : Setup) (j : ℕ) → IsWaiting s u → field j u ≡ field j s
same_field s u zero w = w.same_ssid
same_field s u (suc zero) w = w.same_pw
same_field s u (suc (suc j)) w = w.same_hostname

-- With a text in the input, at one of the first three stages, its array of more than 60 bytes, a
-- place that is not negative, and a page that adds no character to a text of 59 and does not turn
-- the array of the special characters: when the last button that is pressed between the page and
-- the test of pin 7, as while the page is shown, is not pin 7, and the last one before the test of
-- pin 12 is pin 12, one visit returns. It stores the text, with what the page did to it, in the
-- array of the stage alone, goes on to the next stage with an empty text, and releases the button.
pub text_part-stores :
    (v : Visit) (s : Setup) (k n : ℕ) (t : List ℕ)
    → k < 3
    → s.ssid_stage ≡ k
    → 60 < length (field k s)
    → IsText t s.text
    → (follow v s).i ≡ pos n
    → IsConfirmed v
    → (return_state (in_page v s) ≡ true → return_pin (in_page v s) ≡ 8 → length t < 59)
    → let a = (start_stage s.ssid_stage s.text).current_array in
      (return_state (in_page v s) ≡ true → return_pin (in_page v s) ≡ 9 → a ≢ 2)
      → (u : Setup) × (commands : List Command) × (text_part v s ≡ some (u, commands))
        × (c_string (field k u)
            ≡ some (edited_by (in_page v s) (letters a) (n % letters_count a) t))
        × ((j : ℕ) → j < 3 → j ≢ k → field j u ≡ field j s)
        × IsText [] u.text
        × (u.ssid_stage ≡ k + 1)
        × (return_state u.inputs ≡ false)
unfolding text_part text_behind
text_part-stores v s k n t h stage room text e c free turn =
    let (w, same) = follow-IsWaiting v s in
    let inputs = in_page v s in
    let a = (start_stage s.ssid_stage s.text).current_array in
    let p = n % letters_count a in
    let t' = edited_by inputs (letters a) p t in
    let (after, done, kept, array) =
      text_input-IsText s.ssid_stage n t s.text inputs text free turn in
    let page : List Command =
      text_page s.ssid_stage t' (length t)
        (around (letters after.current_array) p (letters_count a)) in
    let shown : text_input (follow v s).ssid_stage (follow v s).i (follow v s).text inputs
        ≡ some (after, released inputs, page) =
      ap (λ i. text_input (follow v s).ssid_stage i (follow v s).text inputs) e
      ∙ ap₂ (λ st tx. text_input st (pos n) tx inputs) w.same_text same
      ∙ done in
    let s1 : Setup = record (follow v s) { text = after; inputs = released inputs } in
    let s2 : Setup = record s1 { inputs = behind_page v s1.inputs } in
    let w2 : IsWaiting s s2 = record {
      same_stage = w.same_stage;
      same_text = w.same_text;
      waiting = w.waiting;
      same_ssid = w.same_ssid;
      same_pw = w.same_pw;
      same_hostname = w.same_hostname;
      same_port = w.same_port;
    } in
    let (u, stored, has) =
      confirm-HasStored k v.scratch t' s2 h kept
        (subst (λ l. 60 < length l) (sym (same_field s s2 k w2)) room) (w.same_text ∙ stage) in
    (
      u,
      page,
      bound (text_input (follow v s).ssid_stage (follow v s).i (follow v s).text inputs) _
            (after, released inputs, page) shown
          ∙ bound (confirm_part v s1) _ u
              (confirm_part_confirmed v s1 c (released_lem inputs) ∙ stored),
      has.stored,
      (λ j below ne. has.others j below ne ∙ same_field s s2 j w2),
      has.emptied,
      has.next_stage,
      ap return_state has.inputs,
    )
