-- ===== src/Setup/Swallowed.antt =====
-- The page of the text input releases every button, so that pin 12 is only seen when it is pressed
-- behind the page.
use ventilation_system_proje.Common.{
  ℕ, ◌%◌, ◌<◌, ◌≡◌, refl, sym, ap, ap₂, ◌∙◌, subst, ◌≢◌, Bool, true, false, some, List, [], arith,
  if◌then◌else◌, length,
}
use ventilation_system_proje.Common.Int.{ℤ, pos, ◌+ℤ◌, ◌-ℤ◌, ltb_ℤ}
use ventilation_system_proje.Input.{Inputs, return_val, return_state, return_pin}
use ventilation_system_proje.Control.{served}
use ventilation_system_proje.Display.Menus.{Command}
use ventilation_system_proje.Display.Menus.TextInput.{text_input, start_stage, text_page}
use ventilation_system_proje.Display.Menus.Editing.{IsText, around, letters, letters_count}
use ventilation_system_proje.Display.Menus.Typing.{edited_by, released, text_input-IsText}
use ventilation_system_proje.Setup.{Setup, Visit, is_pressed, follow}
use ventilation_system_proje.Setup.Body.{confirm_part, text_behind, text_part}

-- No interrupt comes between the page and the reads behind it.
pub record IsCalm (v : Visit) : Type 0 where
  pub seven : v.before_seven ≡ []
  pub twelve : v.before_twelve ≡ []

pub released_lem : (s : Inputs) → return_state (released s) ≡ false
released_lem s = ground arith

pub not_pressed : (pin : ℕ) (s : Inputs) → return_state s ≡ false → is_pressed pin s ≡ false
not_pressed pin s e = ground arith

confirm_part_calm :
    (v : Visit) (s : Setup) → IsCalm v → return_state s.inputs ≡ false → confirm_part v s ≡ some s
unfolding confirm_part
confirm_part_calm v s c e =
    rw (c.seven, c.twelve, not_pressed 7 s.inputs e, not_pressed 12 s.inputs e) refl

-- What a page has no influence on.
pub record IsWaiting (s u : Setup) : Type 0 where
  pub same_stage : u.stage ≡ s.stage
  pub same_text : u.ssid_stage ≡ s.ssid_stage
  pub waiting : u.done ≡ s.done
  pub same_ssid : u.ssid ≡ s.ssid
  pub same_pw : u.pw ≡ s.pw
  pub same_hostname : u.hostname ≡ s.hostname
  pub same_port : u.port ≡ s.port

IsWaiting-trans : {s u w : Setup} → IsWaiting s u → IsWaiting u w → IsWaiting s w
IsWaiting-trans a b = record {
  same_stage = b.same_stage ∙ a.same_stage;
  same_text = b.same_text ∙ a.same_text;
  waiting = b.waiting ∙ a.waiting;
  same_ssid = b.same_ssid ∙ a.same_ssid;
  same_pw = b.same_pw ∙ a.same_pw;
  same_hostname = b.same_hostname ∙ a.same_hostname;
  same_port = b.same_port ∙ a.same_port;
}

waits :
    (s : Setup) (inputs : Inputs) (i prevval : ℤ)
    → IsWaiting s (record s { i = i; prevval = prevval; inputs = inputs })
waits s inputs i prevval = record {
  same_stage = refl;
  same_text = refl;
  waiting = refl;
  same_ssid = refl;
  same_pw = refl;
  same_hostname = refl;
  same_port = refl;
}

turned_waits :
    (s : Setup) (up down : Bool) (s1 s2 s3 : Setup)
    → IsWaiting s s1 × (s1.text ≡ s.text)
    → IsWaiting s s2 × (s2.text ≡ s.text)
    → IsWaiting s s3 × (s3.text ≡ s.text)
    → let u = if up then s1 else if down then s2 else s3 in IsWaiting s u × (u.text ≡ s.text)
turned_waits s true down s1 s2 s3 w1 w2 w3 = w1
turned_waits s false true s1 s2 s3 w1 w2 w3 = w2
turned_waits s false false s1 s2 s3 w1 w2 w3 = w3

pub follow-IsWaiting :
    (v : Visit) (s : Setup) → IsWaiting s (follow v s) × ((follow v s).text ≡ s.text)
follow-IsWaiting v s =
    let s1 = served v.before_first s.inputs in
    let s2 = served v.before_second s1 in
    let s3 = served v.before_third s2 in
    turned_waits s (ltb_ℤ s.prevval (return_val s1)) (ltb_ℤ (return_val s2) s.prevval)
      (record s { i = s.i +ℤ pos 1; prevval = return_val s2; inputs = s2 })
      (record s { i = s.i -ℤ pos 1; prevval = return_val s3; inputs = s3 })
      (record s { prevval = return_val s3; inputs = s3 })
      (waits s s2 (s.i +ℤ pos 1) (return_val s2), refl)
      (waits s s3 (s.i -ℤ pos 1) (return_val s3), refl) (waits s s3 s.i (return_val s3), refl)

text_behind_lem :
    (v : Visit) (s : Setup) (n : ℕ) (t : List ℕ)
    → IsText t s.text
    → s.i ≡ pos n
    → IsCalm v
    → let inputs = served v.before_page s.inputs in
      (return_state inputs ≡ true → return_pin inputs ≡ 8 → length t < 59)
      → (return_state inputs ≡ true
          → return_pin inputs ≡ 9
          → (start_stage s.ssid_stage s.text).current_array ≢ 2)
      → let a = (start_stage s.ssid_stage s.text).current_array in
        (u : Setup) × (commands : List Command) × (text_behind v s ≡ some (u, commands))
        × IsText (edited_by inputs (letters a) (n % letters_count a) t) u.text
        × IsWaiting s u
        × (return_state u.inputs ≡ false)
unfolding text_behind
text_behind_lem v s n t text e calm room turn =
    let inputs = served v.before_page s.inputs in
    let (after, done, kept, array) =
      text_input-IsText s.ssid_stage n t s.text inputs text room turn in
    let a = (start_stage s.ssid_stage s.text).current_array in
    let p = n % letters_count a in
    let page : List Command =
      text_page s.ssid_stage (edited_by inputs (letters a) p t) (length t)
        (around (letters after.current_array) p (letters_count a)) in
    let shown : text_input s.ssid_stage s.i s.text inputs ≡ some (after, released inputs, page) =
      ap (λ i. text_input s.ssid_stage i s.text inputs) e ∙ done in
    (
      record s { text = after; inputs = released inputs },
      page,
      rw
          (
            shown,
            confirm_part_calm v (record s { text = after; inputs = released inputs }) calm
                (released_lem inputs),
          )
          refl,
      kept,
      record {
        same_stage = refl;
        same_text = refl;
        waiting = refl;
        same_ssid = refl;
        same_pw = refl;
        same_hostname = refl;
        same_port = refl;
      },
      released_lem inputs,
    )

-- What the visit `v` finds in the page: a button there.
abbrev pub in_page : Visit → Setup → Inputs
in_page v s = served v.before_page (follow v s).inputs

-- With a text in the input, one visit of the page of the text input returns, when no interrupt
-- comes between the page and the reads behind it, the place is not negative, no character is added
-- to a text of 59 and the array of the special characters is not turned. Whatever button is found,
-- the text is edited as the page does it, and nothing else: no text is stored, the stages and the
-- arrays are as before, and the button is released, so that a pin 7 or 12 that was pressed before
-- the page is lost.
pub text_part-IsWaiting :
    (v : Visit) (s : Setup) (n : ℕ) (t : List ℕ)
    → IsText t s.text
    → (follow v s).i ≡ pos n
    → IsCalm v
    → (return_state (in_page v s) ≡ true → return_pin (in_page v s) ≡ 8 → length t < 59)
    → let a = (start_stage s.ssid_stage s.text).current_array in
      (return_state (in_page v s) ≡ true → return_pin (in_page v s) ≡ 9 → a ≢ 2)
      → (u : Setup) × (commands : List Command) × (text_part v s ≡ some (u, commands))
        × IsText (edited_by (in_page v s) (letters a) (n % letters_count a) t) u.text
        × IsWaiting s u
        × (return_state u.inputs ≡ false)
unfolding text_part
text_part-IsWaiting v s n t text e calm room turn =
    let (w, same) = follow-IsWaiting v s in
    let stage : start_stage (follow v s).ssid_stage (follow v s).text
        ≡ start_stage s.ssid_stage s.text =
      ap₂ start_stage w.same_text same in
    let text' : IsText t (follow v s).text = subst (λ x. IsText t x) (sym same) text in
    let turn' : return_state (in_page v s) ≡ true
        → return_pin (in_page v s) ≡ 9
        → (start_stage (follow v s).ssid_stage (follow v s).text).current_array ≢ 2 =
      subst
        (λ x.
          return_state (in_page v s) ≡ true → return_pin (in_page v s) ≡ 9 → x.current_array ≢ 2)
        (sym stage) turn in
    let (u, commands, done, kept, w', up) =
      text_behind_lem v (follow v s) n t text' e calm room turn' in
    (
      u,
      commands,
      done,
      subst
          (λ x.
            IsText
              (edited_by (in_page v s) (letters x.current_array) (n % letters_count x.current_array)
                t)
              u.text)
          stage kept,
      IsWaiting-trans w w',
      up,
    )
