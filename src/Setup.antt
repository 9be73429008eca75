-- ===== src/Setup.antt =====
-- The start-up loop of main.cpp: the start page, the input of the credentials, and the attempt to
-- connect.
pub mod Body
pub mod Storing
pub mod Swallowed
pub mod Seen
pub mod Connect
mod Tests
use ventilation_system_proje.Common.{
  ◌>>=◌, ℕ, ◌+◌, ◌-◌, ◌*◌, ◌^◌, Bool, true, false, not, ◌&&◌, ◌||◌, Option, none, some, List, [],
  ◌∷◌, ltb, leb, ◌==◌, if◌then◌else◌,
}
use ventilation_system_proje.Common.Int.{ℤ, pos, negsuc, ◌+ℤ◌, ◌-ℤ◌, ltb_ℤ}
use ventilation_system_proje.Input.{Inputs, return_val, return_state, return_pin, set_state}
use ventilation_system_proje.Control.{Interrupt, served}
use ventilation_system_proje.Display.Menus.{Command, start_menu}
use ventilation_system_proje.Display.Menus.TextInput.{
  alphabets_cap, alphabets, characters, numbers, array_at, TextState, strlen, c_string, strcat,
  char_at, rem, press, neighbours, stage_text, text_page, text_input_from, start_stage, text_input,
  copied, return_input,
}

-- The variables of the loop; the four arrays have 64 bytes.
pub record Setup : Type 0 where
  pub inputs : Inputs
  pub text : TextState
  pub stage : ℕ
  pub ssid_stage : ℕ
  pub rotvalue : ℤ
  pub i : ℤ
  pub prevval : ℤ
  pub input : List ℕ
  pub ssid : List ℕ
  pub pw : List ℕ
  pub hostname : List ℕ
  pub port : ℤ
  pub done : Bool
  pub use_wifi : Bool
  pub network_done : Bool

-- The interrupts of one turn of the inner loop: before the reads of the encoder, before the button
-- is read in the page, and before it is read for the pins 7, 12 and 9. `scratch` is the memory of
-- the local array that the port is read into.
pub record Visit : Type 0 where
  pub before_first : List Interrupt
  pub before_second : List Interrupt
  pub before_third : List Interrupt
  pub before_page : List Interrupt
  pub before_seven : List Interrupt
  pub before_twelve : List Interrupt
  pub before_nine : List Interrupt
  pub scratch : List ℕ

-- What is set when the inner loop is entered; `input` is not.
abbrev pub begin_setup : Setup → Setup
begin_setup s = record s {
  done = false;
  stage = 0;
  ssid_stage = 0;
  rotvalue = pos 0;
  i = pos 10000;
  prevval = pos 0;
}

-- `std::stoi` on the text of an array: `none` where it throws, at a text without a number and at
-- one out of the range of an `int`.
abbrev pub is_space : ℕ → Bool
is_space c = c == 32 || (leb 9 c && leb c 13)

abbrev pub skip_spaces : List ℕ → List ℕ
skip_spaces [] = []
skip_spaces (c ∷ s) = let rest = skip_spaces s in if is_space c then rest else c ∷ s

abbrev pub is_digit : ℕ → Bool
is_digit c = leb 48 c && leb c 57

-- The number behind the digits that were read, with their value so far.
abbrev pub digits : ℕ → List ℕ → ℕ
digits n [] = n
digits n (c ∷ s) = let rest = digits (n * 10 + (c - 48)) s in if is_digit c then rest else n

abbrev pub starts_with_digit : List ℕ → Bool
starts_with_digit [] = false
starts_with_digit (c ∷ s) = is_digit c

abbrev pub signed_number : Bool → List ℕ → Option ℤ
signed_number negative s =
    let n = digits 0 s in
    if not (starts_with_digit s)
    then none
    else if negative
    then if leb n (2 ^ 31) then some (pos 0 -ℤ pos n) else none
    else if ltb n (2 ^ 31)
    then some (pos n)
    else none

abbrev pub number_of : List ℕ → Option ℤ
number_of [] = none
number_of (c ∷ s) =
    if c == 45
    then signed_number true s
    else if c == 43
    then signed_number false s
    else signed_number false (c ∷ s)

abbrev pub stoi : List ℕ → Option ℤ
stoi array = do str ← c_string array; number_of (skip_spaces str)

abbrev pub is_pressed : ℕ → Inputs → Bool
is_pressed pin inputs = return_pin inputs == pin && return_state inputs

abbrev pub start_page : Visit → Setup → Setup × List Command
start_page v s =
    let inputs = served v.before_first s.inputs in
    let rotvalue = rem (return_val inputs) 6 in
    (record s { inputs = inputs; rotvalue = rotvalue }, start_menu rotvalue)

-- The place in the character array follows the encoder.
abbrev pub follow : Visit → Setup → Setup
follow v s =
    let s1 = served v.before_first s.inputs in
    let s2 = served v.before_second s1 in
    let s3 = served v.before_third s2 in
    if ltb_ℤ s.prevval (return_val s1)
    then record s { i = s.i +ℤ pos 1; prevval = return_val s2; inputs = s2 }
    else if ltb_ℤ (return_val s2) s.prevval
    then record s { i = s.i -ℤ pos 1; prevval = return_val s3; inputs = s3 }
    else record s { prevval = return_val s3; inputs = s3 }

-- Pin 7 behind the page.
unfoldable pub leave_text : Setup → Option Setup
leave_text s = do
  returned ← return_input s.text s.input
  len ← strlen returned.1
  let s1 = record s { inputs = set_state s.inputs; text = returned.0; input = returned.1 }
  some (record s1 { stage = if len == 0 then 0 else s1.stage })

-- Pin 12 behind the page: the text goes to the variable of the stage.
unfoldable pub store_text : List ℕ → Setup → Option Setup
store_text scratch s =
    if s.ssid_stage == 0
    then (do
      returned ← return_input s.text s.ssid
      some (record s { text = returned.0; ssid = returned.1 }))
    else if s.ssid_stage == 1
    then (do
      returned ← return_input s.text s.pw
      some (record s { text = returned.0; pw = returned.1 }))
    else if s.ssid_stage == 2
    then (do
      returned ← return_input s.text s.hostname
      some (record s { text = returned.0; hostname = returned.1 }))
    else if s.ssid_stage == 3
    then (do
      returned ← return_input s.text scratch
      number ← stoi returned.1
      some (record s { text = returned.0; port = number }))
    else some s

unfoldable pub confirm : List ℕ → Setup → Option Setup
confirm scratch s =
    let s1 = record s { inputs = set_state s.inputs } in
    if ltb s1.ssid_stage 4
    then (do s2 ← store_text scratch s1; some (record s2 { ssid_stage = s2.ssid_stage + 1 }))
    else some (record s1 { done = true })
