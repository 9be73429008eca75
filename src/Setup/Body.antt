-- ===== src/Setup/Body.antt =====
-- One turn of the inner start-up loop of main.cpp, and one of the outer loop.
use ventilation_system_proje.Common.{
  true, false, ◌&&◌, ◌||◌, Option, none, some, List, [], ◌∷◌, ◌==◌, if◌then◌else◌, ◌>>=◌,
}
use ventilation_system_proje.Common.Int.{pos}
use ventilation_system_proje.Input.{set_state}
use ventilation_system_proje.Control.{served}
use ventilation_system_proje.Display.Menus.{Command, is_number}
use ventilation_system_proje.Display.Menus.TextInput.{text_input}
use ventilation_system_proje.Setup.{
  Setup, Visit, is_pressed, start_page, follow, leave_text, confirm,
}

-- Behind the page of the text input: the pin 7, or else the pin 12.
unfoldable pub confirm_part : Visit → Setup → Option Setup
confirm_part v s =
    let at_seven = served v.before_seven s.inputs in
    let at_twelve = served v.before_twelve at_seven in
    if is_pressed 7 at_seven
    then leave_text (record s { inputs = at_seven })
    else if is_pressed 12 at_twelve
    then confirm v.scratch (record s { inputs = at_twelve })
    else some (record s { inputs = at_twelve })

-- The page of the text input, and what follows it.
unfoldable pub text_behind : Visit → Setup → Option (Setup × List Command)
text_behind v s = do
  shown ← text_input s.ssid_stage s.i s.text (served v.before_page s.inputs)
  s1 ← confirm_part v (record s { text = shown.0; inputs = shown.1 })
  some (s1, shown.2)

unfoldable pub text_part : Visit → Setup → Option (Setup × List Command)
text_part v s = text_behind v (follow v s)

-- Pin 9 on the start page.
unfoldable pub choose : Setup → Setup
choose s =
    let s1 = record s { inputs = set_state s.inputs } in
    if is_number s1.rotvalue 0 || is_number s1.rotvalue 1
    then record s1 { stage = 1 }
    else if is_number s1.rotvalue 2 || is_number s1.rotvalue 3
    then record s1 { done = true }
    else if is_number s1.rotvalue 4 || is_number s1.rotvalue 5
    then record s1 { use_wifi = false; network_done = true; done = true }
    else record s1 { rotvalue = pos 0 }

unfoldable pub choose_part : Visit → Setup → Setup
choose_part v s =
    let s1 = record s { inputs = served v.before_nine s.inputs } in
    if is_pressed 9 s1.inputs && s1.stage == 0 then choose s1 else s1

abbrev pub page_part : Visit → Setup → Option (Setup × List Command)
page_part v s =
    if s.stage == 0
    then some (start_page v s)
    else if s.stage == 1
    then text_part v s
    else some (s, [])

unfoldable pub visit : Visit → Setup → Option (Setup × List Command)
visit v s = do drawn ← page_part v s; some (choose_part v drawn.0, drawn.1)

-- The inner loop over the visits to come: `none` where one of them leaves an array or throws, or
-- where the loop has not ended behind the last.
unfoldable pub visits : List Visit → Setup → Option Setup
visits [] s = if s.done then some s else none
visits (v ∷ vs) s =
    let later = visit v s >>= λ next. visits vs next.0 in if s.done then some s else later
