-- ===== src/Setup/Storing.antt =====
-- Pin 12 behind the page stores the text that was typed.
use ventilation_system_proje.Common.{
  ℕ, zero, suc, ◌+◌, ◌<◌, ◌≡◌, refl, ap, ◌∙◌, ◌≢◌, ◌↔◌, Option, none, some, List, [], arith, ◌>>=◌,
  length,
}
use ventilation_system_proje.Common.Int.{ℤ}
use ventilation_system_proje.Input.{set_state}
use ventilation_system_proje.Display.Menus.TextInput.{c_string}
use ventilation_system_proje.Display.Menus.Editing.{IsText}
use ventilation_system_proje.Display.Menus.Returning.{return_input-c_string}
use ventilation_system_proje.Setup.{Setup, skip_spaces, number_of, store_text, confirm}

-- The array of a stage.
abbrev pub field : ℕ → Setup → List ℕ
field zero s = s.ssid
field (suc zero) s = s.pw
field _ s = s.hostname

-- What a stored text leaves: the array of the stage holds it, the other arrays and the port are as
-- before, the text is empty, the next stage is on, and the button is released.
pub record HasStored (k : ℕ) (t : List ℕ) (s u : Setup) : Type 0 where
  pub stored : c_string (field k u) ≡ some t
  pub others : (j : ℕ) → j < 3 → j ≢ k → field j u ≡ field j s
  pub same_port : u.port ≡ s.port
  pub emptied : IsText [] u.text
  pub next_stage : u.ssid_stage ≡ k + 1
  pub same_stage : u.stage ≡ s.stage
  pub inputs : u.inputs ≡ set_state s.inputs
  pub going_on : u.done ≡ s.done

same_fields :
    (k : ℕ) (s u : Setup)
    → (◌≢◌ {A = ℕ} 0 k → u.ssid ≡ s.ssid)
    → (◌≢◌ {A = ℕ} 1 k → u.pw ≡ s.pw)
    → (◌≢◌ {A = ℕ} 2 k → u.hostname ≡ s.hostname)
    → (j : ℕ) → j < 3
    → j ≢ k
    → field j u ≡ field j s
same_fields k s u e0 e1 e2 zero h ne = e0 ne
same_fields k s u e0 e1 e2 (suc zero) h ne = e1 ne
same_fields k s u e0 e1 e2 (suc (suc zero)) h ne = e2 ne
same_fields k s u e0 e1 e2 (suc (suc (suc j))) h ne = absurd (omega arith)

confirm_ssid :
    (scratch t : List ℕ) (s : Setup)
    → IsText t s.text
    → 60 < length s.ssid
    → s.ssid_stage ≡ 0
    → (u : Setup) × (confirm scratch s ≡ some u) × HasStored 0 t s u
unfolding confirm store_text
confirm_ssid scratch t s v room k =
    let (text, array, e, held, size, empty) = return_input-c_string t s.ssid s.text v room in
    let u : Setup = record s {
      inputs = set_state s.inputs;
      text = text;
      ssid = array;
      ssid_stage = s.ssid_stage + 1;
    } in
    (
      u,
      rw (k, e) refl,
      record {
        stored = held;
        others = same_fields 0 s u (λ ne. absurd (ne refl)) (λ ne. refl) (λ ne. refl);
        same_port = refl;
        emptied = empty;
        next_stage = ap (λ n. n + 1) k;
        same_stage = refl;
        inputs = refl;
        going_on = refl;
      },
    )

confirm_pw :
    (scratch t : List ℕ) (s : Setup)
    → IsText t s.text
    → 60 < length s.pw
    → s.ssid_stage ≡ 1
    → (u : Setup) × (confirm scratch s ≡ some u) × HasStored 1 t s u
unfolding confirm store_text
confirm_pw scratch t s v room k =
    let (text, array, e, held, size, empty) = return_input-c_string t s.pw s.text v room in
    let u : Setup = record s {
      inputs = set_state s.inputs;
      text = text;
      pw = array;
      ssid_stage = s.ssid_stage + 1;
    } in
    (
      u,
      rw (k, e) refl,
      record {
        stored = held;
        others = same_fields 1 s u (λ ne. refl) (λ ne. absurd (ne refl)) (λ ne. refl);
        same_port = refl;
        emptied = empty;
        next_stage = ap (λ n. n + 1) k;
        same_stage = refl;
        inputs = refl;
        going_on = refl;
      },
    )

confirm_hostname :
    (scratch t : List ℕ) (s : Setup)
    → IsText t s.text
    → 60 < length s.hostname
    → s.ssid_stage ≡ 2
    → (u : Setup) × (confirm scratch s ≡ some u) × HasStored 2 t s u
unfolding confirm store_text
confirm_hostname scratch t s v room k =
    let (text, array, e, held, size, empty) = return_input-c_string t s.hostname s.text v room in
    let u : Setup = record s {
      inputs = set_state s.inputs;
      text = text;
      hostname = array;
      ssid_stage = s.ssid_stage + 1;
    } in
    (
      u,
      rw (k, e) refl,
      record {
        stored = held;
        others = same_fields 2 s u (λ ne. refl) (λ ne. refl) (λ ne. absurd (ne refl));
        same_port = refl;
        emptied = empty;
        next_stage = ap (λ n. n + 1) k;
        same_stage = refl;
        inputs = refl;
        going_on = refl;
      },
    )

-- With a text in the input and arrays of more than 60 bytes, pin 12 behind the page of the first
-- three stages stores the text in the array of the stage (0 the SSID, 1 the password, 2 the host
-- name), whatever this held; it leaves the other arrays and the port, empties the input, goes on
-- to the next stage, and releases the button.
pub confirm-HasStored :
    (k : ℕ) (scratch t : List ℕ) (s : Setup)
    → k < 3
    → IsText t s.text
    → 60 < length (field k s)
    → s.ssid_stage ≡ k
    → (u : Setup) × (confirm scratch s ≡ some u) × HasStored k t s u
confirm-HasStored zero scratch t s h v room e = confirm_ssid scratch t s v room e
confirm-HasStored (suc zero) scratch t s h v room e = confirm_pw scratch t s v room e
confirm-HasStored (suc (suc zero)) scratch t s h v room e = confirm_hostname scratch t s v room e
confirm-HasStored (suc (suc (suc k))) scratch t s h v room e = absurd (omega arith)

bind_some :
    (o : Option ℤ) (g : ℤ → Setup) (h : Setup → Setup)
    → ((o >>= λ n. some (g n)) >>= λ u. some (h u)) ≡ (o >>= λ n. some (h (g n)))
bind_some none g h = refl
bind_some (some n) g h = refl

some_iff :
    (o : Option ℤ) (out : Option Setup) (f : ℤ → Setup)
    → out ≡ (o >>= λ n. some (f n))
    → (out ≡ none) ↔ (o ≡ none)
some_iff o out f e = ground arith

-- At the fourth stage the text becomes the port; a text that is no number of an `int` ends the
-- program.
pub confirm_port_iff :
    (scratch t : List ℕ) (s : Setup)
    → IsText t s.text
    → 60 < length scratch
    → s.ssid_stage ≡ 3
    → ((confirm scratch s ≡ none) ↔ (number_of (skip_spaces t) ≡ none))
      × ((n : ℤ)
          → number_of (skip_spaces t) ≡ some n
          → (u : Setup) × (confirm scratch s ≡ some u) × (u.port ≡ n) × (u.ssid_stage ≡ 4))
unfolding confirm store_text
confirm_port_iff scratch t s v room k =
    let (text, array, e, held, size, empty) = return_input-c_string t scratch s.text v room in
    let after : ℤ → Setup = λ n. record s {
      inputs = set_state s.inputs;
      text = text;
      port = n;
      ssid_stage = s.ssid_stage + 1;
    } in
    let same : confirm scratch s ≡ (number_of (skip_spaces t) >>= λ n. some (after n)) =
      rw (k, e, held) (bind_some (number_of (skip_spaces t)) _ _) in
    (
      some_iff (number_of (skip_spaces t)) (confirm scratch s) after same,
      λ n found.
          (after n, same ∙ ap (λ o. o >>= λ m. some (after m)) found, refl, ap (λ m. m + 1) k),
    )
