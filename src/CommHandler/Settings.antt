-- ===== src/CommHandler/Settings.antt =====
-- The settings that a message changes, and the message that `CommHandler::send` publishes.
use Prim.Native.String.{String}
use ventilation_system_proje.Common.{Bool, false, Option, some, List, [], ◌∷◌, ◌>>=◌, set}
use ventilation_system_proje.Common.Int.{ℤ, pos}
use ventilation_system_proje.CommHandler.{Client, Topics, data_topic, publish, is_zero}

pub record Settings : Type 0 where
  pub manual : Bool
  pub setpoint : ℤ

abbrev pub initial_settings : Settings
initial_settings = record { manual = false; setpoint = pos 50 }

-- `get_int` is what rapidjson finds under a key: `none` if there is no number, which the code does
-- not test.
unfoldable pub message_arrived : (String → String → Option ℤ) → String → Settings → Option Settings
message_arrived get_int payload s = do
  set ← get_int "value" payload
  aut ← get_int "auto" payload
  some (record s { setpoint = set; manual = is_zero aut })

abbrev pub set_manual : Bool → Settings → Settings
set_manual man s = record s { manual = man }

abbrev pub set_set_point : ℤ → Settings → Settings
set_set_point set_point s = record s { setpoint = set_point }

-- The values of the writer; `F` are the floating-point numbers.
pub data Value (F : Type 0) : Type 0 where
  int : ℤ → Value F
  bool : Bool → Value F
  double : F → Value F

module _ {F : Type 0} (client : Client) (render : List (String × Value F) → String) where
  abbrev pub status_fields : ℤ → ℤ → ℤ → Bool → Bool → F → F → F → F → List (String × Value F)
  status_fields speed setpoint pressure aut error co2 ah rh temp =
      ("speed", int speed)
      ∷ ("setpoint", int setpoint)
      ∷ ("pressure", int pressure)
      ∷ ("auto", bool aut)
      ∷ ("error", bool error)
      ∷ ("co2", double co2)
      ∷ ("ah", double ah)
      ∷ ("rh", double rh)
      ∷ ("temp", double temp)
      ∷ []

  unfoldable pub send :
      ℤ → ℤ → ℤ → Bool → Bool → F → F → F → F → Topics → client.World → client.World
  unfolding publish
  send speed setpoint pressure aut error co2 ah rh temp topics w =
      (publish client data_topic
        (render (status_fields speed setpoint pressure aut error co2 ah rh temp)) topics w).1
