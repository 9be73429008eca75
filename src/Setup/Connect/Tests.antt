-- ===== src/Setup/Connect/Tests.antt =====
-- Runs of the outer start-up loop.
use Prim.Native.String.{String}
use ventilation_system_proje.Common.{
  ℕ, ◌+◌, ◌-◌, ◌≡◌, refl, Bool, true, false, Option, none, some, List, [], ◌∷◌, ◌++◌, ◌==◌,
  if◌then◌else◌, length, take, drop, replicate,
}
use ventilation_system_proje.Common.Int.{pos}
use ventilation_system_proje.Input.{handler}
use ventilation_system_proje.IpStack.{Lwip, IpStack}
use ventilation_system_proje.IpStack.Calls.{ip_stack, connect}
use ventilation_system_proje.CommHandler.{
  initial_topics, subscribe, subscribe_again, subscribe_new, subscribe_stored, unsubscribe,
}
use ventilation_system_proje.Eeprom.{write_page, send, write_cycle_block, write_cycle_check}
use ventilation_system_proje.Eeprom.Storage.{Storage}
use ventilation_system_proje.Eeprom.Chip.{storage}
use ventilation_system_proje.Eeprom.Model.{Device, model_sdk, model_chip}
use ventilation_system_proje.Log.{LogHandler, append_crc, store_at}
use ventilation_system_proje.Crc.Ccitt.{crc16, crc16_byte, crc16_loop}
use ventilation_system_proje.Log.Handler.{clear_all_logs, clear_slots, increment_unused_log_index}
use ventilation_system_proje.Log.Credentials.{
  store_credentials, copy_at, create_credential_array, credential,
}
use ventilation_system_proje.Setup.{Setup}
use ventilation_system_proje.Setup.Body.{visit, visits, choose, choose_part}
use ventilation_system_proje.Setup.Connect.{
  Paho, Session, System, joined, verified, attempt, connect_part, session, sessions,
}
use ventilation_system_proje.Setup.Connect.Calls.{
  Call, called_init, called_wifi, called_aton, called_tcp_new, called_callbacks, called_tcp,
  called_mqtt, called_subscribe, recording, recording_paho,
}
use ventilation_system_proje.Setup.Connect.Ready.{IsConnected, sessions-IsConnected}
use ventilation_system_proje.Setup.Connect.Outcome.{connect_part_lem}

-- All calls succeed, and the world counts them.
abbrev net : Lwip
net = record {
  World = ℕ;
  Pbuf = List ℕ;
  Err = Bool;
  err_ok = true;
  err_arg = false;
  err_mem = false;
  err_abrt = false;
  is_ok = λ e. e;
  tot_len = λ p. length p;
  copy_partial = λ p n from. take n (drop from p);
  pbuf_free = λ _ w. w + 1;
  tcp_recved = λ _ w. w + 1;
  arch_init = λ w. (false, w + 1);
  wifi_connect = λ _ _ w. (false, w + 1);
  ip4addr_aton = λ _ w. (true, w + 1);
  tcp_new = λ w. (true, w + 1);
  set_callbacks = λ w. w + 1;
  clear_callbacks = λ w. w + 1;
  tcp_connect = λ _ w. (true, w + 1);
  tcp_write = λ _ w. (true, w + 1);
  tcp_output = λ w. (true, w + 1);
  tcp_close = λ w. (true, w + 1);
  tcp_abort = λ w. w + 1;
}

-- A client that is connected once `connect` was called.
abbrev mqtt : Paho net
mqtt = record {
  State = Bool;
  new_client = false;
  code = λ e. pos 0;
  connect = λ n. (pos 0, (true, n.1, n.2));
  subscribe = λ _ n. (pos 0, n);
  unsubscribe = λ _ n. (pos 0, n);
  publish = λ _ _ n. (pos 0, n);
  is_connected = λ n. n.0;
}

-- A client that no broker accepts.
abbrev refused : Paho net
refused = record {
  State = Bool;
  new_client = false;
  code = λ e. pos 0;
  connect = λ n. (pos 5, n);
  subscribe = λ _ n. (pos 0, n);
  unsubscribe = λ _ n. (pos 0, n);
  publish = λ _ _ n. (pos 0, n);
  is_connected = λ n. n.0;
}

abbrev device : Device
device = record { clock = 12000; cells = λ _. 0; at = 0; busy = 0 }

abbrev eeprom : Storage
eeprom = storage model_sdk model_chip

abbrev written : List ℕ → String
written bytes = if length bytes == 3 then "net" else "other"

abbrev field : List ℕ → List ℕ
field text = text ++ replicate (64 - length text) 0

-- The SSID "net", the password "secret" and the address "10.0.0.1".
abbrev ssid : List ℕ
ssid = 110 ∷ 101 ∷ 116 ∷ []

abbrev pw : List ℕ
pw = 115 ∷ 101 ∷ 99 ∷ 114 ∷ 101 ∷ 116 ∷ []

abbrev hostname : List ℕ
hostname = 49 ∷ 48 ∷ 46 ∷ 48 ∷ 46 ∷ 48 ∷ 46 ∷ 49 ∷ []

abbrev first : Setup
first = record {
  inputs = record {
    pass = record { data_value = pos 0; button_pin = 0; button_pressed = false };
    last_state = 0;
  };
  text = record { current_array = 0; input_string = replicate 60 0 };
  stage = 0;
  ssid_stage = 0;
  rotvalue = pos 0;
  i = pos 10000;
  prevval = pos 0;
  input = replicate 64 0;
  ssid = field ssid;
  pw = field pw;
  hostname = field hostname;
  port = pos 1883;
  done = false;
  use_wifi = true;
  network_done = false;
}

abbrev booted : (paho : Paho net) → System net paho eeprom written
booted paho = record {
  setup = first;
  network = none;
  topics = none;
  world = 0;
  log = record {
    unused_log_addr = 0;
    unused_reboot_status_addr = 2056;
    boot_timestamp = 3;
    unused_comm_config_addr = 4160;
    current_comm_config_addr = 4160;
    has_comm_handler = false;
  };
  mem = record { write_cycle_max = 5000; write_init_time = 0; world = device };
}

-- Two steps of the encoder, and the button: the entry "use previous settings".
abbrev choosing : Session
choosing = record {
  turns =
      record {
        before_first = (10, 1, 0) ∷ (10, 0, 1) ∷ [];
        before_second = [];
        before_third = [];
        before_page = [];
        before_seven = [];
        before_twelve = [];
        before_nine = (9, 0, 0) ∷ [];
        scratch = [];
      }
      ∷ [];
  raw_stack = record {
    buffer = λ _. 0;
    count = 7;
    dropped = 0;
    wr = 7;
    rd = 7;
    connected = true;
    success = false;
    has_pcb = true;
  };
  raw_arrays = replicate 64 0xAA;
}

abbrev or_else : {A : Type 0} → A → Option A → A
or_else a none = a
or_else a (some b) = b

abbrev behind : System net mqtt eeprom written
behind = or_else (booted mqtt) (sessions net mqtt eeprom written (choosing ∷ []) (booted mqtt))

sessions-IsConnected_example : IsConnected net mqtt eeprom written behind
unfolding sessions session visits visit choose_part handler choose connect_part attempt verified
    joined subscribe_stored store_credentials append_crc crc16 write_page ip_stack subscribe
    subscribe_again subscribe_new unsubscribe crc16_byte crc16_loop send write_cycle_block
    write_cycle_check connect copy_at create_credential_array credential clear_all_logs clear_slots
    increment_unused_log_index store_at
sessions-IsConnected_example =
    sessions-IsConnected net mqtt eeprom written (choosing ∷ []) (booted mqtt) behind refl refl refl

-- The attempt on a network that answers everything, with a broker that refuses the client: all calls
-- are made, the loop goes on, and nothing is stored.
abbrev recorded : System (recording net) (recording_paho net refused) eeprom written
recorded = record {
  setup = first;
  network = none;
  topics = none;
  world = ([], 0);
  log = (booted refused).log;
  mem = (booted refused).mem;
}

connect_part_lem_example :
    (n : Bool × IpStack × (List Call × ℕ)) × (n.2.0
      ≡ called_subscribe "vent/controller/settings"
        ∷ called_mqtt
        ∷ called_tcp 1883
        ∷ called_callbacks
        ∷ called_tcp_new
        ∷ called_aton "other"
        ∷ called_wifi "net" "other"
        ∷ called_init
        ∷ [])
    × (n.0 ≡ false
        → (u : System (recording net) (recording_paho net refused) eeprom written) × (connect_part
              (recording net)
              (recording_paho net refused)
              eeprom
              written
              choosing
              recorded
            ≡ some u)
          × (u.setup.network_done ≡ false)
          × (u.log ≡ recorded.log)
          × (u.mem ≡ recorded.mem)
          × (u.network ≡ some (n.0, n.1))
          × (u.world ≡ n.2))
    × (n.0 ≡ true
        → (log : LogHandler) (mem : eeprom.Mem)
        → store_credentials eeprom ssid pw hostname
            (pos 1883)
            (replicate 64 0xAA)
            recorded.log
            recorded.mem
          ≡ some (log, mem)
        → (u : System (recording net) (recording_paho net refused) eeprom written) × (connect_part
              (recording net)
              (recording_paho net refused)
              eeprom
              written
              choosing
              recorded
            ≡ some u)
          × (u.setup.network_done ≡ true)
          × (u.log ≡ log)
          × (u.mem ≡ mem)
          × (u.network ≡ some (n.0, n.1))
          × (u.topics ≡ some initial_topics)
          × (u.world ≡ n.2))
connect_part_lem_example =
    connect_part_lem net refused eeprom written choosing recorded ssid pw hostname refl refl refl
      refl
