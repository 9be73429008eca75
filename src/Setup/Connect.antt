-- ===== src/Setup/Connect.antt =====
-- The outer start-up loop of main.cpp: the inner loop, and the attempt to connect behind it, with
-- the IP stack, the communication handler and the log handler.
pub mod Ready
pub mod Calls
pub mod Outcome
mod Tests
use ventilation_system_proje.Common.{
  ℕ, Bool, true, false, Option, none, some, List, [], ◌∷◌, if◌then◌else◌, ◌>>=◌,
}
use Prim.Native.String.{String}
use ventilation_system_proje.Common.Int.{ℤ, to_u16}
use ventilation_system_proje.Display.Menus.TextInput.{c_string}
use ventilation_system_proje.IpStack.{Lwip, IpStack}
use ventilation_system_proje.IpStack.Calls.{ip_stack, connect}
use ventilation_system_proje.CommHandler.{
  Client, Topics, control_topic, initial_topics, connect_to_server, connect_to_broker,
  subscribe_stored, verify_connection,
}
use ventilation_system_proje.Eeprom.Storage.{Storage}
use ventilation_system_proje.Log.{LogHandler}
use ventilation_system_proje.Log.Credentials.{store_credentials}
use ventilation_system_proje.Setup.{Setup, Visit, begin_setup}
use ventilation_system_proje.Setup.Body.{visits}

-- The MQTT client over the IP stack: its state, which its constructor sets up, and its calls, which
-- read and write through the stack. `code` is the number of an error of lwIP.
pub record Paho (lwip : Lwip) : Type 1 where
  pub State : Type 0
  pub new_client : State
  pub code : lwip.Err → ℤ
  pub connect : State × IpStack × lwip.World → ℤ × (State × IpStack × lwip.World)
  pub subscribe : String → State × IpStack × lwip.World → ℤ × (State × IpStack × lwip.World)
  pub unsubscribe : String → State × IpStack × lwip.World → ℤ × (State × IpStack × lwip.World)
  pub publish : String → String → State × IpStack × lwip.World → ℤ × (State × IpStack × lwip.World)
  pub is_connected : State × IpStack × lwip.World → Bool

-- What the communication handler works on: the client, and the stack that it was made with.
abbrev pub client_over : (lwip : Lwip) → Paho lwip → Client
client_over lwip paho = record {
  World = paho.State × IpStack × lwip.World;
  tcp_connect = λ hostname port n.
      let (err, ip, w) = connect lwip hostname port n.1 n.2 in (paho.code err, (n.0, ip, w));
  connect = paho.connect;
  subscribe = paho.subscribe;
  unsubscribe = paho.unsubscribe;
  publish = paho.publish;
  is_connected = paho.is_connected;
}

-- What one turn of the outer loop meets: the turns of the inner loop, and the memory of the new IP
-- stack and of the arrays in `storeCredentials`.
pub record Session : Type 0 where
  pub turns : List Visit
  pub raw_stack : IpStack
  pub raw_arrays : List ℕ

-- `string` is the text of the bytes of a C string.
module _ (lwip : Lwip) (paho : Paho lwip) (storage : Storage) (string : List ℕ → String) where
  open storage use {Mem}

  -- `network` is what `clientptr` and `ipstackptr` point to, `topics` the topics of the handler
  -- of `commHandlerptr`.
  pub record System : Type 0 where
    pub setup : Setup
    pub network : Option (paho.State × IpStack)
    pub topics : Option Topics
    pub world : lwip.World
    pub log : LogHandler
    pub mem : Mem

  -- The calls of the handler `comm_handler`, which is gone behind them with its topics.
  unfoldable pub joined :
      String → ℤ → paho.State × IpStack × lwip.World → paho.State × IpStack × lwip.World
  joined hostname port n =
      let client = client_over lwip paho in
      let n1 = (connect_to_server client hostname (to_u16 port) n).1 in
      let n2 = (connect_to_broker client n1).1 in
      (subscribe_stored client control_topic initial_topics n2).2

  -- Behind the calls: the credentials are stored if the client is connected.
  unfoldable pub verified :
      List ℕ
      → List ℕ
      → List ℕ
      → List ℕ
      → Bool
      → paho.State × IpStack × lwip.World
      → System
      → Option System
  verified raw ssid pw hostname success n s =
      let done = if success then true else s.setup.network_done in
      let s1 = record s { network = some (n.0, n.1); topics = some initial_topics; world = n.2 } in
      if verify_connection (client_over lwip paho) n
      then (do
        stored ← store_credentials storage ssid pw hostname s.setup.port raw s.log s.mem
        some (record s1 {
          setup = record (s.setup) { network_done = done };
          log = stored.0;
          mem = stored.1;
        }))
      else some (record s1 { setup = record (s.setup) { network_done = false } })

  unfoldable pub attempt : Session → System → Option System
  attempt x s = do
    ssid ← c_string s.setup.ssid
    pw ← c_string s.setup.pw
    hostname ← c_string s.setup.hostname
    let (ip, w) = ip_stack lwip x.raw_stack (string ssid) (string pw) s.world
    let n = joined (string hostname) s.setup.port (paho.new_client, ip, w)
    verified x.raw_arrays ssid pw hostname ip.success n s

  unfoldable pub connect_part : Session → System → Option System
  connect_part x s = if s.setup.use_wifi then attempt x s else some s

  unfoldable pub session : Session → System → Option System
  session x s = do
    setup ← visits x.turns (begin_setup s.setup)
    connect_part x (record s { setup = setup })

  -- The outer loop over the turns to come: `none` where one of them does not return, or where the
  -- loop has not ended behind the last.
  unfoldable pub sessions : List Session → System → Option System
  sessions [] s = if s.setup.network_done then some s else none
  sessions (x ∷ xs) s =
      let later = session x s >>= sessions xs in if s.setup.network_done then some s else later
