-- ===== src/Setup/Connect/Outcome.antt =====
-- One attempt to connect, on all its branches.
use ventilation_system_proje.Common.{
  ℕ, ◌≡◌, refl, ap, ◌∙◌, Bool, true, false, ◌||◌, some, List, [], ◌∷◌, ◌++◌, append_assoc, sym,
  if◌then◌else◌,
}
use ventilation_system_proje.Common.Branches.{if_true, if_false, bound, if-or}
use ventilation_system_proje.Setup.Connect.Calls.{
  Call, called_init, called_wifi, called_mqtt, called_subscribe, recording, recording_paho,
  tcp_calls, attempt_calls, init_failed, behind_wifi, is_online, is_address, has_block,
  ip_stack_calls, joined_calls,
}
use Prim.Native.String.{String}
use ventilation_system_proje.Common.Int.{ℤ, to_u16}
use ventilation_system_proje.Display.Menus.TextInput.{c_string}
use ventilation_system_proje.IpStack.{Lwip, IpStack}
use ventilation_system_proje.IpStack.Calls.{ip_stack}
use ventilation_system_proje.CommHandler.{initial_topics, verify_connection}
use ventilation_system_proje.Eeprom.Storage.{Storage}
use ventilation_system_proje.Log.{LogHandler}
use ventilation_system_proje.Log.Credentials.{store_credentials}
use ventilation_system_proje.Setup.Connect.{
  Paho, client_over, Session, System, joined, verified, attempt, connect_part,
}

module _ (lwip : Lwip) (paho : Paho lwip) (storage : Storage) (string : List ℕ → String) where
  -- The network behind the calls of one attempt, with the stack that was made for it.
  abbrev made : Session → List ℕ → List ℕ → lwip.World → IpStack × lwip.World
  made x ssid pw w = ip_stack lwip x.raw_stack (string ssid) (string pw) w

  abbrev reached :
      Session → List ℕ → List ℕ → List ℕ → ℤ → lwip.World → paho.State × IpStack × lwip.World
  reached x ssid pw hostname port w =
      joined lwip paho storage string (string hostname) port
        (paho.new_client, (made x ssid pw w).0, (made x ssid pw w).1)

  made_of :
      (x : Session) (s : System lwip paho storage string) (ssid pw hostname : List ℕ)
      → c_string s.setup.ssid ≡ some ssid
      → c_string s.setup.pw ≡ some pw
      → c_string s.setup.hostname ≡ some hostname
      → s.setup.use_wifi ≡ true
      → connect_part lwip paho storage string x s
        ≡ verified lwip paho storage string x.raw_arrays ssid pw hostname
            (made x ssid pw s.world).0.success
            (reached x ssid pw hostname s.setup.port s.world)
            s
  unfolding connect_part attempt
  made_of x s ssid pw hostname e1 e2 e3 on =
      if_true s.setup.use_wifi (attempt lwip paho storage string x s) (some s) on
      ∙ bound (c_string s.setup.ssid) _ ssid e1
      ∙ bound (c_string s.setup.pw) _ pw e2
      ∙ bound (c_string s.setup.hostname) _ hostname e3

  abbrev after :
      Bool
      → LogHandler
      → storage.Mem
      → paho.State × IpStack × lwip.World
      → System lwip paho storage string
      → System lwip paho storage string
  after done log mem n s = record s {
    network = some (n.0, n.1);
    topics = some initial_topics;
    world = n.2;
    setup = record (s.setup) { network_done = done };
    log = log;
    mem = mem;
  }

  verified_off :
      (raw ssid pw hostname : List ℕ) (success : Bool) (n : paho.State × IpStack × lwip.World)
      (s : System lwip paho storage string)
      → verify_connection (client_over lwip paho) n ≡ false
      → verified lwip paho storage string raw ssid pw hostname success n s
        ≡ some (after false s.log s.mem n s)
  unfolding verified
  verified_off raw ssid pw hostname success n s off =
      if_false (verify_connection (client_over lwip paho) n) _ _ off

  verified_on :
      (raw ssid pw hostname : List ℕ) (success : Bool) (n : paho.State × IpStack × lwip.World)
      (s : System lwip paho storage string) (log : LogHandler) (mem : storage.Mem)
      → verify_connection (client_over lwip paho) n ≡ true
      → store_credentials storage ssid pw hostname s.setup.port raw s.log s.mem ≡ some (log, mem)
      → verified lwip paho storage string raw ssid pw hostname success n s
        ≡ some (after (success || s.setup.network_done) log mem n s)
  unfolding verified
  verified_on raw ssid pw hostname success n s log mem on stored =
      if_true (verify_connection (client_over lwip paho) n) _ _ on
      ∙ bound (store_credentials storage ssid pw hostname s.setup.port raw s.log s.mem) _ (log, mem)
          stored
      ∙ ap (λ done. some (after done log mem n s)) (if-or success s.setup.network_done)

wifi_append :
    (failed : Bool) (ssid pw : String) (log : List Call)
    → (if failed then called_init ∷ log else called_wifi ssid pw ∷ called_init ∷ log)
      ≡ (if failed then called_init ∷ [] else called_wifi ssid pw ∷ called_init ∷ []) ++ log
wifi_append true ssid pw log = refl
wifi_append false ssid pw log = refl

module _ (lwip : Lwip) (paho : Paho lwip) (storage : Storage) (string : List ℕ → String) where
  -- The calls of an attempt with these texts and this port, by what lwIP answers at `w`.
  abbrev pub calls_at : List ℕ → List ℕ → List ℕ → ℤ → lwip.World → List Call
  calls_at ssid pw hostname port w =
      let online = behind_wifi lwip (string ssid) (string pw) w in
      attempt_calls (init_failed lwip w) (is_address lwip (string hostname) online)
        (has_block lwip (string hostname) online) (string ssid) (string pw) (string hostname)
        (to_u16 port)

  reached_calls :
      (x : Session) (ssid pw hostname : List ℕ) (port : ℤ) (log : List Call) (w : lwip.World)
      → (reached
          (recording lwip)
          (recording_paho lwip paho)
          storage
          string
          x
          ssid
          pw
          hostname
          port
          (log, w)).2.0
        ≡ calls_at ssid pw hostname port w ++ log
  reached_calls x ssid pw hostname port log w =
      let rl = recording lwip in
      let rp = recording_paho lwip paho in
      let stack = (made rl rp storage string x ssid pw (log, w)).0 in
      let online = behind_wifi lwip (string ssid) (string pw) w in
      let failed = init_failed lwip w in
      let wifi =
        (if failed
          then called_init ∷ log
          else called_wifi (string ssid) (string pw) ∷ called_init ∷ log) in
      let tcp =
        tcp_calls (is_address lwip (string hostname) online)
          (has_block lwip (string hostname) online) (string hostname) (to_u16 port) in
      ap (λ v. (joined rl rp storage string (string hostname) port (paho.new_client, stack, v)).2.0)
        (ip_stack_calls lwip x.raw_stack (string ssid) (string pw) log w).0
      ∙ joined_calls lwip paho storage string (string hostname) port paho.new_client stack wifi
          online
      ∙ ap (λ l. called_subscribe "vent/controller/settings" ∷ called_mqtt ∷ l)
          (ap (λ l. tcp ++ l) (wifi_append failed (string ssid) (string pw) log)
            ∙ sym (
                append_assoc tcp
                  (if failed
                    then called_init ∷ []
                    else called_wifi (string ssid) (string pw) ∷ called_init ∷ [])
                  log))

  -- With three terminated texts and Wi-Fi wanted, an attempt makes these calls and no others, but
  -- for those of lwIP that the client makes itself: it starts the driver and, if that starts, joins
  -- the Wi-Fi with the SSID and the password; whatever comes of it, it looks up the host name and, as
  -- far as lwIP goes along, sets up a control block and connects it to the port; and in every case
  -- it has the MQTT client connect and subscribe to the topic of the settings. If the client is not
  -- connected behind them, the attempt returns, the log handler and the EEPROM are as before, and the
  -- outer loop goes on. If it is, and the credentials can be stored, the attempt returns with these
  -- stored; the outer loop ends if the Wi-Fi was joined, or had ended already. Behind it, the
  -- pointers lead to the client and the stack that the calls were made with.
  pub connect_part_lem :
      (x : Session) (s : System (recording lwip) (recording_paho lwip paho) storage string)
      (ssid pw hostname : List ℕ)
      → c_string s.setup.ssid ≡ some ssid
      → c_string s.setup.pw ≡ some pw
      → c_string s.setup.hostname ≡ some hostname
      → s.setup.use_wifi ≡ true
      → (n : paho.State × IpStack × (List Call × lwip.World)) × (n.2.0
          ≡ calls_at ssid pw hostname s.setup.port s.world.1 ++ s.world.0)
        × (paho.is_connected (n.0, n.1, n.2.1) ≡ false
            → (u : System (recording lwip) (recording_paho lwip paho) storage string)
              × (connect_part (recording lwip) (recording_paho lwip paho) storage string x s
                  ≡ some u)
              × (u.setup.network_done ≡ false)
              × (u.log ≡ s.log)
              × (u.mem ≡ s.mem)
              × (u.network ≡ some (n.0, n.1))
              × (u.world ≡ n.2))
        × (paho.is_connected (n.0, n.1, n.2.1) ≡ true
            → (log : LogHandler) (mem : storage.Mem)
            → store_credentials storage ssid pw hostname s.setup.port x.raw_arrays s.log s.mem
              ≡ some (log, mem)
            → (u : System (recording lwip) (recording_paho lwip paho) storage string)
              × (connect_part (recording lwip) (recording_paho lwip paho) storage string x s
                  ≡ some u)
              × (u.setup.network_done
                  ≡ (is_online lwip (string ssid) (string pw) s.world.1 || s.setup.network_done))
              × (u.log ≡ log)
              × (u.mem ≡ mem)
              × (u.network ≡ some (n.0, n.1))
              × (u.topics ≡ some initial_topics)
              × (u.world ≡ n.2))
  connect_part_lem x s ssid pw hostname e1 e2 e3 on =
      let rl = recording lwip in
      let rp = recording_paho lwip paho in
      let n = reached rl rp storage string x ssid pw hostname s.setup.port s.world in
      let success = (made rl rp storage string x ssid pw s.world).0.success in
      let first = made_of rl rp storage string x s ssid pw hostname e1 e2 e3 on in
      (
        n,
        reached_calls x ssid pw hostname s.setup.port s.world.0 s.world.1,
        (λ off. (
          after rl rp storage string false s.log s.mem n s,
          first ∙ verified_off rl rp storage string x.raw_arrays ssid pw hostname success n s off,
          refl,
          refl,
          refl,
          refl,
          refl,
        )),
        λ yes log mem stored. (
          after rl rp storage string (success || s.setup.network_done) log mem n s,
          first
              ∙ verified_on rl rp storage string x.raw_arrays ssid pw hostname success n s log mem
                  yes stored,
          ap (λ b. b || s.setup.network_done)
              (ip_stack_calls lwip x.raw_stack (string ssid) (string pw) s.world.0 s.world.1).1,
          refl,
          refl,
          refl,
          refl,
          refl,
        ),
      )
