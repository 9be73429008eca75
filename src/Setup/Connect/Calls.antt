-- ===== src/Setup/Connect/Calls.antt =====
-- The calls of lwIP, of the Wi-Fi driver and of the MQTT client in one attempt to connect, as the
-- outside sees them.
use ventilation_system_proje.Common.{
  ℕ, ◌≡◌, refl, ap, ◌∙◌, Bool, not, ◌&&◌, List, [], ◌∷◌, ◌++◌, if◌then◌else◌, Bool-cases, inl, inr,
}
use Prim.Native.String.{String}
use ventilation_system_proje.Common.Int.{ℤ, to_u16}
use ventilation_system_proje.IpStack.{Lwip, IpStack}
use ventilation_system_proje.IpStack.Calls.{ip_stack, connect}
use ventilation_system_proje.CommHandler.{
  is_zero, control_topic, initial_topics, subscribe, subscribe_new, subscribe_stored,
}
use ventilation_system_proje.Eeprom.Storage.{Storage}
use ventilation_system_proje.Setup.Connect.{Paho, client_over, joined}

pub data Call : Type 0 where
  called_init called_tcp_new called_callbacks called_mqtt called_other : Call
  called_wifi : (ssid pw : String) → Call
  called_aton : (hostname : String) → Call
  called_tcp : (port : ℕ) → Call
  called_subscribe : (topic : String) → Call

-- lwIP and the driver with a record of the calls, the newest first, in front of their state.
abbrev pub recording : Lwip → Lwip
recording lwip = record {
  World = List Call × lwip.World;
  Pbuf = lwip.Pbuf;
  Err = lwip.Err;
  err_ok = lwip.err_ok;
  err_arg = lwip.err_arg;
  err_mem = lwip.err_mem;
  err_abrt = lwip.err_abrt;
  is_ok = lwip.is_ok;
  tot_len = lwip.tot_len;
  copy_partial = lwip.copy_partial;
  pbuf_free = λ p w. (called_other ∷ w.0, lwip.pbuf_free p w.1);
  tcp_recved = λ n w. (called_other ∷ w.0, lwip.tcp_recved n w.1);
  arch_init = λ w. let (e, w') = lwip.arch_init w.1 in (e, (called_init ∷ w.0, w'));
  wifi_connect = λ ssid pw w.
      let (e, w') = lwip.wifi_connect ssid pw w.1 in (e, (called_wifi ssid pw ∷ w.0, w'));
  ip4addr_aton = λ host w.
      let (known, w') = lwip.ip4addr_aton host w.1 in (known, (called_aton host ∷ w.0, w'));
  tcp_new = λ w. let (made, w') = lwip.tcp_new w.1 in (made, (called_tcp_new ∷ w.0, w'));
  set_callbacks = λ w. (called_callbacks ∷ w.0, lwip.set_callbacks w.1);
  clear_callbacks = λ w. (called_other ∷ w.0, lwip.clear_callbacks w.1);
  tcp_connect =
      λ port w. let (e, w') = lwip.tcp_connect port w.1 in (e, (called_tcp port ∷ w.0, w'));
  tcp_write = λ bytes w. let (e, w') = lwip.tcp_write bytes w.1 in (e, (called_other ∷ w.0, w'));
  tcp_output = λ w. let (e, w') = lwip.tcp_output w.1 in (e, (called_other ∷ w.0, w'));
  tcp_close = λ w. let (e, w') = lwip.tcp_close w.1 in (e, (called_other ∷ w.0, w'));
  tcp_abort = λ w. (called_other ∷ w.0, lwip.tcp_abort w.1);
}

-- The same for the MQTT client, whose own calls of lwIP are not recorded.
abbrev pub recording_paho : (lwip : Lwip) → Paho lwip → Paho (recording lwip)
recording_paho lwip paho = record {
  State = paho.State;
  new_client = paho.new_client;
  code = paho.code;
  connect = λ n.
      let (e, (c, ip, w)) = paho.connect (n.0, n.1, n.2.1) in
      (e, (c, ip, (called_mqtt ∷ n.2.0, w)));
  subscribe = λ topic n.
      let (e, (c, ip, w)) = paho.subscribe topic (n.0, n.1, n.2.1) in
      (e, (c, ip, (called_subscribe topic ∷ n.2.0, w)));
  unsubscribe = λ topic n.
      let (e, (c, ip, w)) = paho.unsubscribe topic (n.0, n.1, n.2.1) in
      (e, (c, ip, (called_other ∷ n.2.0, w)));
  publish = λ topic payload n.
      let (e, (c, ip, w)) = paho.publish topic payload (n.0, n.1, n.2.1) in
      (e, (c, ip, (called_other ∷ n.2.0, w)));
  is_connected = λ n. paho.is_connected (n.0, n.1, n.2.1);
}

-- The calls behind the Wi-Fi: the address, a control block and the connection as far as they go,
-- and then the client and its subscription in every case.
abbrev pub tcp_calls : Bool → Bool → String → ℕ → List Call
tcp_calls known made hostname port =
    (if known
      then (if made
          then called_tcp port ∷ called_callbacks ∷ called_tcp_new ∷ []
          else called_tcp_new ∷ [])
      else [])
    ++ called_aton hostname ∷ []

abbrev pub attempt_calls : Bool → Bool → Bool → String → String → String → ℕ → List Call
attempt_calls failed known made ssid pw hostname port =
    called_subscribe "vent/controller/settings"
    ∷ called_mqtt
    ∷ (tcp_calls known made hostname port
        ++ (if failed then called_init ∷ [] else called_wifi ssid pw ∷ called_init ∷ []))

module _ (lwip : Lwip) where
  -- What the driver and lwIP answer in an attempt: whether the driver fails to start, whether the
  -- Wi-Fi is joined, and what comes of the address and of the control block.
  abbrev pub init_failed : lwip.World → Bool
  init_failed w = (lwip.arch_init w).0

  abbrev pub behind_wifi : String → String → lwip.World → lwip.World
  behind_wifi ssid pw w =
      let (failed, w1) = lwip.arch_init w in if failed then w1 else (lwip.wifi_connect ssid pw w1).1

  abbrev pub is_online : String → String → lwip.World → Bool
  is_online ssid pw w =
      let (failed, w1) = lwip.arch_init w in not failed && not (lwip.wifi_connect ssid pw w1).0

  abbrev pub is_address : String → lwip.World → Bool
  is_address hostname w = (lwip.ip4addr_aton hostname w).0

  abbrev pub has_block : String → lwip.World → Bool
  has_block hostname w = (lwip.tcp_new (lwip.ip4addr_aton hostname w).1).0

  pub ip_stack_calls :
      (raw : IpStack) (ssid pw : String) (log : List Call) (w : lwip.World)
      → let made = ip_stack (recording lwip) raw ssid pw (log, w) in
        (made.1 ≡ (
          (if init_failed w then called_init ∷ log else called_wifi ssid pw ∷ called_init ∷ log),
          behind_wifi ssid pw w,
        ))
        × (made.0.success ≡ is_online ssid pw w)
  unfolding ip_stack
  ip_stack_calls raw ssid pw log w = elim (Bool-cases (lwip.arch_init w).0) [
    | inl failed ↦ rw failed (refl, refl)
    | inr started ↦ elim (Bool-cases (lwip.wifi_connect ssid pw (lwip.arch_init w).1).0) [
      | inl refused ↦ rw (started, refused) (refl, refl)
      | inr online ↦ rw (started, online) (refl, refl)
    ]
  ]

  connect_calls :
      (hostname : String) (port : ℕ) (ip : IpStack) (log : List Call) (w : lwip.World)
      → (connect (recording lwip) hostname port ip (log, w)).2.0
        ≡ tcp_calls (is_address hostname w) (has_block hostname w) hostname port ++ log
  unfolding connect
  connect_calls hostname port ip log w = elim (Bool-cases (is_address hostname w)) [
    | inl known ↦ elim (Bool-cases (has_block hostname w)) [
      | inl made ↦ rw (known, made) refl
      | inr full ↦ rw (known, full) refl
    ]
    | inr unknown ↦ rw unknown refl
  ]

module _ (lwip : Lwip) (paho : Paho lwip) (storage : Storage) (string : List ℕ → String) where
  subscribe_calls :
      (n : paho.State × IpStack × (List Call × lwip.World))
      → (subscribe_stored
          (client_over (recording lwip) (recording_paho lwip paho))
          control_topic
          initial_topics
          n).2.2.0
        ≡ called_subscribe "vent/controller/settings" ∷ n.2.0
  unfolding subscribe_stored subscribe subscribe_new
  subscribe_calls n =
      elim (Bool-cases (is_zero (paho.subscribe "vent/controller/settings" (n.0, n.1, n.2.1)).0)) [
        | inl done ↦ rw done refl
        | inr failed ↦ rw failed refl
      ]

  pub joined_calls :
      (hostname : String) (port : ℤ) (c : paho.State) (ip : IpStack) (log : List Call)
      (w : lwip.World)
      → (joined
          (recording lwip)
          (recording_paho lwip paho)
          storage
          string
          hostname
          port
          (c, ip, (log, w))).2.0
        ≡ called_subscribe "vent/controller/settings"
          ∷ called_mqtt
          ∷ (tcp_calls
                (is_address lwip hostname w)
                (has_block lwip hostname w)
                hostname
                (to_u16 port)
              ++ log)
  unfolding joined
  joined_calls hostname port c ip log w =
      subscribe_calls _
      ∙ ap (λ l. called_subscribe "vent/controller/settings" ∷ called_mqtt ∷ l)
          (connect_calls lwip hostname (to_u16 port) ip log w)
