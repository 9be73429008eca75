-- ===== src/Setup/Connect/Ready.antt =====
-- What the rest of the main program finds behind the start-up loop.
use ventilation_system_proje.Common.{
  ℕ, ◌≡◌, refl, sym, ap, ◌∙◌, subst, inl, inr, Bool, true, false, Option, some, List, [], ◌∷◌,
  if◌then◌else◌, Bool-cases, of_some_eq, ◌>>=◌,
}
use ventilation_system_proje.Common.Branches.{
  none≢some, false≢true, then_inv, else_inv, if_inv, bind_inv,
}
use Prim.Native.String.{String}
use ventilation_system_proje.Display.Menus.TextInput.{c_string}
use ventilation_system_proje.IpStack.{Lwip, IpStack}
use ventilation_system_proje.IpStack.Calls.{ip_stack}
use ventilation_system_proje.CommHandler.{initial_topics, verify_connection}
use ventilation_system_proje.Eeprom.Storage.{Storage}
use ventilation_system_proje.Log.{LogHandler}
use ventilation_system_proje.Log.Credentials.{store_credentials}
use ventilation_system_proje.Setup.{begin_setup}
use ventilation_system_proje.Setup.Body.{visits}
use ventilation_system_proje.Setup.Connect.{
  Paho, client_over, Session, System, joined, verified, attempt, connect_part, session, sessions,
}

module _ (lwip : Lwip) (paho : Paho lwip) (storage : Storage) (string : List ℕ → String) where
  -- The pointers are set, and the client is connected.
  pub record IsConnected (u : System lwip paho storage string) : Type 0 where
    pub state : paho.State
    pub stack : IpStack
    pub network : u.network ≡ some (state, stack)
    pub topics : u.topics ≡ some initial_topics
    pub connected : verify_connection (client_over lwip paho) (state, stack, u.world) ≡ true

  -- The two branches, with `store` the storing of the credentials.
  either-IsConnected :
      (b success : Bool) (store : Option (LogHandler × storage.Mem))
      (n : paho.State × IpStack × lwip.World) (s u : System lwip paho storage string)
      → verify_connection (client_over lwip paho) n ≡ b
      → (if b
          then (store >>= λ stored. some (record s {
            network = some (n.0, n.1);
            topics = some initial_topics;
            world = n.2;
            setup = record (s.setup) {
              network_done = if success then true else s.setup.network_done;
            };
            log = stored.0;
            mem = stored.1;
          }))
          else some (record s {
            network = some (n.0, n.1);
            topics = some initial_topics;
            world = n.2;
            setup = record (s.setup) { network_done = false };
          }))
        ≡ some u
      → u.setup.network_done ≡ true
      → IsConnected u
  either-IsConnected true success store n s u on e done =
      let (stored, found, e') = bind_inv store _ u e in
      subst (λ v. IsConnected v) (of_some_eq e')
        (record { state = n.0; stack = n.1; network = refl; topics = refl; connected = on })
  either-IsConnected false success store n s u off e done =
      absurd (false≢true (ap (λ v. v.setup.network_done) (of_some_eq e) ∙ done))

  verified-IsConnected :
      (raw ssid pw hostname : List ℕ) (success : Bool) (n : paho.State × IpStack × lwip.World)
      (s u : System lwip paho storage string)
      → verified lwip paho storage string raw ssid pw hostname success n s ≡ some u
      → u.setup.network_done ≡ true
      → IsConnected u
  unfolding verified
  verified-IsConnected raw ssid pw hostname success n s u e done =
      either-IsConnected (verify_connection (client_over lwip paho) n) success
        (store_credentials storage ssid pw hostname s.setup.port raw s.log s.mem) n s u refl e done

  connect_part-IsConnected :
      (x : Session) (s u : System lwip paho storage string)
      → connect_part lwip paho storage string x s ≡ some u
      → u.setup.network_done ≡ true
      → u.setup.use_wifi ≡ true
      → IsConnected u
  unfolding connect_part attempt
  connect_part-IsConnected x s u e done wifi =
      elim (if_inv s.setup.use_wifi (attempt lwip paho storage string x s) s u e) [
        | inl (on, e0) ↦
            let (ssid, f1, e1) = bind_inv (c_string s.setup.ssid) _ u e0 in
            let (pw, f2, e2) = bind_inv (c_string s.setup.pw) _ u e1 in
            let (hostname, f3, e3) = bind_inv (c_string s.setup.hostname) _ u e2 in
            let made = ip_stack lwip x.raw_stack (string ssid) (string pw) s.world in
            verified-IsConnected x.raw_arrays ssid pw hostname made.0.success
              (joined lwip paho storage string (string hostname) s.setup.port
                (paho.new_client, made.0, made.1))
              s u e3 done
        | inr (off, same) ↦ absurd (false≢true (sym off ∙ ap (λ v. v.setup.use_wifi) same ∙ wifi))
      ]

  session-IsConnected :
      (x : Session) (s u : System lwip paho storage string)
      → session lwip paho storage string x s ≡ some u
      → u.setup.network_done ≡ true
      → u.setup.use_wifi ≡ true
      → IsConnected u
  unfolding session
  session-IsConnected x s u e done wifi =
      let (setup, found, e') = bind_inv (visits x.turns (begin_setup s.setup)) _ u e in
      connect_part-IsConnected x (record s { setup = setup }) u e' done wifi

  sessions-done :
      (xs : List Session) (s u : System lwip paho storage string)
      → s.setup.network_done ≡ true
      → sessions lwip paho storage string xs s ≡ some u
      → s ≡ u
  unfolding sessions
  sessions-done [] s u done e = of_some_eq (then_inv s.setup.network_done _ _ _ done e)
  sessions-done (x ∷ xs) s u done e = of_some_eq (then_inv s.setup.network_done _ _ _ done e)

  -- When the outer start-up loop was entered and ends, and the user did not choose to go without
  -- the network, the three pointers are set, the MQTT client is connected, and the handler that
  -- the rest of the program uses has the first topics, with none marked as subscribed.
  pub sessions-IsConnected :
      (xs : List Session) (s u : System lwip paho storage string)
      → s.setup.network_done ≡ false
      → sessions lwip paho storage string xs s ≡ some u
      → u.setup.use_wifi ≡ true
      → IsConnected u
  unfolding sessions
  sessions-IsConnected [] s u busy run wifi =
      absurd (none≢some {a = u} (else_inv s.setup.network_done _ _ _ busy run))
  sessions-IsConnected (x ∷ xs) s u busy run wifi =
      let run' : (session lwip paho storage string x s >>= sessions lwip paho storage string xs)
          ≡ some u =
        else_inv s.setup.network_done _ _ _ busy run in
      let (t, first, rest) =
        bind_inv (session lwip paho storage string x s) (sessions lwip paho storage string xs) u
          run' in
      elim (Bool-cases t.setup.network_done) [
        | inl done ↦
            let same = sessions-done xs t u done rest in
            subst (λ v. IsConnected v) same
              (session-IsConnected x s t first done (ap (λ v. v.setup.use_wifi) same ∙ wifi))
        | inr going ↦ sessions-IsConnected xs t u going rest wifi
      ]
