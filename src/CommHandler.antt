-- ===== src/CommHandler.antt =====
-- `CommHandler`, `message_arrived` and the two settings of src/commhandler.h and commhandler.cpp.
-- The MQTT client, the IP stack behind it and rapidjson are the parameters.
pub mod Topics
pub mod Settings
mod Tests
use Prim.Native.String.{String}
use ventilation_system_proje.Common.{ℕ, Bool, true, false, not, ◌==◌, if◌then◌else◌}
use ventilation_system_proje.Common.Int.{ℤ, pos, negsuc}

pub data TopicType : Type 0 where
  data_topic control_topic other_topic log_send status_send : TopicType

abbrev pub same_type : TopicType → TopicType → Bool
same_type data_topic data_topic = true
same_type control_topic control_topic = true
same_type other_topic other_topic = true
same_type log_send log_send = true
same_type status_send status_send = true
same_type _ _ = false

-- The name of a topic, and whether it is subscribed to (1) or not (0).
pub record Topic : Type 0 where
  pub name : String
  pub subscribed : ℕ

-- The calls of the client give a return code, 0 for success. `publish` takes the topic, the
-- payload, which goes out with its terminating zero, unretained and at quality of service 0;
-- `subscribe` asks for quality of service 2 and for `message_arrived`.
pub record Client : Type 1 where
  pub World : Type 0
  pub tcp_connect : String → ℕ → World → ℤ × World
  pub connect : World → ℤ × World
  pub subscribe : String → World → ℤ × World
  pub unsubscribe : String → World → ℤ × World
  pub publish : String → String → World → ℤ × World
  pub is_connected : World → Bool

-- `topics` has all five types, so that `at` never fails.
abbrev pub Topics : Type 0
Topics = TopicType → Topic

abbrev pub initial_topics : Topics
initial_topics data_topic = record { name = "vent/controller/status"; subscribed = 0 }
initial_topics control_topic = record { name = "vent/controller/settings"; subscribed = 0 }
initial_topics other_topic = record { name = "other"; subscribed = 0 }
initial_topics log_send = record { name = "loghandler/logMessages"; subscribed = 0 }
initial_topics status_send = record { name = "loghandler/piStatusMessages"; subscribed = 0 }

abbrev pub with_topic : TopicType → Topic → Topics → Topics
with_topic t v topics u = if same_type u t then v else topics u

abbrev pub is_zero : ℤ → Bool
is_zero (pos n) = n == 0
is_zero (negsuc n) = false

module _ (client : Client) where
  open client use {World}

  abbrev pub connect_to_server : String → ℕ → World → ℤ × World
  connect_to_server hostname port w = client.tcp_connect hostname port w

  abbrev pub connect_to_broker : World → ℤ × World
  connect_to_broker w = client.connect w

  abbrev pub reconnect : World → ℤ × World
  reconnect w = client.connect w

  abbrev pub verify_connection : World → Bool
  verify_connection w = client.is_connected w

  abbrev pub set_topic : TopicType → String → Topics → Topics
  set_topic t new_topic topics = with_topic t (record (topics t) { name = new_topic }) topics

  abbrev pub is_subscribed : TopicType → Topics → Bool
  is_subscribed t topics = not ((topics t).subscribed == 0)

  unfoldable pub unsubscribe : TopicType → Topics → World → ℤ × Topics × World
  unsubscribe t topics w =
      let (return_code, w') = client.unsubscribe (topics t).name w in
      if (topics t).subscribed == 0
      then (pos 0, topics, w)
      else if is_zero return_code
      then (return_code, with_topic t (record (topics t) { subscribed = 0 }) topics, w')
      else (return_code, topics, w')

  -- The part of `subscribe` behind the test for an old subscription. The name is set if the
  -- pointers differ; what is stored is the same in both cases.
  unfoldable pub subscribe_new : TopicType → String → Topics → World → ℤ × Topics × World
  subscribe_new t topic topics w =
      let topics1 = set_topic t topic topics in
      let (return_code, w') = client.subscribe topic w in
      if is_zero return_code
      then (return_code, with_topic t (record (topics1 t) { subscribed = 1 }) topics1, w')
      else (return_code, topics1, w')

  -- `subscribe` behind the unsubscription from an old topic.
  unfoldable pub subscribe_again : TopicType → String → ℤ → Topics → World → ℤ × Topics × World
  unfolding subscribe_new
  subscribe_again t topic failed topics w =
      if is_zero failed then subscribe_new t topic topics w else (negsuc 1, topics, w)

  unfoldable pub subscribe : TopicType → String → Topics → World → ℤ × Topics × World
  unfolding unsubscribe subscribe_new subscribe_again
  subscribe t topic topics w =
      let old = unsubscribe t topics w in
      if is_subscribed t topics
      then subscribe_again t topic old.0 old.1 old.2
      else subscribe_new t topic topics w

  -- `subscribe` with the name that is stored.
  unfoldable pub subscribe_stored : TopicType → Topics → World → ℤ × Topics × World
  unfolding subscribe
  subscribe_stored t topics w = subscribe t (topics t).name topics w

  unfoldable pub publish : TopicType → String → Topics → World → ℤ × World
  publish t payload topics w = client.publish (topics t).name payload w
