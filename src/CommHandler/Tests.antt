-- ===== src/CommHandler/Tests.antt =====
-- The theorems of the communication handler over a client that accepts all.
use ventilation_system_proje.Common.{ℕ, ◌+◌, true}
use ventilation_system_proje.Common.Int.{pos}
use ventilation_system_proje.CommHandler.{Client, initial_topics, control_topic, subscribe}
use ventilation_system_proje.CommHandler.Topics.{Outcome, subscribe_lem}

abbrev broker : Client
broker = record {
  World = ℕ;
  tcp_connect = λ _ _ w. (pos 0, w + 1);
  connect = λ w. (pos 0, w + 1);
  subscribe = λ _ w. (pos 0, w + 1);
  unsubscribe = λ _ w. (pos 0, w + 1);
  publish = λ _ _ w. (pos 0, w + 1);
  is_connected = λ _. true;
}

subscribe_lem_example :
    let out = subscribe broker control_topic "vent" initial_topics 0 in
    Outcome control_topic "vent" initial_topics out.0 out.1
subscribe_lem_example = subscribe_lem broker control_topic "vent" initial_topics 0
