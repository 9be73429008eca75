-- ===== src/CommHandler/Topics.antt =====
-- What subscribing and unsubscribing make of the topics.
use Prim.Native.String.{String}
use ventilation_system_proje.Common.{
  ◌≡◌, refl, sym, ◌∙◌, ◌⊎◌, inl, inr, true, false, not, ◌==◌, if◌then◌else◌, ==_iff, Bool-cases,
  ==_ne,
}
use ventilation_system_proje.Common.Int.{ℤ}
use ventilation_system_proje.CommHandler.{
  Client, TopicType, Topics, data_topic, control_topic, other_topic, log_send, status_send,
  same_type, is_zero, unsubscribe, subscribe_again, subscribe, subscribe_new,
}

same_type_self : (t : TopicType) → same_type t t ≡ true
same_type_self data_topic = refl
same_type_self control_topic = refl
same_type_self other_topic = refl
same_type_self log_send = refl
same_type_self status_send = refl

true_not_false : true ≡ false → ⊥
true_not_false e = absurd (==_ne 0 0 e refl)

-- The topics apart from one.
abbrev pub Elsewhere : TopicType → Topics → Topics → Type 0
Elsewhere t topics topics' = (u : TopicType) → same_type u t ≡ false → topics' u ≡ topics u

-- What a call for a topic leaves, with its return code.
pub record Outcome (t : TopicType) (topic : String) (topics : Topics) (code : ℤ) (topics' : Topics)
    : Type 0 where
  pub done : is_zero code ≡ true → ((topics' t).name ≡ topic) × ((topics' t).subscribed ≡ 1)
  pub failed : is_zero code ≡ false → ((topics' t).subscribed ≡ 0) ⊎ (topics' ≡ topics)
  pub others : Elsewhere t topics topics'

module _ (client : Client) where
  open client use {World}

  new_lem :
      (t : TopicType) (topic : String) (topics before : Topics) (w : World)
      → (topics t).subscribed ≡ 0
      → Elsewhere t before topics
      → let out = subscribe_new client t topic topics w in Outcome t topic before out.0 out.1
  unfolding subscribe_new
  new_lem t topic topics before w none_yet same =
      elim (Bool-cases (is_zero (client.subscribe topic w).0)) [
        | inl ok ↦ rw (ok) (record {
          done = λ _. rw (same_type_self t) (refl, refl);
          failed = λ bad. absurd (true_not_false (sym ok ∙ bad));
          others = λ u other. rw (other) (same u other);
        })
        | inr bad ↦ rw (bad) (record {
          done = λ ok. absurd (true_not_false (sym ok ∙ bad));
          failed = λ _. inl (rw (same_type_self t) none_yet);
          others = λ u other. rw (other) (same u other);
        })
      ]

  -- With the code 0 `unsubscribe` leaves the topic under its name and not subscribed, with another
  -- code it changes nothing, and it leaves the other topics as they are in any case.
  pub unsubscribe_lem :
      (t : TopicType) (topics : Topics) (w : World)
      → let out = unsubscribe client t topics w in
        (is_zero out.0 ≡ true → ((out.1 t).subscribed ≡ 0) × ((out.1 t).name ≡ (topics t).name))
        × (is_zero out.0 ≡ false → out.1 ≡ topics)
        × Elsewhere t topics out.1
  unfolding unsubscribe
  unsubscribe_lem t topics w = elim (Bool-cases ((topics t).subscribed == 0)) [
    | inl never ↦
        rw (never)
          ((λ _. ((==_iff (topics t).subscribed 0).0 never, refl)), (λ _. refl), (λ u other. refl))
    | inr there ↦ elim (Bool-cases (is_zero (client.unsubscribe (topics t).name w).0)) [
      | inl ok ↦
          rw (there, ok)
            (
              (λ _. rw (same_type_self t) (refl, refl)),
              (λ bad. absurd (true_not_false (sym ok ∙ bad))),
              (λ u other. rw (other) refl),
            )
      | inr bad ↦
          rw (there, bad)
            ((λ ok. absurd (true_not_false (sym ok ∙ bad))), (λ _. refl), (λ u other. refl))
    ]
  ]

  again_lem :
      (t : TopicType) (topic : String) (topics topics1 : Topics) (failed : ℤ) (w : World)
      → (is_zero failed ≡ true → (topics1 t).subscribed ≡ 0)
      → (is_zero failed ≡ false → topics1 ≡ topics)
      → Elsewhere t topics topics1
      → let out = subscribe_again client t topic failed topics1 w in
        Outcome t topic topics out.0 out.1
  unfolding subscribe_again
  again_lem t topic topics topics1 failed w off kept same = elim (Bool-cases (is_zero failed)) [
    | inl ok ↦ rw (ok) (new_lem t topic topics1 topics w (off ok) same)
    | inr bad ↦ rw (bad) (record {
      done = λ ok. absurd (true_not_false (sym ok));
      failed = λ _. inr (kept bad);
      others = same;
    })
  ]

  subscribe-if :
      (t : TopicType) (topic : String) (topics : Topics) (w : World)
      → let old = unsubscribe client t topics w in
        subscribe client t topic topics w ≡ (
          if not ((topics t).subscribed == 0)
          then subscribe_again client t topic old.0 old.1 old.2
          else subscribe_new client t topic topics w)
  unfolding subscribe unsubscribe subscribe_new subscribe_again
  subscribe-if t topic topics w = refl

  -- With the code 0 `subscribe` leaves the topic under the new name and subscribed; with another
  -- code it leaves it not subscribed, or changes nothing; it leaves the other topics as they are
  -- in any case.
  pub subscribe_lem :
      (t : TopicType) (topic : String) (topics : Topics) (w : World)
      → let out = subscribe client t topic topics w in Outcome t topic topics out.0 out.1
  subscribe_lem t topic topics w =
      let un = unsubscribe_lem t topics w in
      let old = unsubscribe client t topics w in
      rw (subscribe-if t topic topics w) (elim (Bool-cases ((topics t).subscribed == 0)) [
        | inl never ↦ rw (never) (
            new_lem t topic topics topics w ((==_iff (topics t).subscribed 0).0 never)
              (λ u other. refl))
        | inr there ↦
            rw (there) (again_lem t topic topics old.1 old.0 old.2 (λ ok. (un.0 ok).0) un.1 un.2)
      ])
