-- ===== src/Tests/Stores.antt =====
-- The theorems on the Pub/Sub store and its REST service (internal/grpcsvc/pubsub/pubsub.go,
-- internal/service/pubsub/pubsub.go) at concrete inputs.
use mathlib.Core.List.{Perm}
use kiri_gcp.Pubsub.{ReceivedMessage}
use kiri_gcp.Prelude.{none, inl, ◌≡◌, refl, ◌≢◌, ◌⊎◌, ◌↔◌, arith, some, List, [], ◌∷◌, map, Elem}
use kiri_gcp.Text.{Text, str, text_eq}
use kiri_gcp.GoMap.{get, put}
use kiri_gcp.Http.{Request, blank, id, hex_encode}
use kiri_gcp.Pubsub.{
  messages_of, ids_of, assign_ids, publish, receive, pulled, panics, pull, acknowledge, new_backend,
  create_topic, create_subscription,
}
use kiri_gcp.Pubsub.Delivery.{pull-perm}
use kiri_gcp.Pubsub.Delivery.Once.{after_pull, pull-publish-pull}
use kiri_gcp.Pubsub.Drain.{ack_ids, acknowledge-receive}
use kiri_gcp.Pubsub.Sound.{
  step, Call, publishing, creating_topic, creating_subscription, pulling, run, IsSound, run-IsSound,
  pull-ne-panics,
}
use kiri_gcp.Pubsub.Marks.{pull-run_once}
use kiri_gcp.Pubsub.Rest.{sub_action}
use kiri_gcp.Pubsub.Rest.Calls.{
  Endpoint, post_topics, post_subs, post_sub_at, handler_of, call_of, perform, handler_of-perform,
}
use kiri_gcp.Pubsub.Rest.Refinement.{serve, sub_action_answers}
use kiri_gcp.Tests.Samples.{
  two_messages, no_type_error, counting, text_message, orders, billing, store, request, body,
}

orders_of_billing : get billing store.subscriptions ≡ some orders
unfolding get text_eq str
orders_of_billing = refl

pull-publish-pull_example :
    (pull billing (publish counting orders two_messages (after_pull billing store)).0).1
    ≡ pulled (map receive (assign_ids counting 0 two_messages))
unfolding get put text_eq str assign_ids id hex_encode pull
pull-publish-pull_example =
    pull-publish-pull counting billing orders [] two_messages store refl refl (refl, (refl, tt))
      ((λ e. ground arith), ((λ e. absurd e), tt))

pull-perm_example : Perm (messages_of orders (pull billing store).0) (messages_of orders store)
pull-perm_example = pull-perm billing orders store

-- The message that the topic has left after its only message was acknowledged.
acknowledge-receive_example :
    Elem
      (text_message [])
      (messages_of orders (acknowledge billing (ack_ids (messages_of orders store)) store).0)
    ↔ (Elem (text_message []) (messages_of orders store)
        × (¬ Elem (text_message []).message_id (ids_of (messages_of orders store))))
unfolding get text_eq str
acknowledge-receive_example =
    acknowledge-receive billing orders (messages_of orders store) (text_message []) store
      orders_of_billing (omega arith, tt)

abbrev calls : List Call
calls =
    creating_topic orders
    ∷ creating_subscription billing orders
    ∷ publishing counting orders two_messages
    ∷ pulling billing
    ∷ []

run-IsSound_example : IsSound (run calls new_backend)
run-IsSound_example = run-IsSound calls

pull-ne-panics_example : (pull billing (run calls new_backend)).1 ≢ panics
pull-ne-panics_example = pull-ne-panics calls billing

handler_of-perform_example :
    (handler_of no_type_error post_sub_at (request (str "billing:pull") blank) store).0
    ≡ perform (call_of no_type_error post_sub_at (request (str "billing:pull") blank)) store
handler_of-perform_example =
    handler_of-perform no_type_error post_sub_at (request (str "billing:pull") blank) store

abbrev requests : List (Endpoint × Request)
requests =
    (post_topics, request (str "orders") body) ∷ (post_subs, request (str "billing") body) ∷ []

sub_action_answers_example :
    ((sub_action
        (request (str "billing:pull") blank)
        (serve no_type_error requests new_backend)).1.status
      ≡ 200)
    ⊎ ((sub_action
          (request (str "billing:pull") blank)
          (serve no_type_error requests new_backend)).1.status
        ≡ 404)
sub_action_answers_example =
    sub_action_answers no_type_error requests (request (str "billing:pull") blank)

same_topics :
    (t : Text)
    → get t (run calls new_backend).topics
      ≡ get t (run (creating_topic orders ∷ []) new_backend).topics
unfolding run step get create_topic pull put publish new_backend create_subscription text_eq str
same_topics t = refl

abbrev old_message : ReceivedMessage
old_message = receive (record { content = str "old"; attributes = none; message_id = str "0c" })

abbrev new_message : ReceivedMessage
new_message =
    receive (record { content = str "first"; attributes = none; message_id = id (counting 0) })

pull-run_once_example : str "0c" ≢ id (counting 0)
unfolding get put text_eq str assign_ids id hex_encode pull publish step run
pull-run_once_example =
    pull-run_once billing store (publishing counting orders two_messages ∷ []) old_message
      new_message (inl refl) (inl refl)
