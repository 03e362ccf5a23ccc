-- ===== src/Pubsub/Rest/Calls.antt =====
-- What the REST requests of internal/service/pubsub/pubsub.go ask of the store, and what they do to
-- it.
use kiri_gcp.Prelude.{
  ◌≡◌, refl, Option, none, some, not, ◌&&◌, inl, inr, Bool, true, List, [], arith, if◌then◌else◌,
  Bool-cases, is_some, ◌||◌,
}
use kiri_gcp.Text.{Text, str, text_eq}
use kiri_gcp.Json.{Json}
use kiri_gcp.Http.{Request, Decoded, failed, unchanged, decoded, decode_json, split_verb}
use kiri_gcp.Service.{Handler}
use kiri_gcp.Pubsub.{
  Message, Backend, get_topic, delete_topic, get_subscription, delete_subscription, acknowledge,
}
use kiri_gcp.Pubsub.Bodies.{body_string, body_ack_ids, unmarshal_publish}
use kiri_gcp.Pubsub.Sound.{
  Call, publishing, creating_topic, deleting_topic, creating_subscription, deleting_subscription,
  pulling, acknowledging, step,
}
use kiri_gcp.Pubsub.Rest.{
  topic_name, subscription_name, create_topic_handler, list_topics_handler, get_topic_handler,
  delete_topic_handler, create_subscription_handler, list_subscriptions_handler,
  get_subscription_handler, delete_subscription_handler, pull_handler, acknowledge_handler,
  sub_action, publish_messages, publish_decoded, topic_action,
}

-- The handlers of RegisterRoutes.
pub data Endpoint : Type 0 where
  post_topics get_topics get_topic_at delete_topic_at post_topic_at : Endpoint
  post_subs get_subs get_sub_at delete_sub_at post_sub_at : Endpoint

pub handler_of : (Json → Text) → Endpoint → Handler Backend
handler_of type_error post_topics = create_topic_handler
handler_of type_error get_topics = list_topics_handler
handler_of type_error get_topic_at = get_topic_handler
handler_of type_error delete_topic_at = delete_topic_handler
handler_of type_error post_topic_at = topic_action type_error
handler_of type_error post_subs = create_subscription_handler
handler_of type_error get_subs = list_subscriptions_handler
handler_of type_error get_sub_at = get_subscription_handler
handler_of type_error delete_sub_at = delete_subscription_handler
handler_of type_error post_sub_at = sub_action

-- The call that a request asks for, if its path, its method and its body are in order. A GET asks for
-- none.
publishing_all : Request → Text → Decoded (List Message) → Option Call
publishing_all r topic (failed e) = none
publishing_all r topic unchanged = some (publishing r.random topic [])
publishing_all r topic (decoded ms) = some (publishing r.random topic ms)

pub call_of : (Json → Text) → Endpoint → Request → Option Call
call_of type_error post_topics r =
    let topic = body_string (str "topicId") r.payload in
    if text_eq topic [] then none else some (creating_topic (topic_name r topic))
call_of type_error get_topics r = none
call_of type_error get_topic_at r = none
call_of type_error delete_topic_at r =
    some (deleting_topic (topic_name r (r.path_value (str "topic"))))
call_of type_error post_topic_at r =
    let (topic, verb) = split_verb (r.path_value (str "topic")) in
    if text_eq verb (str "publish")
    then publishing_all r (topic_name r topic)
        (decode_json (unmarshal_publish type_error) r.payload)
    else none
call_of type_error post_subs r =
    let topic = body_string (str "topic") r.payload in
    let sub = body_string (str "subscriptionId") r.payload in
    if text_eq sub [] || text_eq topic []
    then none
    else some (creating_subscription (subscription_name r sub) topic)
call_of type_error get_subs r = none
call_of type_error get_sub_at r = none
call_of type_error delete_sub_at r =
    some (deleting_subscription (subscription_name r (r.path_value (str "sub"))))
call_of type_error post_sub_at r =
    let (sub, verb) = split_verb (r.path_value (str "sub")) in
    if text_eq verb (str "pull")
    then some (pulling (subscription_name r sub))
    else if text_eq verb (str "acknowledge")
    then some (acknowledging (subscription_name r sub) (body_ack_ids r.payload))
    else none

-- Where the store lets the call through: a topic and a subscription are made once, a subscription is
-- made to a topic that is there, and messages go to a topic that is there.
pub allows : Backend → Call → Bool
allows b (publishing random topic ms) = get_topic topic b
allows b (creating_topic name) = not (get_topic name b)
allows b (deleting_topic name) = true
allows b (creating_subscription name topic) =
    get_topic topic b && not (is_some (get_subscription name b))
allows b (deleting_subscription name) = true
allows b (pulling subscription) = true
allows b (acknowledging subscription acks) = true

unfoldable pub perform : Option Call → Backend → Backend
perform none b = b
perform (some call) b = if allows b call then step call b else b

create_topic_performed :
    (type_error : Json → Text) (r : Request) (b : Backend)
    → (create_topic_handler r b).0 ≡ perform (call_of type_error post_topics r) b
unfolding create_topic_handler call_of perform allows step
create_topic_performed type_error r b =
    let topic = body_string (str "topicId") r.payload in
    elim (Bool-cases (text_eq topic [])) [
      | inl e ↦ rw e refl
      | inr e ↦ rw e (elim (Bool-cases (get_topic (topic_name r topic) b)) [
        | inl f ↦ rw f refl
        | inr f ↦ rw f refl
      ])
    ]

create_subscription_performed :
    (type_error : Json → Text) (r : Request) (b : Backend)
    → (create_subscription_handler r b).0 ≡ perform (call_of type_error post_subs r) b
unfolding create_subscription_handler call_of perform allows step
create_subscription_performed type_error r b =
    let topic = body_string (str "topic") r.payload in
    let sub = body_string (str "subscriptionId") r.payload in
    elim (Bool-cases (text_eq sub [] || text_eq topic [])) [
      | inl e ↦ rw e refl
      | inr e ↦ rw e (elim (Bool-cases (get_topic topic b)) [
        | inr f ↦ rw f refl
        | inl f ↦ rw f (elim (Bool-cases (is_some (get_subscription (subscription_name r sub) b))) [
          | inl g ↦ rw g refl
          | inr g ↦ rw g refl
        ])
      ])
    ]

acknowledge_performed :
    (r : Request) (name : Text) (b : Backend)
    → (acknowledge_handler r name b).0
      ≡ perform (some (acknowledging name (body_ack_ids r.payload))) b
unfolding acknowledge_handler perform allows step
acknowledge_performed r name b = elim (Bool-cases (acknowledge name (body_ack_ids r.payload) b).1) [
  | inl e ↦ rw e refl
  | inr e ↦ rw e refl
]

sub_action_performed :
    (type_error : Json → Text) (r : Request) (b : Backend)
    → (sub_action r b).0 ≡ perform (call_of type_error post_sub_at r) b
unfolding sub_action call_of
sub_action_performed type_error r b =
    let (sub, verb) = split_verb (r.path_value (str "sub")) in
    elim (Bool-cases (text_eq verb (str "pull"))) [
      | inl e ↦ rw e (unfold pull_handler perform allows step in refl)
      | inr e ↦ rw e (elim (Bool-cases (text_eq verb (str "acknowledge"))) [
        | inl f ↦ rw f (acknowledge_performed r (subscription_name r sub) b)
        | inr f ↦ rw f (unfold perform in refl)
      ])
    ]

publish_messages_performed :
    (r : Request) (name : Text) (ms : List Message) (b : Backend)
    → (publish_messages r name ms b).0 ≡ perform (some (publishing r.random name ms)) b
unfolding publish_messages perform allows step
publish_messages_performed r name ms b = elim (Bool-cases (get_topic name b)) [
  | inl e ↦ rw e refl
  | inr e ↦ rw e refl
]

module _ (type_error : Json → Text) where
  publish_decoded_performed :
      (r : Request) (name : Text) (d : Decoded (List Message)) (b : Backend)
      → (publish_decoded type_error r name d b).0 ≡ perform (publishing_all r name d) b
  unfolding publish_decoded publishing_all
  publish_decoded_performed r name (failed e) b = (unfold perform in refl)
  publish_decoded_performed r name unchanged b = publish_messages_performed r name [] b
  publish_decoded_performed r name (decoded ms) b = publish_messages_performed r name ms b

  topic_action_performed :
      (r : Request) (b : Backend)
      → (topic_action type_error r b).0 ≡ perform (call_of type_error post_topic_at r) b
  unfolding topic_action call_of
  topic_action_performed r b =
      let (topic, verb) = split_verb (r.path_value (str "topic")) in
      elim (Bool-cases (text_eq verb (str "publish"))) [
        | inl e ↦ rw e (
            publish_decoded_performed r (topic_name r topic)
              (decode_json (unmarshal_publish type_error) r.payload) b)
        | inr e ↦ rw e (unfold perform in refl)
      ]

  get_topic_performed : (r : Request) (b : Backend) → (get_topic_handler r b).0 ≡ b
  unfolding get_topic_handler
  get_topic_performed r b = ground arith

  delete_topic_performed :
      (r : Request) (b : Backend)
      → (delete_topic_handler r b).0 ≡ perform (call_of type_error delete_topic_at r) b
  unfolding delete_topic_handler call_of perform allows step
  delete_topic_performed r b =
      let name = topic_name r (r.path_value (str "topic")) in
      elim (Bool-cases (delete_topic name b).1) [ inl e ↦ rw e refl | inr e ↦ rw e refl ]

  delete_subscription_performed :
      (r : Request) (b : Backend)
      → (delete_subscription_handler r b).0 ≡ perform (call_of type_error delete_sub_at r) b
  unfolding delete_subscription_handler call_of perform allows step
  delete_subscription_performed r b =
      let name = subscription_name r (r.path_value (str "sub")) in
      elim (Bool-cases (delete_subscription name b).1) [ inl e ↦ rw e refl | inr e ↦ rw e refl ]

  -- A REST request that nothing comes in between of makes the call of the store that it asks for,
  -- with the names of its path and body, where the store allows it, and else leaves the store as it
  -- was. A GET, an unknown custom method, and a request without the fields that it needs ask for none.
  -- A topic or a subscription is made only where it is not there; a subscription is made, and messages
  -- are published, only where their topic is there.
  pub handler_of-perform :
      (e : Endpoint) (r : Request) (b : Backend)
      → (handler_of type_error e r b).0 ≡ perform (call_of type_error e r) b
  unfolding handler_of call_of perform
  handler_of-perform post_topics r b =
      unfold call_of perform in create_topic_performed type_error r b
  handler_of-perform get_topics r b = unfold list_topics_handler in refl
  handler_of-perform get_topic_at r b = get_topic_performed r b
  handler_of-perform delete_topic_at r b = unfold call_of perform in delete_topic_performed r b
  handler_of-perform post_topic_at r b = unfold call_of perform in topic_action_performed r b
  handler_of-perform post_subs r b =
      unfold call_of perform in create_subscription_performed type_error r b
  handler_of-perform get_subs r b = unfold list_subscriptions_handler in refl
  handler_of-perform get_sub_at r b = unfold get_subscription_handler in refl
  handler_of-perform delete_sub_at r b = unfold call_of perform in delete_subscription_performed r b
  handler_of-perform post_sub_at r b = unfold call_of perform in sub_action_performed type_error r b
