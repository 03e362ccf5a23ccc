-- ===== src/Pubsub/Rest.antt =====
-- internal/service/pubsub/pubsub.go: the REST handlers over the shared store.
pub mod Calls
pub mod Refinement
use mathlib.Core.Option
use kiri_gcp.Prelude.{
  ℕ, is_some, Bool, true, false, not, ◌||◌, Option, none, some, List, [], ◌∷◌, ◌++◌, map,
  if◌then◌else◌,
}
use kiri_gcp.Text.{Text, str, text_eq, to_lower}
use kiri_gcp.GoMap.{GoMap, put}
use kiri_gcp.Sort.{sort_strings}
use kiri_gcp.Json.{
  Json, null, string, array, object, Items, nil, cons, Fields, end, field, list_of, object_of,
  string_field,
}
use kiri_gcp.Http.{
  Payload, valid, Request, Response, write_ok, bad_request, already_exists, not_found, Unmarshalled,
  value, mismatch, Decoded, failed, unchanged, decoded, decode_json, split_verb,
}
use kiri_gcp.Service.{Handler, Route, Service, dash, fidelity_a, state_integrated}
use kiri_gcp.Pubsub.Bodies.{body_string, body_ack_ids, unmarshal_publish}
use kiri_gcp.Pubsub.{
  Message, ReceivedMessage, Backend, publish, create_topic, get_topic, delete_topic, list_topics,
  create_subscription, get_subscription, delete_subscription, list_subscriptions, PullResult,
  no_subscription, panics, pulled, pull, acknowledge,
}

abbrev name_object : Text → Json
name_object name = object_of ((str "name", string name) ∷ [])

abbrev subscription_object : Text → Text → Json
subscription_object name topic =
    object_of ((str "name", string name) ∷ (str "topic", string topic) ∷ [])

abbrev pub topic_name : Request → Text → Text
topic_name r topic = str "projects/" ++ (r.path_value (str "project") ++ (str "/topics/" ++ topic))

abbrev pub subscription_name : Request → Text → Text
subscription_name r sub =
    str "projects/" ++ (r.path_value (str "project") ++ (str "/subscriptions/" ++ sub))

unfoldable pub create_topic_handler : Handler Backend
create_topic_handler r b =
    let topic = body_string (str "topicId") r.payload in
    let name = topic_name r topic in
    if text_eq topic []
    then (b, bad_request (str "topicId is required"))
    else if get_topic name b
    then (b, already_exists (str "topic already exists: " ++ name))
    else (create_topic name b, write_ok (name_object name))

unfoldable pub list_topics_handler : Handler Backend
list_topics_handler r b =
    let names = sort_strings (list_topics (r.path_value (str "project")) b) in
    (b, write_ok (object_of ((str "topics", list_of (map name_object names)) ∷ [])))

unfoldable pub get_topic_handler : Handler Backend
get_topic_handler r b =
    let name = topic_name r (r.path_value (str "topic")) in
    if get_topic name b
    then (b, write_ok (name_object name))
    else (b, not_found (str "topic not found: " ++ name))

unfoldable pub delete_topic_handler : Handler Backend
delete_topic_handler r b =
    let name = topic_name r (r.path_value (str "topic")) in
    let (b', found) = delete_topic name b in
    if found
    then (b', write_ok (object_of []))
    else (b', not_found (str "topic not found: " ++ name))

unfoldable pub create_subscription_handler : Handler Backend
create_subscription_handler r b =
    let topic = body_string (str "topic") r.payload in
    let sub = body_string (str "subscriptionId") r.payload in
    let name = subscription_name r sub in
    if text_eq sub [] || text_eq topic []
    then (b, bad_request (str "topic and subscriptionId are required"))
    else if not (get_topic topic b)
    then (b, not_found (str "topic not found: " ++ topic))
    else if is_some (get_subscription name b)
    then (b, already_exists (str "subscription already exists: " ++ name))
    else (create_subscription name topic b, write_ok (subscription_object name topic))

-- topic, _ := GetSubscription(n): the empty string where there is none.
abbrev or_blank : Option Text → Text
or_blank none = []
or_blank (some t) = t

unfoldable pub list_subscriptions_handler : Handler Backend
list_subscriptions_handler r b =
    let names = sort_strings (list_subscriptions (r.path_value (str "project")) b) in
    let items = map (λ n. subscription_object n (or_blank (get_subscription n b))) names in
    (b, write_ok (object_of ((str "subscriptions", list_of items) ∷ [])))

answer_subscription : Text → Option Text → Response
answer_subscription name none = not_found (str "subscription not found: " ++ name)
answer_subscription name (some topic) = write_ok (subscription_object name topic)

unfoldable pub get_subscription_handler : Handler Backend
unfolding answer_subscription
get_subscription_handler r b =
    let name = subscription_name r (r.path_value (str "sub")) in
    (b, answer_subscription name (get_subscription name b))

unfoldable pub delete_subscription_handler : Handler Backend
delete_subscription_handler r b =
    let name = subscription_name r (r.path_value (str "sub")) in
    let (b', found) = delete_subscription name b in
    if found
    then (b', write_ok (object_of []))
    else (b', not_found (str "subscription not found: " ++ name))

abbrev attributes_json : Option (GoMap Text) → Json
attributes_json none = null
attributes_json (some m) = object_of (map (λ e. (e.0, string e.1)) m)

abbrev received_json : ReceivedMessage → Json
received_json m = object_of (
    (str "ackId", string m.ack_id)
    ∷ (
      str "message",
      object_of (
          (str "messageId", string m.message.message_id)
          ∷ (str "data", string m.message.content)
          ∷ (str "attributes", attributes_json m.message.attributes)
          ∷ []),
    )
    ∷ [])

-- net/http recovers a panic of a handler and closes the connection: no response is written.
abbrev pub aborted : Response
aborted = record { status = 0; content_type = []; body = none }

unfoldable pub answer_pull : Text → PullResult → Response
answer_pull name no_subscription = not_found (str "subscription not found: " ++ name)
answer_pull name panics = aborted
answer_pull name (pulled ms) =
    write_ok (object_of ((str "receivedMessages", list_of (map received_json ms)) ∷ []))

unfoldable pub pull_handler : Text → Backend → Backend × Response
unfolding answer_pull
pull_handler name b = let (b', result) = pull name b in (b', answer_pull name result)

unfoldable pub acknowledge_handler : Request → Text → Backend → Backend × Response
unfolding body_ack_ids
acknowledge_handler r name b =
    let (b', found) = acknowledge name (body_ack_ids r.payload) b in
    if found
    then (b', write_ok (object_of []))
    else (b', not_found (str "subscription not found: " ++ name))

unfoldable pub sub_action : Handler Backend
unfolding pull_handler acknowledge_handler
sub_action r b =
    let (sub, verb) = split_verb (r.path_value (str "sub")) in
    let name = subscription_name r sub in
    if text_eq verb (str "pull")
    then pull_handler name b
    else if text_eq verb (str "acknowledge")
    then acknowledge_handler r name b
    else (b, not_found (str "unknown method: " ++ verb))

unfoldable pub publish_messages : Request → Text → List Message → Backend → Backend × Response
publish_messages r name ms b =
    let (b', ids) = publish r.random name ms b in
    if get_topic name b
    then (b', write_ok (object_of ((str "messageIds", list_of (map string ids)) ∷ [])))
    else (b, not_found (str "topic not found: " ++ name))

module _ (type_error : Json → Text) where
  publish_decoded : Request → Text → Decoded (List Message) → Backend → Backend × Response
  unfolding publish_messages
  publish_decoded r name (failed e) b = (b, bad_request e)
  publish_decoded r name unchanged b = publish_messages r name [] b
  publish_decoded r name (decoded ms) b = publish_messages r name ms b

  unfoldable pub topic_action : Handler Backend
  unfolding publish_decoded
  topic_action r b =
      let (topic, verb) = split_verb (r.path_value (str "topic")) in
      if text_eq verb (str "publish")
      then publish_decoded r (topic_name r topic)
          (decode_json (unmarshal_publish type_error) r.payload) b
      else (b, not_found (str "unknown method: " ++ verb))

  unfoldable pub routes : List (Route (Handler Backend))
  routes =
      let topics = str "/v1/projects/{project}/topics" in
      let topic = str "/v1/projects/{project}/topics/{topic}" in
      let subs = str "/v1/projects/{project}/subscriptions" in
      let sub = str "/v1/projects/{project}/subscriptions/{sub}" in
      record { method = str "POST"; pattern = topics; handler = create_topic_handler }
      ∷ record { method = str "GET"; pattern = topics; handler = list_topics_handler }
      ∷ record { method = str "GET"; pattern = topic; handler = get_topic_handler }
      ∷ record { method = str "DELETE"; pattern = topic; handler = delete_topic_handler }
      ∷ record { method = str "POST"; pattern = topic; handler = topic_action }
      ∷ record { method = str "POST"; pattern = subs; handler = create_subscription_handler }
      ∷ record { method = str "GET"; pattern = subs; handler = list_subscriptions_handler }
      ∷ record { method = str "GET"; pattern = sub; handler = get_subscription_handler }
      ∷ record { method = str "DELETE"; pattern = sub; handler = delete_subscription_handler }
      ∷ record { method = str "POST"; pattern = sub; handler = sub_action }
      ∷ []

  unfoldable pub pubsub_service : Service (Handler Backend)
  unfolding routes
  pubsub_service = record {
    name = str "pubsub";
    meta = some (record {
      display = str "Pub/Sub";
      category = str "Messaging & Integration";
      description =
          str "Topics, subscriptions, publish/pull/acknowledge "
          ++ (dash ++ str " REST and gRPC share one backend");
      fidelity = fidelity_a;
      state = state_integrated;
    });
    routes = routes;
  }

-- Publish, for the publishers of other services: nothing where the topic is unknown.
unfoldable pub publish_known :
    (ℕ → List ℕ) → Text → List (Text × Option (GoMap Text)) → Backend → Backend × List Text
publish_known random topic ms b =
    let given = map (λ m. record { content = m.0; attributes = m.1; message_id = [] }) ms in
    let sent = publish random topic given b in if get_topic topic b then sent else (b, [])
