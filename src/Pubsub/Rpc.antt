-- ===== src/Pubsub/Rpc.antt =====
-- The gRPC services Publisher and Subscriber of internal/grpcsvc/pubsub/pubsub.go, over the shared
-- store. A request is what the handler has after decoding; the interceptor around a handler logs,
-- and passes on what the handler returns.
pub mod Requests
use kiri_gcp.Prelude.{
  ℕ, Bool, true, false, ◌&&◌, Option, none, some, List, [], ◌∷◌, ◌++◌, if◌then◌else◌, ltb, length,
  drop,
}
use kiri_gcp.Text.{Text, str, has_prefix}
use kiri_gcp.Pubsub.{
  Message, ReceivedMessage, Backend, publish, create_topic, get_topic, delete_topic, list_topics,
  create_subscription, get_subscription, delete_subscription, list_subscriptions, PullResult,
  no_subscription, panics, pulled, pull, acknowledge,
}

-- The decoded request of each method.
pub data Rpc : Type 0 where
  publish_rpc : (topic : Text) (ms : List Message) → Rpc
  create_topic_rpc get_topic_rpc delete_topic_rpc : (name : Text) → Rpc
  list_topics_rpc : (parent : Text) → Rpc
  create_subscription_rpc : (name topic : Text) → Rpc
  get_subscription_rpc delete_subscription_rpc : (name : Text) → Rpc
  list_subscriptions_rpc : (parent : Text) → Rpc
  pull_rpc : (subscription : Text) → Rpc
  acknowledge_rpc : (subscription : Text) (acks : List Text) → Rpc

-- The message that a handler returns, its NotFound status, or a panic.
pub data Reply : Type 0 where
  publish_response : (ids : List Text) → Reply
  topic_msg : (name : Text) → Reply
  empty : Reply
  list_topics_response : (names : List Text) → Reply
  subscription_msg : (name topic : Text) → Reply
  -- The names; the topics are left out.
  list_subscriptions_response : (names : List Text) → Reply
  pull_response : List ReceivedMessage → Reply
  status_not_found : (message : Text) → Reply
  panic : Reply

-- The parts before and after the first place of the separator.
unfoldable pub split2 : Text → Text → Text × Text
split2 [] sep = ([], [])
split2 (c ∷ s) sep =
    let (front, rest) = split2 s sep in
    if has_prefix (c ∷ s) sep then ([], drop (length sep) (c ∷ s)) else (c ∷ front, rest)

-- The project of a parent "projects/{project}".
unfoldable pub project_of : Text → Text
unfolding split2
project_of parent =
    if ltb 9 (length parent) && has_prefix parent (str "projects/")
    then (split2 (drop 9 parent) (str "/")).0
    else []

topic_not_found : Text → Reply
topic_not_found name = status_not_found (str "topic not found: " ++ name)

subscription_not_found : Text → Reply
subscription_not_found name = status_not_found (str "subscription not found: " ++ name)

answer_subscription_rpc : Text → Option Text → Reply
unfolding subscription_not_found
answer_subscription_rpc name none = subscription_not_found name
answer_subscription_rpc name (some topic) = subscription_msg name topic

answer_pull_rpc : Text → PullResult → Reply
unfolding subscription_not_found
answer_pull_rpc name no_subscription = subscription_not_found name
answer_pull_rpc name panics = panic
answer_pull_rpc name (pulled ms) = pull_response ms

-- The handlers; `random` gives the bytes of crypto/rand.
unfoldable pub call_rpc : (ℕ → List ℕ) → Rpc → Backend → Backend × Reply
unfolding topic_not_found subscription_not_found answer_subscription_rpc answer_pull_rpc
call_rpc random (publish_rpc topic ms) b =
    let (b', ids) = publish random topic ms b in (b', publish_response ids)
call_rpc random (create_topic_rpc name) b = (create_topic name b, topic_msg name)
call_rpc random (get_topic_rpc name) b =
    (b, if get_topic name b then topic_msg name else topic_not_found name)
call_rpc random (delete_topic_rpc name) b =
    let (b', found) = delete_topic name b in (b', if found then empty else topic_not_found name)
call_rpc random (list_topics_rpc parent) b =
    (b, list_topics_response (list_topics (project_of parent) b))
call_rpc random (create_subscription_rpc name topic) b =
    (create_subscription name topic b, subscription_msg name topic)
call_rpc random (get_subscription_rpc name) b =
    (b, answer_subscription_rpc name (get_subscription name b))
call_rpc random (delete_subscription_rpc name) b =
    let (b', found) = delete_subscription name b in
    (b', if found then empty else subscription_not_found name)
call_rpc random (list_subscriptions_rpc parent) b =
    (b, list_subscriptions_response (list_subscriptions (project_of parent) b))
call_rpc random (pull_rpc subscription) b =
    let (b', result) = pull subscription b in (b', answer_pull_rpc subscription result)
call_rpc random (acknowledge_rpc subscription acks) b =
    let (b', found) = acknowledge subscription acks b in
    (b', if found then empty else subscription_not_found subscription)
