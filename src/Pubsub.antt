-- ===== src/Pubsub.antt =====
-- The Pub/Sub store, MergeBackend of internal/grpcsvc/pubsub/pubsub.go, which the REST and the gRPC
-- service share. Each method holds the lock from its first to its last line, so a run is a sequence
-- of calls. Messages are not written after Publish, so their pointers are modelled as values.
pub mod Delivery
pub mod Sound
pub mod Drain
pub mod Marks
pub mod Bodies
pub mod Rest
pub mod Rpc
pub mod Stream
use kiri_gcp.Prelude.{
  ℕ, zero, suc, ◌+◌, ◌-◌, Bool, true, false, not, ◌&&◌, Option, none, some, List, [], ◌∷◌, ◌++◌,
  map, ltb, if◌then◌else◌, keep, is_some, length, take, drop,
}
use kiri_gcp.Text.{Text, str, text_eq, has_prefix}
use kiri_gcp.GoMap.{GoMap, get, put, delete, keys}
use kiri_gcp.Http.{id}

-- protow.PubsubMessage
pub record Message : Type 0 where
  pub content : Text
  -- `none` is the nil map.
  pub attributes : Option (GoMap Text)
  pub message_id : Text

-- protow.ReceivedMessage; its delivery count is never set.
pub record ReceivedMessage : Type 0 where
  pub ack_id : Text
  pub message : Message

pub record Backend : Type 0 where
  pub topics : GoMap Bool
  -- subscription -> topic
  pub subscriptions : GoMap Text
  pub messages : GoMap (List Message)
  -- subscription -> message id -> handed out
  pub acked : GoMap (GoMap Bool)

unfoldable pub new_backend : Backend
new_backend = record { topics = []; subscriptions = []; messages = []; acked = [] }

-- m[k] of a map of truth values, and of a map of slices.
abbrev pub flag : Option Bool → Bool
flag none = false
flag (some b) = b

abbrev pub slice {ℓ} : {A : Type ℓ} → Option (List A) → List A
slice none = []
slice (some xs) = xs

abbrev pub messages_of : Text → Backend → List Message
messages_of topic b = slice (get topic b.messages)

-- The loop of Publish: the i-th message gets the id made from the i-th read of crypto/rand.
unfoldable pub assign_ids : (ℕ → List ℕ) → ℕ → List Message → List Message
assign_ids random i [] = []
assign_ids random i (m ∷ ms) =
    record m { message_id = id (random i) } ∷ assign_ids random (suc i) ms

abbrev pub ids_of : List Message → List Text
ids_of ms = map (λ m. m.message_id) ms

unfoldable pub publish : (ℕ → List ℕ) → Text → List Message → Backend → Backend × List Text
unfolding assign_ids
publish random topic ms b =
    let stamped = assign_ids random 0 ms in
    (record b { messages = put topic (messages_of topic b ++ stamped) b.messages }, ids_of stamped)

unfoldable pub create_topic : Text → Backend → Backend
create_topic name b = record b {
  topics = put name true b.topics;
  messages = if is_some (get name b.messages) then b.messages else put name [] b.messages;
}

unfoldable pub get_topic : Text → Backend → Bool
get_topic name b = flag (get name b.topics)

unfoldable pub delete_topic : Text → Backend → Backend × Bool
delete_topic name b =
    if flag (get name b.topics)
    then (record b { topics = delete name b.topics; messages = delete name b.messages }, true)
    else (b, false)

-- The names with a prefix, in the order in which the map is run through.
unfoldable pub list_topics : Text → Backend → List Text
list_topics project b =
    keep (λ name. has_prefix name (str "projects/" ++ (project ++ str "/topics/"))) (keys b.topics)

unfoldable pub create_subscription : Text → Text → Backend → Backend
create_subscription name topic b = record b {
  subscriptions = put name topic b.subscriptions;
  acked = if is_some (get name b.acked) then b.acked else put name [] b.acked;
}

unfoldable pub get_subscription : Text → Backend → Option Text
get_subscription name b = get name b.subscriptions

unfoldable pub delete_subscription : Text → Backend → Backend × Bool
delete_subscription name b =
    if is_some (get name b.subscriptions)
    then (record b { subscriptions = delete name b.subscriptions }, true)
    else (b, false)

unfoldable pub list_subscriptions : Text → Backend → List Text
list_subscriptions project b =
    keep (λ name. has_prefix name (str "projects/" ++ (project ++ str "/subscriptions/")))
      (keys b.subscriptions)

abbrev pub receive : Message → ReceivedMessage
receive m = record { ack_id = m.message_id ++ str "-ack"; message = m }

-- The variables of the loop of Pull.
pub record Pulling : Type 0 where
  pub received : List ReceivedMessage
  pub remaining : List Message
  pub handed : GoMap Bool

pull_step : Message → Pulling → Pulling
pull_step m p =
    if flag (get m.message_id p.handed)
    then record p { remaining = p.remaining ++ m ∷ [] }
    else record p {
      received = p.received ++ receive m ∷ [];
      handed = put m.message_id true p.handed;
    }

unfoldable pub pull_loop : List Message → Pulling → Pulling
unfolding pull_step
pull_loop [] p = p
pull_loop (m ∷ ms) p = pull_loop ms (pull_step m p)

-- What Pull returns. It writes into the subscription's map of handed-out ids, and a write into a
-- map that is nil panics.
pub data PullResult : Type 0 where
  no_subscription : PullResult
  panics : PullResult
  pulled : List ReceivedMessage → PullResult

unfoldable pub messages_from_received : List ReceivedMessage → List Message
messages_from_received rs = map (λ r. r.message) rs

finish_pull : Text → Text → Pulling → Backend → Backend × PullResult
unfolding messages_from_received
finish_pull subscription topic p b = (
  record b {
    messages = put topic (p.remaining ++ messages_from_received p.received) b.messages;
    acked = put subscription p.handed b.acked;
  },
  pulled p.received,
)

-- Pull with a nil map: nothing is written unless there is a message to hand out.
pull_nil : Text → Text → List Message → Backend → Backend × PullResult
pull_nil subscription topic [] b = (record b { messages = put topic [] b.messages }, pulled [])
pull_nil subscription topic (m ∷ ms) b = (b, panics)

pull_from : Text → Option Text → Option (GoMap Bool) → Backend → Backend × PullResult
unfolding finish_pull pull_nil pull_loop
pull_from subscription none handed b = (b, no_subscription)
pull_from subscription (some topic) none b = pull_nil subscription topic (messages_of topic b) b
pull_from subscription (some topic) (some handed) b =
    finish_pull subscription topic
      (pull_loop (messages_of topic b) (record { received = []; remaining = []; handed = handed }))
      b

unfoldable pub pull : Text → Backend → Backend × PullResult
unfolding pull_from
pull subscription b =
    pull_from subscription (get subscription b.subscriptions) (get subscription b.acked) b

-- id[:len(id)-4] where id is longer than "-ack" and ends in it.
unfoldable pub strip_ack : Text → Text
strip_ack ack =
    if ltb 4 (length ack) && text_eq (drop (length ack - 4) ack) (str "-ack")
    then take (length ack - 4) ack
    else ack

-- ackSet[id]
unfoldable pub in_ack_set : List Text → Text → Bool
unfolding strip_ack
in_ack_set [] name = false
in_ack_set (a ∷ acks) name =
    let rest = in_ack_set acks name in if text_eq (strip_ack a) name then true else rest

acknowledge_from : Option Text → List Text → Backend → Backend × Bool
unfolding in_ack_set
acknowledge_from none acks b = (b, false)
acknowledge_from (some topic) acks b = (
  record b {
    messages =
        put topic (keep (λ m. not (in_ack_set acks m.message_id)) (messages_of topic b)) b.messages;
  },
  true,
)

unfoldable pub acknowledge : Text → List Text → Backend → Backend × Bool
unfolding acknowledge_from
acknowledge subscription acks b = acknowledge_from (get subscription b.subscriptions) acks b
