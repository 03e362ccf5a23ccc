-- ===== src/Tests/Samples.antt =====
-- Sample stores and requests for the code of internal/grpcsvc/pubsub, internal/service and
-- internal/server.
use kiri_gcp.Prelude.{ℕ, true, none, List, [], ◌∷◌, if◌then◌else◌}
use kiri_gcp.Text.{Text, str, text_eq}
use kiri_gcp.Json.{Json, string, number, object_of}
use kiri_gcp.Http.{Payload, valid, Request}
use kiri_gcp.Pubsub.{Message, Backend}
use kiri_gcp.Collection.{State}

-- Each read of crypto/rand gives two bytes, the first of which counts the reads.
abbrev pub counting : ℕ → List ℕ
counting i = i ∷ 171 ∷ []

abbrev pub text_message : Text → Message
text_message content = record { content = content; attributes = none; message_id = [] }

abbrev pub orders : Text
orders = str "projects/p/topics/orders"

abbrev pub billing : Text
billing = str "projects/p/subscriptions/billing"

-- A topic with one message and a subscription to it that has got nothing yet.
abbrev pub store : Backend
store = record {
  topics = (orders, true) ∷ [];
  subscriptions = (billing, orders) ∷ [];
  messages =
      (orders, record { content = str "old"; attributes = none; message_id = str "0c" } ∷ []) ∷ [];
  acked = (billing, []) ∷ [];
}

-- A request for project p and location l, with the given id in its path and its query.
abbrev pub request : Text → Payload → Request
request name payload = record {
  method = str "POST";
  path_value = λ k.
      if text_eq k (str "project")
      then str "p"
      else if text_eq k (str "location")
      then str "l"
      else name;
  query = λ k. if text_eq k (str "id") then name else [];
  payload = payload;
  random = counting;
  clock = str "2024-01-01T00:00:00Z";
}

abbrev pub body : Payload
body = valid (object_of ((str "size", number 3) ∷ []))

-- The same two resources, in two orders of the map.
abbrev pub small : Json
small = object_of ((str "name", string (str "small")) ∷ [])

abbrev pub name_a : Text
name_a = str "projects/p/locations/l/agones/a"

abbrev pub name_b : Text
name_b = str "projects/p/locations/l/agones/b"

abbrev pub two : State
two = record { resources = (name_a, small) ∷ (name_b, small) ∷ [] }

abbrev pub two_swapped : State
two_swapped = record { resources = (name_b, small) ∷ (name_a, small) ∷ [] }

abbrev pub two_messages : List Message
two_messages = text_message (str "first") ∷ text_message (str "second") ∷ []

abbrev pub no_type_error : Json → Text
no_type_error j = str "type error"
