-- ===== src/Pubsub/Bodies.antt =====
-- The request bodies of internal/service/pubsub/pubsub.go, as encoding/json reads them into the
-- structs of the handlers. The text of its type errors is the parameter `type_error`. Of two equal
-- keys that hold lists, the last one counts.
use mathlib.Core.Option
use kiri_gcp.Prelude.{Bool, Option, none, some, List, [], ◌∷◌, if◌then◌else◌}
use kiri_gcp.Text.{Text, str, text_eq, to_lower}
use kiri_gcp.GoMap.{GoMap, put}
use kiri_gcp.Json.{
  Json, null, string, array, object, Items, nil, cons, Fields, end, field, string_field,
}
use kiri_gcp.Http.{Payload, valid, Unmarshalled, value, mismatch}
use kiri_gcp.Pubsub.{Message}

-- A string of the body where the error of DecodeJSON is ignored.
abbrev pub body_string : Text → Payload → Text
body_string name (valid j) = string_field name j
body_string name _ = []

abbrev key_is : Text → Text → Bool
key_is name k = text_eq (to_lower k) (to_lower name)

-- attributes: a map[string]string; `none` is a type error.
read_attributes : GoMap Text → Fields → Option (GoMap Text)
read_attributes m end = some m
read_attributes m (field k (string s) fs) = read_attributes (put k s m) fs
read_attributes m (field k null fs) = read_attributes (put k [] m) fs
read_attributes m (field k _ fs) = none

abbrev or_new : Option (GoMap Text) → GoMap Text
or_new none = []
or_new (some m) = m

set_data : Json → Message → Option Message
set_data (string s) m = some (record m { content = s })
set_data null m = some m
set_data _ m = none

set_attributes : Json → Message → Option Message
unfolding read_attributes
set_attributes (object fs) m =
    Option.map (λ a. record m { attributes = some a }) (read_attributes (or_new m.attributes) fs)
set_attributes null m = some (record m { attributes = none })
set_attributes _ m = none

read_message : Fields → Message → Option Message
unfolding set_data set_attributes
read_message end m = some m
read_message (field k j fs) m =
    Option.bind
      (if key_is (str "data") k
        then set_data j m
        else if key_is (str "attributes") k
        then set_attributes j m
        else some m)
      (read_message fs)

abbrev zero_message : Message
zero_message = record { content = []; attributes = none; message_id = [] }

read_messages : Items → Option (List Message)
unfolding read_message
read_messages nil = some []
read_messages (cons (object fs) js) =
    Option.bind (read_message fs zero_message) (λ m. Option.map (λ ms. m ∷ ms) (read_messages js))
read_messages (cons null js) = Option.map (λ ms. zero_message ∷ ms) (read_messages js)
read_messages (cons _ js) = none

set_messages : Json → Option (List Message)
unfolding read_messages
set_messages (array js) = read_messages js
set_messages null = some []
set_messages _ = none

read_publish : List Message → Fields → Option (List Message)
unfolding set_messages
read_publish found end = some found
read_publish found (field k j fs) =
    Option.bind (if key_is (str "messages") k then set_messages j else some found)
      (λ ms. read_publish ms fs)

-- A string of an array; a value of another type leaves the empty string.
read_string_items : Items → List Text
read_string_items nil = []
read_string_items (cons (string s) js) = s ∷ read_string_items js
read_string_items (cons _ js) = [] ∷ read_string_items js

set_ack_ids : Json → List Text → List Text
unfolding read_string_items
set_ack_ids (array js) found = read_string_items js
set_ack_ids null found = []
set_ack_ids _ found = found

read_ack_ids : List Text → Fields → List Text
unfolding set_ack_ids
read_ack_ids found end = found
read_ack_ids found (field k j fs) =
    read_ack_ids (if key_is (str "ackIds") k then set_ack_ids j found else found) fs

-- body.AckIDs where the error of DecodeJSON is ignored.
unfoldable pub body_ack_ids : Payload → List Text
unfolding read_ack_ids
body_ack_ids (valid (object fs)) = read_ack_ids [] fs
body_ack_ids _ = []

module _ (type_error : Json → Text) where
  abbrev or_type_error : Json → Option (List Message) → Unmarshalled (List Message)
  or_type_error j none = mismatch (type_error j)
  or_type_error j (some ms) = value ms

  -- The target of topicAction, a struct with the messages.
  unfoldable pub unmarshal_publish : Json → Unmarshalled (List Message)
  unfolding read_publish
  unmarshal_publish (object fs) = or_type_error (object fs) (read_publish [] fs)
  unmarshal_publish null = value []
  unmarshal_publish j = mismatch (type_error j)
