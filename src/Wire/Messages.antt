-- ===== src/Wire/Messages.antt =====
-- internal/protow/messages.go: the messages of the gRPC publisher and subscriber and their bytes. Those
-- with the names of topics, subscriptions and documents are in the child Replies. The message types of
-- the Pub/Sub store are those of Pubsub.
pub mod Apart
pub mod RoundTrip
pub mod Replies
pub mod Requests
use kiri_gcp.Prelude.{
  ℕ, suc, ◌+◌, ◌-◌, ◌%◌, ◌^◌, Bool, true, false, not, ◌&&◌, Option, none, some, List, [], ◌∷◌, ◌++◌,
  ltb, ◌==◌, if◌then◌else◌, length,
}
use kiri_gcp.Text.{Text, text_eq}
use kiri_gcp.GoMap.{GoMap, put}
use kiri_gcp.Pubsub.{Message, ReceivedMessage}
use kiri_gcp.FirestoreRpc.{Document}
use kiri_gcp.Wire.{
  WireType, varint_type, fixed32_type, fixed64_type, bytes_type, start_group_type, end_group_type,
  Protowire, Encoder, Decoder, FieldValue, new_encoder, int32_field, bool_field, string_field,
  bytes_field, append_message, map_entry, repeated_string, decode,
}

pub record PublishRequest : Type 0 where
  pub topic : Text
  pub messages : List Message

-- `max_messages` is a 32-bit pattern.
pub record PullRequest : Type 0 where
  pub subscription : Text
  pub max_messages : ℕ
  pub return_immediately : Bool

-- AcknowledgeRequest and StreamingPullRequest.
pub record AcknowledgeRequest : Type 0 where
  pub subscription : Text
  pub ack_ids : List Text

abbrev pub is_bytes : WireType → Bool
is_bytes bytes_type = true
is_bytes _ = false

abbrev pub is_varint : WireType → Bool
is_varint varint_type = true
is_varint _ = false

-- num == n && typ == protowire.BytesType
abbrev pub is_text : ℕ → FieldValue → Bool
is_text n f = (f.num == n) && is_bytes f.typ

abbrev pub is_number : ℕ → FieldValue → Bool
is_number n f = (f.num == n) && is_varint f.typ

-- The entries of a map that may be nil.
abbrev pub entries : Option (GoMap Text) → GoMap Text
entries none = []
entries (some m) = m

-- The attributes are never nil in a decoded message.
abbrev pub add_attribute : Text × Text → Message → Message
add_attribute e m = record m { attributes = some (put e.0 e.1 (entries m.attributes)) }

-- The switch of the loop over the entry of a map.
unfoldable pub entry_step : Text × Text → FieldValue → Text × Text
entry_step e f =
    if not (is_bytes f.typ)
    then e
    else if f.num == 1
    then (f.val, e.1)
    else if f.num == 2
    then (e.0, f.val)
    else e

module _ (pw : Protowire) where
  unfoldable pub encode_attributes : GoMap Text → Encoder → Encoder
  encode_attributes [] e = e
  encode_attributes ((k, v) ∷ m) e = encode_attributes m (map_entry pw 2 k v e)

  -- PubsubMessage.Encode
  unfoldable pub encode_message : Message → Text
  unfolding encode_attributes
  encode_message m =
      let first =
        if ltb 0 (length m.content) then bytes_field pw 1 m.content new_encoder else new_encoder in
      let second = encode_attributes (entries m.attributes) first in
      (if text_eq m.message_id [] then second else string_field pw 3 m.message_id second).buf

  unfoldable pub message_step : Message → FieldValue → Message
  unfolding entry_step
  message_step m f =
      let entry = decode pw entry_step ([], []) f.val in
      if is_text 1 f
      then record m { content = f.val }
      else if is_text 2 f
      then add_attribute entry m
      else if is_text 3 f
      then record m { message_id = f.val }
      else m

  unfoldable pub decode_message : Text → Message
  unfolding message_step
  decode_message =
      decode pw message_step (record { content = []; attributes = some []; message_id = [] })

  encode_messages : ℕ → List Message → Encoder → Encoder
  unfolding encode_message
  encode_messages num [] e = e
  encode_messages num (m ∷ ms) e =
      encode_messages num ms (append_message pw num (encode_message m) e)

  unfoldable pub encode_publish_request : PublishRequest → Text
  unfolding encode_messages
  encode_publish_request r =
      (encode_messages 2 r.messages (string_field pw 1 r.topic new_encoder)).buf

  unfoldable pub publish_step : PublishRequest → FieldValue → PublishRequest
  unfolding decode_message
  publish_step r f =
      if is_text 1 f
      then record r { topic = f.val }
      else if is_text 2 f
      then record r { messages = r.messages ++ decode_message f.val ∷ [] }
      else r

  unfoldable pub decode_publish_request : Text → PublishRequest
  unfolding publish_step
  decode_publish_request = decode pw publish_step (record { topic = []; messages = [] })

  unfoldable pub encode_publish_response : List Text → Text
  encode_publish_response ids = (repeated_string pw 1 ids new_encoder).buf

  unfoldable pub encode_pull_request : PullRequest → Text
  encode_pull_request r =
      (bool_field pw 3 r.return_immediately
        (int32_field pw 2 r.max_messages (string_field pw 1 r.subscription new_encoder))).buf

  -- v, _ := protowire.ConsumeVarint(val), which is 0 where the length is negative.
  abbrev pub varint_or_zero : Option (ℕ × ℕ) → ℕ
  varint_or_zero none = 0
  varint_or_zero (some (v, n)) = v

  unfoldable pub pull_request_step : PullRequest → FieldValue → PullRequest
  pull_request_step r f =
      let v = varint_or_zero (pw.consume_varint f.val) in
      if is_text 1 f
      then record r { subscription = f.val }
      else if is_number 2 f
      then record r { max_messages = v % 2 ^ 32 }
      else if is_number 3 f
      then record r { return_immediately = not (v == 0) }
      else r

  unfoldable pub decode_pull_request : Text → PullRequest
  unfolding pull_request_step
  decode_pull_request =
      decode pw pull_request_step
        (record { subscription = []; max_messages = 0; return_immediately = false })

  -- The delivery count is never set, so it is written as 0.
  unfoldable pub encode_received : ReceivedMessage → Text
  encode_received r =
      (int32_field pw 3 0 (
        append_message pw 2 (encode_message r.message)
          (string_field pw 1 r.ack_id new_encoder))).buf

  encode_all_received : List ReceivedMessage → Encoder → Encoder
  unfolding encode_received
  encode_all_received [] e = e
  encode_all_received (r ∷ rs) e =
      encode_all_received rs (append_message pw 1 (encode_received r) e)

  unfoldable pub encode_pull_response : List ReceivedMessage → Text
  unfolding encode_all_received
  encode_pull_response rs = (encode_all_received rs new_encoder).buf

  unfoldable pub encode_acknowledge_request : AcknowledgeRequest → Text
  encode_acknowledge_request r =
      (repeated_string pw 2 r.ack_ids (string_field pw 1 r.subscription new_encoder)).buf

  unfoldable pub acknowledge_step : AcknowledgeRequest → FieldValue → AcknowledgeRequest
  acknowledge_step r f =
      if is_text 1 f
      then record r { subscription = f.val }
      else if is_text 2 f
      then record r { ack_ids = r.ack_ids ++ f.val ∷ [] }
      else r

  -- DecodeAcknowledgeRequest, and DecodeStreamingPullRequest, which is the same.
  unfoldable pub decode_acknowledge_request : Text → AcknowledgeRequest
  unfolding acknowledge_step
  decode_acknowledge_request =
      decode pw acknowledge_step (record { subscription = []; ack_ids = [] })
