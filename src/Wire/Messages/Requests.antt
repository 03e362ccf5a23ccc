-- ===== src/Wire/Messages/Requests.antt =====
-- What the requests of the gRPC publisher and subscriber decode to that were encoded with the package.
use kiri_gcp.Prelude.{
  ℕ, ◌+◌, ◌-◌, ◌%◌, ◌^◌, ◌<◌, ◌≡◌, refl, sym, ap, ◌∙◌, inl, inr, Bool, true, false, not, List, [],
  ◌∷◌, ◌++◌, map, arith, ltb, ◌==◌, if◌then◌else◌, length, append-nil, append_assoc, All,
  Bool-cases,
}
use kiri_gcp.Text.{Text}
use kiri_gcp.Pubsub.{Message}
use kiri_gcp.Wire.{
  Protowire, IsProtowire, Encoder, new_encoder, int32_field, string_field, append_message,
  repeated_string, decode,
}
use kiri_gcp.Wire.Fields.{Item, text_item, number_item, IsItem, wire}
use kiri_gcp.Wire.Writing.{
  written, written-written, string_field_lem, append_message_lem, int64_field_lem, bool_field_lem,
}
use kiri_gcp.Wire.Taken.{taken, taken_lem}
use kiri_gcp.Wire.Messages.{
  PublishRequest, PullRequest, AcknowledgeRequest, encode_message, encode_messages,
  encode_publish_request, publish_step, decode_publish_request, encode_pull_request, varint_or_zero,
  pull_request_step, decode_pull_request, encode_acknowledge_request, acknowledge_step,
  decode_acknowledge_request,
}
use kiri_gcp.Wire.Messages.RoundTrip.{IsWritable, with_attributes, decode_message-encode_message}

-- The 64-bit pattern that Int32 writes.
extended : ℕ → ℕ
extended v = if ltb v (2 ^ 31) then v else v + (2 ^ 64 - 2 ^ 32)

extended_bounds : (v : ℕ) → v < 2 ^ 32 → (extended v < 2 ^ 64) × (extended v % 2 ^ 32 ≡ v)
unfolding extended
extended_bounds v h = elim (Bool-cases (ltb v (2 ^ 31))) [
  | inl e ↦ rw e (omega arith, omega arith)
  | inr e ↦ rw e (omega arith, omega arith)
]

pull_items : PullRequest → List Item
pull_items r =
    text_item 1 r.subscription
    ∷ number_item 2 (extended r.max_messages)
    ∷ number_item 3 (if r.return_immediately then 1 else 0)
    ∷ []

module _ (pw : Protowire) where
  unfoldable pub message_item : Message → Item
  message_item m = text_item 2 (encode_message pw m)

  -- The fields of a request to publish.
  unfoldable pub publish_items : PublishRequest → List Item
  publish_items r = text_item 1 r.topic ∷ map message_item r.messages

  -- The fields of an acknowledgement.
  pub acknowledge_items : AcknowledgeRequest → List Item
  acknowledge_items r = text_item 1 r.subscription ∷ map (text_item 2) r.ack_ids

module _ {pw : Protowire} (laws : IsProtowire pw) where
  written_nil : (e : Encoder) → e ≡ written pw e []
  unfolding written wire
  written_nil e = ap (λ (b : Text). record { buf = b }) (sym (append-nil e.buf))

  encode_messages_lem :
      (ms : List Message) (e : Encoder)
      → encode_messages pw 2 ms e ≡ written pw e (map (message_item pw) ms)
  unfolding encode_messages message_item
  encode_messages_lem [] e = written_nil e
  encode_messages_lem (m ∷ ms) e =
      encode_messages_lem ms (append_message pw 2 (encode_message pw m) e)
      ∙ ap (λ (d : Encoder). written pw d (map (message_item pw) ms))
          (append_message_lem laws 2 (encode_message pw m) e)
      ∙ written-written laws e (message_item pw m ∷ []) (map (message_item pw) ms)

  repeated_string_lem :
      (vs : List Text) (e : Encoder)
      → repeated_string pw 2 vs e ≡ written pw e (map (text_item 2) vs)
  unfolding repeated_string
  repeated_string_lem [] e = written_nil e
  repeated_string_lem (v ∷ vs) e =
      repeated_string_lem vs (string_field pw 2 v e)
      ∙ ap (λ (d : Encoder). written pw d (map (text_item 2) vs)) (string_field_lem laws 2 v e)
      ∙ written-written laws e (text_item 2 v ∷ []) (map (text_item 2) vs)

  -- A string in front of other fields, on an empty buffer.
  behind :
      (v : Text) (is : List Item)
      → (written pw (string_field pw 1 v new_encoder) is).buf ≡ wire pw (text_item 1 v ∷ is)
  behind v is =
      ap (λ (e : Encoder). (written pw e is).buf) (string_field_lem laws 1 v new_encoder)
      ∙ ap (λ (e : Encoder). e.buf) (written-written laws new_encoder (text_item 1 v ∷ []) is)
      ∙ (unfold written new_encoder in refl)

  encode_publish_request_lem :
      (r : PublishRequest) → encode_publish_request pw r ≡ wire pw (publish_items pw r)
  unfolding encode_publish_request publish_items
  encode_publish_request_lem r =
      ap (λ (e : Encoder). e.buf)
        (encode_messages_lem r.messages (string_field pw 1 r.topic new_encoder))
      ∙ behind r.topic (map (message_item pw) r.messages)

  messages_taken :
      (ms : List Message) (r : PublishRequest)
      → All (IsWritable pw) ms
      → taken pw (publish_step pw) r (map (message_item pw) ms)
        ≡ record r { messages = r.messages ++ map with_attributes ms }
  unfolding taken publish_step message_item
  messages_taken [] r h =
      ap (λ (l : List Message). record r { messages = l }) (sym (append-nil r.messages))
  messages_taken (m ∷ ms) r h =
      ap
        (λ (d : Message).
          taken pw (publish_step pw) (record r { messages = r.messages ++ d ∷ [] })
            (map (message_item pw) ms))
        (decode_message-encode_message laws m h.0)
      ∙ messages_taken ms (record r { messages = r.messages ++ with_attributes m ∷ [] }) h.1
      ∙ ap (λ (l : List Message). record r { messages = l })
          (append_assoc r.messages (with_attributes m ∷ []) (map with_attributes ms))

  -- A request to publish whose messages and fields can be written is decoded as it was encoded: the
  -- topic and all messages in their order, where a nil map of attributes becomes an empty one.
  pub decode_publish_request-encode_publish_request :
      (r : PublishRequest)
      → All (IsWritable pw) r.messages
      → All IsItem (publish_items pw r)
      → decode_publish_request pw (encode_publish_request pw r)
        ≡ record r { messages = map with_attributes r.messages }
  unfolding decode_publish_request
  decode_publish_request-encode_publish_request r h k =
      let blank : PublishRequest = record { topic = []; messages = [] } in
      ap (decode pw (publish_step pw) blank) (encode_publish_request_lem r)
      ∙ taken_lem laws (publish_step pw) blank (publish_items pw r) k
      ∙ (unfold publish_items taken publish_step in
          messages_taken r.messages (record { topic = r.topic; messages = [] }) h)

  ack_ids_taken :
      (vs : List Text) (r : AcknowledgeRequest)
      → taken pw (acknowledge_step pw) r (map (text_item 2) vs)
        ≡ record r { ack_ids = r.ack_ids ++ vs }
  unfolding taken acknowledge_step
  ack_ids_taken [] r = ap (λ (l : List Text). record r { ack_ids = l }) (sym (append-nil r.ack_ids))
  ack_ids_taken (v ∷ vs) r =
      ack_ids_taken vs (record r { ack_ids = r.ack_ids ++ v ∷ [] })
      ∙ ap (λ (l : List Text). record r { ack_ids = l }) (append_assoc r.ack_ids (v ∷ []) vs)

  encode_acknowledge_request_lem :
      (r : AcknowledgeRequest) → encode_acknowledge_request pw r ≡ wire pw (acknowledge_items pw r)
  unfolding encode_acknowledge_request acknowledge_items
  encode_acknowledge_request_lem r =
      ap (λ (e : Encoder). e.buf)
        (repeated_string_lem r.ack_ids (string_field pw 1 r.subscription new_encoder))
      ∙ behind r.subscription (map (text_item 2) r.ack_ids)

  -- An acknowledgement is decoded as it was encoded, with all ids in their order.
  pub decode_acknowledge_request-encode_acknowledge_request :
      (r : AcknowledgeRequest)
      → All IsItem (acknowledge_items pw r)
      → decode_acknowledge_request pw (encode_acknowledge_request pw r) ≡ r
  unfolding decode_acknowledge_request
  decode_acknowledge_request-encode_acknowledge_request r k =
      let blank : AcknowledgeRequest = record { subscription = []; ack_ids = [] } in
      ap (decode pw (acknowledge_step pw) blank) (encode_acknowledge_request_lem r)
      ∙ taken_lem laws (acknowledge_step pw) blank (acknowledge_items pw r) k
      ∙ (unfold acknowledge_items taken acknowledge_step in
          ack_ids_taken r.ack_ids (record { subscription = r.subscription; ack_ids = [] }))

  int32_field_lem :
      (num v : ℕ) (e : Encoder)
      → int32_field pw num v e ≡ written pw e (number_item num (extended v) ∷ [])
  unfolding int32_field extended
  int32_field_lem num v e = int64_field_lem laws num (extended v) e

  encode_pull_request_lem : (r : PullRequest) → encode_pull_request pw r ≡ wire pw (pull_items r)
  unfolding encode_pull_request pull_items
  encode_pull_request_lem r =
      let flag = number_item 3 (if r.return_immediately then 1 else 0) ∷ [] in
      let start = string_field pw 1 r.subscription new_encoder in
      ap (λ (e : Encoder). e.buf)
        (bool_field_lem laws 3 r.return_immediately (int32_field pw 2 r.max_messages start)
          ∙ ap (λ (e : Encoder). written pw e flag) (int32_field_lem 2 r.max_messages start)
          ∙ written-written laws start (number_item 2 (extended r.max_messages) ∷ []) flag)
      ∙ behind r.subscription (number_item 2 (extended r.max_messages) ∷ flag)

  read_back :
      (v : ℕ) → v < 2 ^ 64 → varint_or_zero pw (pw.consume_varint (pw.append_varint [] v)) ≡ v
  read_back v h =
      ap (λ (t : Text). varint_or_zero pw (pw.consume_varint t))
        (sym (append-nil (pw.append_varint [] v)))
      ∙ ap (varint_or_zero pw) (laws.varint_consumed v [] h)

  flag_back :
      (b : Bool)
      → not (varint_or_zero pw (pw.consume_varint (pw.append_varint [] (if b then 1 else 0))) == 0)
        ≡ b
  flag_back true = rw (read_back 1 (omega arith)) refl
  flag_back false = rw (read_back 0 (omega arith)) refl

  flag_fits : (b : Bool) → (if b then 1 else 0) < 2 ^ 64
  flag_fits true = omega arith
  flag_fits false = omega arith

  with_both :
      (r : PullRequest) (m : ℕ) (b : Bool)
      → m ≡ r.max_messages
      → b ≡ r.return_immediately
      → record r { max_messages = m; return_immediately = b } ≡ r
  with_both r m b p q = rw (p, q) refl

  pull_taken :
      (r : PullRequest)
      → extended r.max_messages < 2 ^ 64
      → extended r.max_messages % 2 ^ 32 ≡ r.max_messages
      → taken pw
          (pull_request_step pw)
          (record { subscription = []; max_messages = 0; return_immediately = false })
          (pull_items r)
        ≡ r
  unfolding pull_items taken pull_request_step
  pull_taken r fits back =
      with_both r _ _ (ap (λ (n : ℕ). n % 2 ^ 32) (read_back (extended r.max_messages) fits) ∙ back)
        (flag_back r.return_immediately)

  -- A request to pull is decoded as it was encoded, also with a negative number of messages, whose sign
  -- is extended to 64 bits and cut off again.
  pub decode_pull_request-encode_pull_request :
      (r : PullRequest)
      → length r.subscription < 2 ^ 63
      → r.max_messages < 2 ^ 32
      → decode_pull_request pw (encode_pull_request pw r) ≡ r
  unfolding decode_pull_request
  decode_pull_request-encode_pull_request r hs hm =
      let blank : PullRequest = record {
        subscription = [];
        max_messages = 0;
        return_immediately = false;
      } in
      let (fits, back) = extended_bounds r.max_messages hm in
      ap (decode pw (pull_request_step pw) blank) (encode_pull_request_lem r)
      ∙ taken_lem laws (pull_request_step pw) blank (pull_items r) (
          unfold pull_items in
          (
            (omega arith, omega arith, hs),
            (
              (omega arith, omega arith, fits),
              ((omega arith, omega arith, flag_fits r.return_immediately), tt),
            ),
          ))
      ∙ pull_taken r fits back
