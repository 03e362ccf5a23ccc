-- ===== src/Wire/Messages/Replies.antt =====
-- The messages of internal/protow/messages.go about topics, subscriptions and documents, and the message
-- StringMsg and the scans of wire.go.
use kiri_gcp.Prelude.{ℕ, Bool, Option, none, some, List, [], ◌∷◌, ◌++◌, if◌then◌else◌}
use kiri_gcp.Text.{Text}
use kiri_gcp.FirestoreRpc.{Document}
use kiri_gcp.Wire.{
  Protowire, Encoder, FieldValue, new_encoder, string_field, append_message, decode,
}
use kiri_gcp.Wire.Messages.{is_text, is_number, varint_or_zero}

pub record SubscriptionMsg : Type 0 where
  pub name : Text
  pub topic : Text

pub record ListDocumentsRequest : Type 0 where
  pub parent : Text
  pub collection_id : Text

pub record CreateDocumentRequest : Type 0 where
  pub parent : Text
  pub collection_id : Text
  pub document_id : Text

module _ (pw : Protowire) where
  unfoldable pub encode_subscription : SubscriptionMsg → Text
  encode_subscription s = (string_field pw 2 s.topic (string_field pw 1 s.name new_encoder)).buf

  -- StringMsg.Encode and TopicMsg.Encode
  unfoldable pub encode_string : Text → Text
  encode_string s = (string_field pw 1 s new_encoder).buf

  encode_topics : List Text → Encoder → Encoder
  unfolding encode_string
  encode_topics [] e = e
  encode_topics (n ∷ ns) e = encode_topics ns (append_message pw 1 (encode_string n) e)

  unfoldable pub encode_list_topics_response : List Text → Text
  unfolding encode_topics
  encode_list_topics_response ns = (encode_topics ns new_encoder).buf

  encode_subscriptions : List SubscriptionMsg → Encoder → Encoder
  unfolding encode_subscription
  encode_subscriptions [] e = e
  encode_subscriptions (s ∷ ss) e =
      encode_subscriptions ss (append_message pw 1 (encode_subscription s) e)

  unfoldable pub encode_list_subscriptions_response : List SubscriptionMsg → Text
  unfolding encode_subscriptions
  encode_list_subscriptions_response ss = (encode_subscriptions ss new_encoder).buf

  unfoldable pub encode_document : Document → Text
  encode_document d =
      (string_field pw 4 d.update_time
        (string_field pw 3 d.create_time (string_field pw 1 d.name new_encoder))).buf

  encode_documents : List Document → Encoder → Encoder
  unfolding encode_document
  encode_documents [] e = e
  encode_documents (d ∷ ds) e = encode_documents ds (append_message pw 1 (encode_document d) e)

  unfoldable pub encode_list_documents_response : List Document → Text
  unfolding encode_documents
  encode_list_documents_response ds = (encode_documents ds new_encoder).buf

  list_documents_step : ListDocumentsRequest → FieldValue → ListDocumentsRequest
  list_documents_step r f =
      if is_text 1 f
      then record r { parent = f.val }
      else if is_text 2 f
      then record r { collection_id = f.val }
      else r

  unfoldable pub decode_list_documents_request : Text → ListDocumentsRequest
  unfolding list_documents_step
  decode_list_documents_request =
      decode pw list_documents_step (record { parent = []; collection_id = [] })

  create_document_step : CreateDocumentRequest → FieldValue → CreateDocumentRequest
  create_document_step r f =
      if is_text 1 f
      then record r { parent = f.val }
      else if is_text 2 f
      then record r { collection_id = f.val }
      else if is_text 3 f
      then record r { document_id = f.val }
      else r

  unfoldable pub decode_create_document_request : Text → CreateDocumentRequest
  unfolding create_document_step
  decode_create_document_request =
      decode pw create_document_step (record { parent = []; collection_id = []; document_id = [] })

  -- The first value of a field that a scan accepts. The scan stops at the field; this loop passes over
  -- what follows.
  first_value : (FieldValue → Bool) → Option Text → FieldValue → Option Text
  first_value accepts (some s) f = some s
  first_value accepts none f = if accepts f then some f.val else none

  -- d.ScanString(num) and d.ScanBytes(num), on a new decoder
  unfoldable pub scan_string : ℕ → Text → Option Text
  unfolding first_value
  scan_string n raw = decode pw (first_value (is_text n)) none raw

  abbrev scanned_number : Option Text → Option ℕ
  scanned_number none = none
  scanned_number (some val) = some (varint_or_zero pw (pw.consume_varint val))

  -- d.ScanVarint(num), on a new decoder
  unfoldable pub scan_varint : ℕ → Text → Option ℕ
  unfolding first_value
  scan_varint n raw = scanned_number (decode pw (first_value (is_number n)) none raw)

  add_string : ℕ → List Text → FieldValue → List Text
  add_string n out f = if is_text n f then out ++ f.val ∷ [] else out

  -- d.ScanRepeatedStrings(num), on a new decoder
  unfoldable pub scan_repeated_strings : ℕ → Text → List Text
  unfolding add_string
  scan_repeated_strings n raw = decode pw (add_string n) [] raw

  abbrev or_blank : Option Text → Text
  or_blank none = []
  or_blank (some s) = s

  -- DecodeStringMsg, and DecodeGetDocumentRequest
  unfoldable pub decode_string : Text → Text
  unfolding scan_string
  decode_string raw = or_blank (scan_string 1 raw)
