-- ===== src/Tests/Wires.antt =====
-- The theorems on the wire format (internal/protow) at concrete messages, in the base-128 format.
use mathlib.Core.List.{foldl}
use kiri_gcp.Prelude.{ℕ, suc, ◌≤◌, ◌≡◌, refl, true, some, List, [], ◌∷◌, map, arith, length, All}
use kiri_gcp.Text.{Text, str, text_eq}
use kiri_gcp.GoMap.{get}
use kiri_gcp.Pubsub.{Message}
use kiri_gcp.Wire.{FieldValue, new_encoder, for_each, new_decoder, decode}
use kiri_gcp.Wire.Fields.{Item, text_item, IsItem, wire}
use kiri_gcp.Wire.Calls.{
  Write, string_write, int32_write, float64_write, IsWrite, write_all, field_of, decode-write_all,
}
use kiri_gcp.Wire.Termination.{for_each-decode}
use kiri_gcp.Wire.Leb128.{leb128, leb128-IsProtowire, length-wire}
use kiri_gcp.Wire.Messages.{
  PublishRequest, PullRequest, encode_message, decode_publish_request, encode_publish_request,
  decode_pull_request, encode_pull_request,
}
use kiri_gcp.Wire.Messages.RoundTrip.{
  IsWritable, with_attributes, message_items, entry_item, entry_items, content_items, id_items,
  encode_message_lem,
}
use kiri_gcp.Wire.Messages.Requests.{
  message_item, publish_items, decode_publish_request-encode_publish_request,
  decode_pull_request-encode_pull_request,
}

-- A field number, and a field whose length is cut off.
abbrev cut_off : Text
cut_off = 8 ∷ 150 ∷ 1 ∷ 18 ∷ 7 ∷ 116 ∷ []

abbrev count_fields : ℕ → FieldValue → ℕ
count_fields n f = suc n

for_each-decode_example :
    for_each leb128 count_fields 40 0 (new_decoder cut_off) ≡ decode leb128 count_fields 0 cut_off
for_each-decode_example = for_each-decode leb128-IsProtowire count_fields 0 cut_off 40 (omega arith)

abbrev writes : List Write
writes =
    string_write 1 (str "testing")
    ∷ int32_write 2 4294967295
    ∷ float64_write 3 4607182418800017408
    ∷ []

writes-IsWrite : All IsWrite writes
unfolding str
writes-IsWrite = (
  (omega arith, omega arith, omega arith),
  ((omega arith, omega arith, omega arith), ((omega arith, omega arith, omega arith), tt)),
)

decode-write_all_example :
    decode leb128 count_fields 0 (write_all leb128 writes new_encoder).buf
    ≡ foldl count_fields 0 (map (field_of leb128) writes)
decode-write_all_example = decode-write_all leb128-IsProtowire count_fields 0 writes writes-IsWrite

abbrev greeting : Message
greeting = record {
  content = b'h' ∷ b'i' ∷ [];
  attributes = some ((b'k' ∷ [], b'v' ∷ []) ∷ []);
  message_id = b'7' ∷ [];
}

entry_size : length (wire leb128 (entry_items leb128 (b'k' ∷ [], b'v' ∷ []))) ≤ 60
unfolding entry_items wire
entry_size =
    omega (
      arith,
      length-wire 1 (b'k' ∷ []) (text_item 2 (b'v' ∷ []) ∷ []),
      length-wire 2 (b'v' ∷ []) [],
    )

greeting-IsWritable : IsWritable leb128 greeting
unfolding message_items entry_item content_items id_items text_eq get
greeting-IsWritable = record {
  fields = (
    (omega arith, omega arith, omega arith),
    (
      (omega arith, omega arith, omega (arith, entry_size)),
      ((omega arith, omega arith, omega arith), tt),
    ),
  );
  attribute_sizes = (omega arith, omega arith, tt);
  unique = (refl, tt);
}

abbrev publication : PublishRequest
publication = record { topic = b't' ∷ []; messages = greeting ∷ greeting ∷ [] }

greeting_size : length (encode_message leb128 greeting) ≤ 200
unfolding message_items content_items id_items text_eq entry_item wire
greeting_size = rw (encode_message_lem leb128-IsProtowire greeting) (
    omega (
      arith,
      entry_size,
      length-wire 1 (b'h' ∷ b'i' ∷ []) (entry ∷ name ∷ []),
      length-wire 2 (wire leb128 (entry_items leb128 (b'k' ∷ [], b'v' ∷ []))) (name ∷ []),
      length-wire 3 (b'7' ∷ []) [],
    ))
  where
    name : Item
    name = text_item 3 (b'7' ∷ [])

    entry : Item
    entry = entry_item leb128 (b'k' ∷ [], b'v' ∷ [])

publication-IsItem : All IsItem (publish_items leb128 publication)
unfolding publish_items message_item
publication-IsItem = (
  (omega arith, omega arith, omega arith),
  (
    (omega arith, omega arith, omega (arith, greeting_size)),
    ((omega arith, omega arith, omega (arith, greeting_size)), tt),
  ),
)

decode_publish_request-encode_publish_request_example :
    decode_publish_request leb128 (encode_publish_request leb128 publication)
    ≡ record publication { messages = map with_attributes publication.messages }
decode_publish_request-encode_publish_request_example =
    decode_publish_request-encode_publish_request leb128-IsProtowire publication
      (greeting-IsWritable, (greeting-IsWritable, tt)) publication-IsItem

-- A request with a maximum of -1.
abbrev negative : PullRequest
negative = record { subscription = b's' ∷ []; max_messages = 4294967295; return_immediately = true }

decode_pull_request-encode_pull_request_example :
    decode_pull_request leb128 (encode_pull_request leb128 negative) ≡ negative
decode_pull_request-encode_pull_request_example =
    decode_pull_request-encode_pull_request leb128-IsProtowire negative (omega arith) (omega arith)
