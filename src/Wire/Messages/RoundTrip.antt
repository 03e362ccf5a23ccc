-- ===== src/Wire/Messages/RoundTrip.antt =====
-- What a message decodes to that was encoded with the same package.
use kiri_gcp.Prelude.{
  ◌^◌, ◌<◌, ◌≡◌, refl, sym, ap, ◌∙◌, true, some, List, [], ◌∷◌, ◌++◌, map, arith, ltb,
  if◌then◌else◌, length, append-nil, append_assoc, All,
}
use kiri_gcp.Text.{Text, text_eq}
use kiri_gcp.GoMap.{GoMap, IsUnique}
use kiri_gcp.Pubsub.{Message}
use kiri_gcp.Wire.{Protowire, IsProtowire, Encoder, new_encoder, string_field, map_entry, decode}
use kiri_gcp.Wire.Fields.{Item, text_item, IsItem, wire}
use kiri_gcp.Wire.Writing.{
  written, written-written, string_field_lem, append_message_lem, bytes_field_lem, written-if,
  if_not,
}
use kiri_gcp.Wire.Taken.{taken, taken_lem, taken-append}
use kiri_gcp.Wire.Messages.Apart.{put_new, IsApart, IsApart-snoc, IsApart-nil}
use kiri_gcp.Wire.Messages.{
  entries, add_attribute, entry_step, encode_attributes, encode_message, message_step,
  decode_message,
}

-- The key and the value of each entry are shorter than 2^63 bytes.
abbrev pub FitsEntries : GoMap Text → Type 0
FitsEntries [] = Unit
FitsEntries ((k, v) ∷ m) = (length k < 2 ^ 63) × (length v < 2 ^ 63) × FitsEntries m

abbrev pub with_attributes : Message → Message
with_attributes m = record m { attributes = some (entries m.attributes) }

module _ (pw : Protowire) where
  unfoldable pub entry_items : Text × Text → List Item
  entry_items (k, v) = text_item 1 k ∷ text_item 2 v ∷ []

  unfoldable pub entry_item : Text × Text → Item
  entry_item e = text_item 2 (wire pw (entry_items e))

  unfoldable pub content_items : Text → List Item
  content_items content = if ltb 0 (length content) then text_item 1 content ∷ [] else []

  unfoldable pub id_items : Text → List Item
  id_items name = if text_eq name [] then [] else text_item 3 name ∷ []

  -- The fields of a message, in the order in which they are written.
  unfoldable pub message_items : Message → List Item
  message_items m =
      content_items m.content ++ (map entry_item (entries m.attributes) ++ id_items m.message_id)

  -- A message that is small enough to be written: its data, its id, and each attribute and its entry
  -- are shorter than 2^63 bytes. A map holds a key once.
  pub record IsWritable (m : Message) : Type 0 where
    pub fields : All IsItem (message_items m)
    pub attribute_sizes : FitsEntries (entries m.attributes)
    pub unique : IsUnique (entries m.attributes)

module _ {pw : Protowire} (laws : IsProtowire pw) where
  -- Two fields on an empty buffer.
  pair_lem :
      (k v : Text)
      → (string_field pw 2 v (string_field pw 1 k new_encoder)).buf
        ≡ wire pw (entry_items pw (k, v))
  pair_lem k v =
      ap (λ (e : Encoder). e.buf)
        (string_field_lem laws 2 v (string_field pw 1 k new_encoder)
          ∙ ap (λ (e : Encoder). written pw e (text_item 2 v ∷ []))
              (string_field_lem laws 1 k new_encoder)
          ∙ written-written laws new_encoder (text_item 1 k ∷ []) (text_item 2 v ∷ []))
      ∙ (unfold written new_encoder entry_items in refl)

  map_entry_lem :
      (k v : Text) (e : Encoder) → map_entry pw 2 k v e ≡ written pw e (entry_item pw (k, v) ∷ [])
  unfolding map_entry entry_item
  map_entry_lem k v e =
      append_message_lem laws 2 _ e
      ∙ ap (λ (t : Text). written pw e (text_item 2 t ∷ [])) (pair_lem k v)

  encode_attributes_lem :
      (m : GoMap Text) (e : Encoder)
      → encode_attributes pw m e ≡ written pw e (map (entry_item pw) m)
  unfolding encode_attributes
  encode_attributes_lem [] e =
      unfold written wire in ap (λ (b : Text). record { buf = b }) (sym (append-nil e.buf))
  encode_attributes_lem ((k, v) ∷ m) e =
      encode_attributes_lem m (map_entry pw 2 k v e)
      ∙ ap (λ (d : Encoder). written pw d (map (entry_item pw) m)) (map_entry_lem k v e)
      ∙ written-written laws e (entry_item pw (k, v) ∷ []) (map (entry_item pw) m)

  pub encode_message_lem : (m : Message) → encode_message pw m ≡ wire pw (message_items pw m)
  unfolding encode_message message_items content_items id_items
  encode_message_lem m =
      let data_items = if ltb 0 (length m.content) then text_item 1 m.content ∷ [] else [] in
      let attribute_items = map (entry_item pw) (entries m.attributes) in
      let last = if text_eq m.message_id [] then [] else text_item 3 m.message_id ∷ [] in
      ap (λ (e : Encoder). e.buf)
        (ap
            (λ (e : Encoder).
              if text_eq m.message_id [] then e else string_field pw 3 m.message_id e)
            (ap (encode_attributes pw (entries m.attributes)) (
                ap (λ (e : Encoder). if ltb 0 (length m.content) then e else new_encoder)
                  (bytes_field_lem laws 1 m.content new_encoder)
                ∙ written-if pw (ltb 0 (length m.content)) new_encoder (text_item 1 m.content ∷ []))
              ∙ encode_attributes_lem (entries m.attributes) (written pw new_encoder data_items)
              ∙ written-written laws new_encoder data_items attribute_items)
          ∙ ap
              (λ (e : Encoder).
                if text_eq m.message_id []
                then written pw new_encoder (data_items ++ attribute_items)
                else e)
              (string_field_lem laws 3 m.message_id
                (written pw new_encoder (data_items ++ attribute_items)))
          ∙ if_not pw (text_eq m.message_id [])
              (written pw new_encoder (data_items ++ attribute_items))
              (text_item 3 m.message_id ∷ [])
          ∙ written-written laws new_encoder (data_items ++ attribute_items) last)
      ∙ ap (λ (is : List Item). (written pw new_encoder is).buf)
          (append_assoc data_items attribute_items last)
      ∙ (unfold written new_encoder in refl)

  decode_entry :
      (k v : Text)
      → length k < 2 ^ 63
      → length v < 2 ^ 63
      → decode pw entry_step ([], []) (wire pw (entry_items pw (k, v))) ≡ (k, v)
  unfolding entry_items entry_step taken
  decode_entry k v hk hv =
      taken_lem laws entry_step ([], []) (text_item 1 k ∷ text_item 2 v ∷ [])
        ((omega arith, omega arith, hk), ((omega arith, omega arith, hv), tt))

  attributes_taken :
      (m acc : GoMap Text) (b : Message)
      → FitsEntries m
      → IsUnique m
      → IsApart m acc
      → taken pw (message_step pw) (record b { attributes = some acc }) (map (entry_item pw) m)
        ≡ record b { attributes = some (acc ++ m) }
  unfolding taken message_step entry_item
  attributes_taken [] acc b f u a = rw append-nil refl
  attributes_taken ((k, v) ∷ m) acc b f u a =
      ap
        (λ (e : Text × Text).
          taken pw (message_step pw) (add_attribute e (record b { attributes = some acc }))
            (map (entry_item pw) m))
        (decode_entry k v f.0 f.1)
      ∙ ap
          (λ (l : GoMap Text).
            taken pw (message_step pw) (record b { attributes = some l }) (map (entry_item pw) m))
          (put_new k v acc a.0)
      ∙ attributes_taken m (acc ++ (k, v) ∷ []) b f.2 u.1 (IsApart-snoc k v m acc u.0 a.1)
      ∙ ap (λ (l : GoMap Text). record b { attributes = some l }) (append_assoc acc ((k, v) ∷ []) m)

  content_taken :
      (c : Text) (b : Message)
      → b.content ≡ []
      → taken pw (message_step pw) b (content_items pw c) ≡ record b { content = c }
  unfolding taken message_step content_items
  content_taken [] b e = cc
  content_taken (x ∷ c) b e = rw long refl
    where
      long : ltb 0 (length (x ∷ c)) ≡ true
      long = ground arith

  id_taken :
      (name : Text) (b : Message)
      → b.message_id ≡ []
      → taken pw (message_step pw) b (id_items pw name) ≡ record b { message_id = name }
  unfolding taken message_step id_items text_eq
  id_taken [] b e = cc
  id_taken (x ∷ name) b e = refl

  -- A message is decoded as it was encoded; a nil map of attributes becomes an empty one.
  pub decode_message-encode_message :
      (m : Message) → IsWritable pw m → decode_message pw (encode_message pw m) ≡ with_attributes m
  unfolding decode_message message_items
  decode_message-encode_message m h =
      let blank : Message = record { content = []; attributes = some []; message_id = [] } in
      let attributes = entries m.attributes in
      let step = message_step pw in
      ap (decode pw step blank) (encode_message_lem m)
      ∙ taken_lem laws step blank (message_items pw m) h.fields
      ∙ taken-append laws step blank (content_items pw m.content)
          (map (entry_item pw) attributes ++ id_items pw m.message_id)
      ∙ ap
          (λ (b : Message).
            taken pw step b (map (entry_item pw) attributes ++ id_items pw m.message_id))
          (content_taken m.content blank refl)
      ∙ taken-append laws step (record blank { content = m.content })
          (map (entry_item pw) attributes) (id_items pw m.message_id)
      ∙ ap (λ (b : Message). taken pw step b (id_items pw m.message_id))
          (attributes_taken attributes [] (record blank { content = m.content }) h.attribute_sizes
            h.unique (IsApart-nil attributes))
      ∙ id_taken m.message_id _ refl
