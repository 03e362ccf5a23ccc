-- ===== src/Wire/Calls.antt =====
-- The calls of the Encoder of internal/protow/wire.go, and what a Decoder reads behind them.
use mathlib.Core.List.{foldl}
use kiri_gcp.Prelude.{
  ℕ, ◌+◌, ◌-◌, ◌^◌, ◌<◌, ◌≤◌, ◌≡◌, refl, sym, ap, ◌∙◌, Bool, List, [], ◌∷◌, ◌++◌, ltb,
  if◌then◌else◌, map, length, arith, append-nil, append_assoc, All,
}
use kiri_gcp.Text.{Text}
use kiri_gcp.Wire.{
  varint_type, fixed32_type, fixed64_type, bytes_type, Protowire, IsProtowire, Encoder, FieldValue,
  new_encoder, uint64_field, int64_field, int32_field, bool_field, string_field, bytes_field,
  float64_field, float32_field, append_message, decode,
}
use kiri_gcp.Wire.Fields.{
  Item, text_item, number_item, fixed32_item, fixed64_item, IsItem, item_wire, wire, value_of,
  decode-wire,
}
use kiri_gcp.Wire.Writing.{
  written, written-written, string_field_lem, bytes_field_lem, append_message_lem, int64_field_lem,
  bool_field_lem,
}

-- A call of one of the methods that write a field. A float is given by its bits.
pub data Write : Type 0 where
  int64_write uint64_write int32_write : (num v : ℕ) → Write
  bool_write : (num : ℕ) (v : Bool) → Write
  string_write bytes_write message_write : (num : ℕ) (v : Text) → Write
  float64_write float32_write : (num bits : ℕ) → Write

-- A field number is from 1 to 2^29 - 1; an integer and a float fit their type, and a string is not
-- longer than Go allows.
abbrev pub IsWrite : Write → Type 0
IsWrite (int64_write num v) = (1 ≤ num) × (num < 2 ^ 29) × (v < 2 ^ 64)
IsWrite (uint64_write num v) = (1 ≤ num) × (num < 2 ^ 29) × (v < 2 ^ 64)
IsWrite (int32_write num v) = (1 ≤ num) × (num < 2 ^ 29) × (v < 2 ^ 32)
IsWrite (bool_write num v) = (1 ≤ num) × (num < 2 ^ 29)
IsWrite (string_write num v) = (1 ≤ num) × (num < 2 ^ 29) × (length v < 2 ^ 63)
IsWrite (bytes_write num v) = (1 ≤ num) × (num < 2 ^ 29) × (length v < 2 ^ 63)
IsWrite (message_write num v) = (1 ≤ num) × (num < 2 ^ 29) × (length v < 2 ^ 63)
IsWrite (float64_write num bits) = (1 ≤ num) × (num < 2 ^ 29) × (bits < 2 ^ 64)
IsWrite (float32_write num bits) = (1 ≤ num) × (num < 2 ^ 29) × (bits < 2 ^ 32)

-- The 64-bit pattern of a 32-bit one, with its sign.
abbrev sign_extended : ℕ → ℕ
sign_extended v = if ltb v (2 ^ 31) then v else v + (2 ^ 64 - 2 ^ 32)

module _ (pw : Protowire) where
  pub write : Write → Encoder → Encoder
  write (int64_write num v) e = int64_field pw num v e
  write (uint64_write num v) e = uint64_field pw num v e
  write (int32_write num v) e = int32_field pw num v e
  write (bool_write num v) e = bool_field pw num v e
  write (string_write num v) e = string_field pw num v e
  write (bytes_write num v) e = bytes_field pw num v e
  write (message_write num v) e = append_message pw num v e
  write (float64_write num bits) e = float64_field pw num bits e
  write (float32_write num bits) e = float32_field pw num bits e

  pub write_all : List Write → Encoder → Encoder
  write_all [] e = e
  write_all (w ∷ ws) e = write_all ws (write w e)

  abbrev varint : ℕ → ℕ → FieldValue
  varint num v = record { num = num; typ = varint_type; val = pw.append_varint [] v }

  abbrev raw : ℕ → Text → FieldValue
  raw num v = record { num = num; typ = bytes_type; val = v }

  -- The number, the wire type and the value bytes of the field.
  abbrev pub field_of : Write → FieldValue
  field_of (int64_write num v) = varint num v
  field_of (uint64_write num v) = varint num v
  field_of (int32_write num v) = varint num (sign_extended v)
  field_of (bool_write num v) = varint num (if v then 1 else 0)
  field_of (string_write num v) = raw num v
  field_of (bytes_write num v) = raw num v
  field_of (message_write num v) = raw num v
  field_of (float64_write num bits) = record {
    num = num;
    typ = fixed64_type;
    val = pw.append_fixed64 [] bits;
  }
  field_of (float32_write num bits) = record {
    num = num;
    typ = fixed32_type;
    val = pw.append_fixed32 [] bits;
  }

item_of : Write → Item
item_of (int64_write num v) = number_item num v
item_of (uint64_write num v) = number_item num v
item_of (int32_write num v) = number_item num (sign_extended v)
item_of (bool_write num v) = number_item num (if v then 1 else 0)
item_of (string_write num v) = text_item num v
item_of (bytes_write num v) = text_item num v
item_of (message_write num v) = text_item num v
item_of (float64_write num bits) = fixed64_item num bits
item_of (float32_write num bits) = fixed32_item num bits

item_of-IsItem : (w : Write) → IsWrite w → IsItem (item_of w)
unfolding item_of
item_of-IsItem (int64_write num v) h = h
item_of-IsItem (uint64_write num v) h = h
item_of-IsItem (int32_write num v) h = (h.0, h.1, ground arith)
item_of-IsItem (bool_write num v) h = (h.0, h.1, ground arith)
item_of-IsItem (string_write num v) h = h
item_of-IsItem (bytes_write num v) h = h
item_of-IsItem (message_write num v) h = h
item_of-IsItem (float64_write num bits) h = h
item_of-IsItem (float32_write num bits) h = h

items_of-IsItem : (ws : List Write) → All IsWrite ws → All IsItem (map item_of ws)
items_of-IsItem [] h = tt
items_of-IsItem (w ∷ ws) h = (item_of-IsItem w h.0, items_of-IsItem ws h.1)

value_of-item_of : (pw : Protowire) (w : Write) → value_of pw (item_of w) ≡ field_of pw w
unfolding item_of
value_of-item_of pw (int64_write num v) = refl
value_of-item_of pw (uint64_write num v) = refl
value_of-item_of pw (int32_write num v) = refl
value_of-item_of pw (bool_write num v) = refl
value_of-item_of pw (string_write num v) = refl
value_of-item_of pw (bytes_write num v) = refl
value_of-item_of pw (message_write num v) = refl
value_of-item_of pw (float64_write num bits) = refl
value_of-item_of pw (float32_write num bits) = refl

values_of-items_of :
    (pw : Protowire) (ws : List Write) → map (value_of pw) (map item_of ws) ≡ map (field_of pw) ws
values_of-items_of pw [] = refl
values_of-items_of pw (w ∷ ws) = cc (value_of-item_of pw w, values_of-items_of pw ws)

module _ {pw : Protowire} (laws : IsProtowire pw) where
  float64_field_lem :
      (num bits : ℕ) (e : Encoder)
      → float64_field pw num bits e ≡ written pw e (fixed64_item num bits ∷ [])
  unfolding float64_field written wire item_wire
  float64_field_lem num bits e =
      ap (λ (b : Text). record { buf = b })
        (laws.fixed64_appends (pw.append_tag e.buf num fixed64_type) bits
          ∙ ap (λ (b : Text). b ++ pw.append_fixed64 [] bits)
              (laws.tag_appends e.buf num fixed64_type)
          ∙ append_assoc e.buf (pw.append_tag [] num fixed64_type) (pw.append_fixed64 [] bits)
          ∙ ap (λ (t : Text). e.buf ++ t) (sym (append-nil _)))

  float32_field_lem :
      (num bits : ℕ) (e : Encoder)
      → float32_field pw num bits e ≡ written pw e (fixed32_item num bits ∷ [])
  unfolding float32_field written wire item_wire
  float32_field_lem num bits e =
      ap (λ (b : Text). record { buf = b })
        (laws.fixed32_appends (pw.append_tag e.buf num fixed32_type) bits
          ∙ ap (λ (b : Text). b ++ pw.append_fixed32 [] bits)
              (laws.tag_appends e.buf num fixed32_type)
          ∙ append_assoc e.buf (pw.append_tag [] num fixed32_type) (pw.append_fixed32 [] bits)
          ∙ ap (λ (t : Text). e.buf ++ t) (sym (append-nil _)))

  write_lem : (w : Write) (e : Encoder) → write pw w e ≡ written pw e (item_of w ∷ [])
  unfolding write item_of
  write_lem (int64_write num v) e = int64_field_lem laws num v e
  write_lem (uint64_write num v) e =
      (unfold uint64_field int64_field in int64_field_lem laws num v e)
  write_lem (int32_write num v) e =
      (unfold int32_field in int64_field_lem laws num (sign_extended v) e)
  write_lem (bool_write num v) e = bool_field_lem laws num v e
  write_lem (string_write num v) e = string_field_lem laws num v e
  write_lem (bytes_write num v) e = bytes_field_lem laws num v e
  write_lem (message_write num v) e = append_message_lem laws num v e
  write_lem (float64_write num bits) e = float64_field_lem num bits e
  write_lem (float32_write num bits) e = float32_field_lem num bits e

  write_all_lem :
      (ws : List Write) (e : Encoder) → write_all pw ws e ≡ written pw e (map item_of ws)
  unfolding write_all
  write_all_lem [] e =
      (unfold written wire in ap (λ (b : Text). record { buf = b }) (sym (append-nil e.buf)))
  write_all_lem (w ∷ ws) e =
      ap (write_all pw ws) (write_lem w e)
      ∙ write_all_lem ws (written pw e (item_of w ∷ []))
      ∙ written-written laws e (item_of w ∷ []) (map item_of ws)

  -- A loop over a Decoder takes the fields one by one, in the order in which calls of the Encoder
  -- wrote them, whichever of its methods for a single value they are: each with its number and wire
  -- type, and with the bytes of its value. The field numbers are valid, and each value fits its type.
  pub decode-write_all :
      {S : Type 0} (step : S → FieldValue → S) (s : S) (ws : List Write)
      → All IsWrite ws
      → decode pw step s (write_all pw ws new_encoder).buf ≡ foldl step s (map (field_of pw) ws)
  decode-write_all step s ws h =
      ap (λ (e : Encoder). decode pw step s e.buf) (write_all_lem ws new_encoder)
      ∙ unfold written new_encoder in
        decode-wire laws step s (map item_of ws) (items_of-IsItem ws h)
        ∙ ap (foldl step s) (values_of-items_of pw ws)
