-- ===== src/Wire/Writing.antt =====
-- Writing a field with the Encoder appends its bytes.
use kiri_gcp.Prelude.{
  ℕ, ◌≡◌, refl, sym, ap, ◌∙◌, Bool, true, false, List, [], ◌∷◌, ◌++◌, if◌then◌else◌, append-nil,
  append_assoc,
}
use kiri_gcp.Text.{Text}
use kiri_gcp.Wire.{
  varint_type, bytes_type, Protowire, IsProtowire, Encoder, int64_field, bool_field, string_field,
  bytes_field, append_message,
}
use kiri_gcp.Wire.Fields.{Item, text_item, number_item, item_wire, wire}

module _ (pw : Protowire) where
  -- The encoder after some fields were written.
  unfoldable pub written : Encoder → List Item → Encoder
  written e is = record { buf = e.buf ++ wire pw is }

  pub written-if :
      (c : Bool) (e : Encoder) (is : List Item)
      → (if c then written e is else e) ≡ written e (if c then is else [])
  unfolding written wire
  written-if true e is = refl
  written-if false e is = ap (λ (b : Text). record { buf = b }) (sym (append-nil e.buf))

  pub if_not :
      (c : Bool) (e : Encoder) (is : List Item)
      → (if c then e else written e is) ≡ written e (if c then [] else is)
  unfolding written wire
  if_not true e is = ap (λ (b : Text). record { buf = b }) (sym (append-nil e.buf))
  if_not false e is = refl

module _ {pw : Protowire} (laws : IsProtowire pw) where
  wire-append : (is js : List Item) → wire pw (is ++ js) ≡ wire pw is ++ wire pw js
  unfolding wire
  wire-append [] js = refl
  wire-append (i ∷ is) js = rw (wire-append is js) (sym (append_assoc (item_wire pw i) _ _))

  pub written-written :
      (e : Encoder) (is js : List Item) → written pw (written pw e is) js ≡ written pw e (is ++ js)
  unfolding written
  written-written e is js =
      ap (λ (b : Text). record { buf = b })
        (append_assoc e.buf (wire pw is) (wire pw js)
          ∙ ap (λ (t : Text). e.buf ++ t) (sym (wire-append is js)))

  pub string_field_lem :
      (num : ℕ) (v : Text) (e : Encoder)
      → string_field pw num v e ≡ written pw e (text_item num v ∷ [])
  unfolding string_field written wire item_wire
  string_field_lem num v e =
      ap (λ (b : Text). record { buf = b })
        (laws.bytes_appends (pw.append_tag e.buf num bytes_type) v
          ∙ ap (λ (b : Text). b ++ pw.append_bytes [] v) (laws.tag_appends e.buf num bytes_type)
          ∙ append_assoc e.buf (pw.append_tag [] num bytes_type) (pw.append_bytes [] v)
          ∙ ap (λ (t : Text). e.buf ++ t) (sym (append-nil _)))

  pub append_message_lem :
      (num : ℕ) (v : Text) (e : Encoder)
      → append_message pw num v e ≡ written pw e (text_item num v ∷ [])
  append_message_lem num v e = (unfold append_message string_field in string_field_lem num v e)

  pub bytes_field_lem :
      (num : ℕ) (v : Text) (e : Encoder)
      → bytes_field pw num v e ≡ written pw e (text_item num v ∷ [])
  bytes_field_lem num v e = (unfold bytes_field string_field in string_field_lem num v e)

  pub int64_field_lem :
      (num v : ℕ) (e : Encoder) → int64_field pw num v e ≡ written pw e (number_item num v ∷ [])
  unfolding int64_field written wire item_wire
  int64_field_lem num v e =
      ap (λ (b : Text). record { buf = b })
        (laws.varint_appends (pw.append_tag e.buf num varint_type) v
          ∙ ap (λ (b : Text). b ++ pw.append_varint [] v) (laws.tag_appends e.buf num varint_type)
          ∙ append_assoc e.buf (pw.append_tag [] num varint_type) (pw.append_varint [] v)
          ∙ ap (λ (t : Text). e.buf ++ t) (sym (append-nil _)))

  pub bool_field_lem :
      (num : ℕ) (v : Bool) (e : Encoder)
      → bool_field pw num v e ≡ written pw e (number_item num (if v then 1 else 0) ∷ [])
  bool_field_lem num true e = (unfold bool_field int64_field in int64_field_lem num 1 e)
  bool_field_lem num false e = (unfold bool_field int64_field in int64_field_lem num 0 e)
