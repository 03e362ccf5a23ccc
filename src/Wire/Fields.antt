-- ===== src/Wire/Fields.antt =====
-- A sequence of fields that the Encoder wrote is read back field by field by the Decoder.
use mathlib.Core.List.{foldl}
use kiri_gcp.Prelude.{
  ℕ, zero, suc, ◌+◌, ◌^◌, ◌<◌, ◌≤◌, ◌≡◌, refl, sym, ap, ◌∙◌, true, false, Option, none, some, List,
  [], ◌∷◌, ◌++◌, map, arith, leb, length, length-append, drop, drop-length_append, append_assoc,
  All,
}
use kiri_gcp.Text.{Text}
use kiri_gcp.Wire.{
  WireType, varint_type, fixed32_type, fixed64_type, bytes_type, Protowire, IsProtowire, Decoder,
  FieldValue, new_decoder, number_value, bytes_value, next_value, next_tagged, next, for_each,
  decode,
}

-- A field with a string, bytes or message, with a varint, or with the bits of a float.
pub data Item : Type 0 where
  text_item : (num : ℕ) (v : Text) → Item
  number_item : (num v : ℕ) → Item
  fixed32_item fixed64_item : (num bits : ℕ) → Item

-- A field number of protobuf, and a value of the size that Go can hold.
abbrev pub IsItem : Item → Type 0
IsItem (text_item num v) = (1 ≤ num) × (num < 2 ^ 29) × (length v < 2 ^ 63)
IsItem (number_item num v) = (1 ≤ num) × (num < 2 ^ 29) × (v < 2 ^ 64)
IsItem (fixed32_item num bits) = (1 ≤ num) × (num < 2 ^ 29) × (bits < 2 ^ 32)
IsItem (fixed64_item num bits) = (1 ≤ num) × (num < 2 ^ 29) × (bits < 2 ^ 64)

module _ (pw : Protowire) where
  unfoldable pub item_wire : Item → Text
  item_wire (text_item num v) = pw.append_tag [] num bytes_type ++ pw.append_bytes [] v
  item_wire (number_item num v) = pw.append_tag [] num varint_type ++ pw.append_varint [] v
  item_wire (fixed32_item num bits) = pw.append_tag [] num fixed32_type ++ pw.append_fixed32 [] bits
  item_wire (fixed64_item num bits) = pw.append_tag [] num fixed64_type ++ pw.append_fixed64 [] bits

  unfoldable pub wire : List Item → Text
  wire [] = []
  wire (i ∷ is) = item_wire i ++ wire is

  abbrev pub value_of : Item → FieldValue
  value_of (text_item num v) = record { num = num; typ = bytes_type; val = v }
  value_of (number_item num v) = record {
    num = num;
    typ = varint_type;
    val = pw.append_varint [] v;
  }
  value_of (fixed32_item num bits) = record {
    num = num;
    typ = fixed32_type;
    val = pw.append_fixed32 [] bits;
  }
  value_of (fixed64_item num bits) = record {
    num = num;
    typ = fixed64_type;
    val = pw.append_fixed64 [] bits;
  }

  abbrev pub at : Text → Text → Decoder
  at pre rest = record { buf = pre ++ rest; pos = length pre }

module _ {pw : Protowire} (laws : IsProtowire pw) where
  tag_nonempty :
      (num : ℕ) (t : WireType) → 1 ≤ num → num < 2 ^ 29 → 0 < length (pw.append_tag [] num t)
  tag_nonempty num t p q =
      laws.tag_size (pw.append_tag [] num t ++ []) num (length (pw.append_tag [] num t)) t
        (laws.tag_consumed num t [] p q)

  next_tag :
      (num : ℕ) (t : WireType) (pre rest : Text)
      → 1 ≤ num
      → num < 2 ^ 29
      → next pw (at pw pre (pw.append_tag [] num t ++ rest))
        ≡ next_value pw num t (record {
          buf = pre ++ (pw.append_tag [] num t ++ rest);
          pos = length pre + length (pw.append_tag [] num t);
        })
  unfolding next next_tagged
  next_tag num t pre rest p q =
      let tag = pw.append_tag [] num t in
      rw (inside, drop-length_append pre (tag ++ rest), laws.tag_consumed num t rest p q) refl
    where
      inside : leb (length (pre ++ (pw.append_tag [] num t ++ rest))) (length pre) ≡ false
      inside = ground (
        arith,
        length-append pre (pw.append_tag [] num t ++ rest),
        length-append (pw.append_tag [] num t) rest,
        tag_nonempty num t p q,
      )

  drop_both : (a b c : Text) → drop (length a + length b) (a ++ (b ++ c)) ≡ c
  drop_both a b c =
      ap (λ (n : ℕ). drop n (a ++ (b ++ c))) (sym (length-append a b))
      ∙ ap (drop (length (a ++ b))) (sym (append_assoc a b c))
      ∙ drop-length_append (a ++ b) c

  drop_ends :
      (pre a b rest : Text) → drop (length pre + length a) (pre ++ (a ++ (b ++ rest))) ≡ b ++ rest
  drop_ends pre a b rest = drop_both pre a (b ++ rest)

  -- Where the decoder stands behind an item.
  moved :
      (pre a b rest : Text)
      → record { buf = pre ++ ((a ++ b) ++ rest); pos = length pre + length a + length b }
        ≡ at pw (pre ++ (a ++ b)) rest
  moved pre a b rest =
      ground (arith, append_assoc pre (a ++ b) rest, length-append pre (a ++ b), length-append a b)

  read_bytes :
      (num : ℕ) (v pre a rest : Text)
      → length v < 2 ^ 63
      → next_value pw num bytes_type (record {
        buf = pre ++ (a ++ (pw.append_bytes [] v ++ rest));
        pos = length pre + length a;
      })
        ≡ (
          some (record { num = num; typ = bytes_type; val = v }),
          at pw (pre ++ (a ++ pw.append_bytes [] v)) rest,
        )
  unfolding next_value bytes_value
  read_bytes num v pre a rest h =
      rw (drop_ends pre a (pw.append_bytes [] v) rest, laws.bytes_consumed v rest h)
        (ap (λ (d : Decoder). (some (record { num = num; typ = bytes_type; val = v }), d))
          (ap
              (λ (b : Text). record {
                buf = pre ++ b;
                pos = length pre + length a + length (pw.append_bytes [] v);
              })
              (sym (append_assoc a (pw.append_bytes [] v) rest))
            ∙ moved pre a (pw.append_bytes [] v) rest))

  read_number :
      (num v : ℕ) (t : WireType) (print : ℕ → Text) (consume : Text → Option (ℕ × ℕ))
      (pre a rest : Text)
      → consume (print v ++ rest) ≡ some (v, length (print v))
      → number_value pw num t print
          (consume (drop (length pre + length a) (pre ++ (a ++ (print v ++ rest)))))
          (record { buf = pre ++ (a ++ (print v ++ rest)); pos = length pre + length a })
        ≡ (some (record { num = num; typ = t; val = print v }), at pw (pre ++ (a ++ print v)) rest)
  unfolding number_value
  read_number num v t print consume pre a rest h =
      rw (drop_ends pre a (print v) rest, h)
        (ap (λ (d : Decoder). (some (record { num = num; typ = t; val = print v }), d))
          (ap
              (λ (b : Text). record {
                buf = pre ++ b;
                pos = length pre + length a + length (print v);
              })
              (sym (append_assoc a (print v) rest))
            ∙ moved pre a (print v) rest))

  -- Next reads the field at its position, and stops right behind it.
  pub next_item :
      (i : Item) (pre rest : Text)
      → IsItem i
      → next pw (at pw pre (item_wire pw i ++ rest))
        ≡ (some (value_of pw i), at pw (pre ++ item_wire pw i) rest)
  unfolding item_wire
  next_item (text_item num v) pre rest h =
      let tag = pw.append_tag [] num bytes_type in
      ap (λ (t : Text). next pw (at pw pre t)) (append_assoc tag (pw.append_bytes [] v) rest)
      ∙ next_tag num bytes_type pre (pw.append_bytes [] v ++ rest) h.0 h.1
      ∙ read_bytes num v pre tag rest h.2
  next_item (number_item num v) pre rest h =
      let tag = pw.append_tag [] num varint_type in
      ap (λ (t : Text). next pw (at pw pre t)) (append_assoc tag (pw.append_varint [] v) rest)
      ∙ next_tag num varint_type pre (pw.append_varint [] v ++ rest) h.0 h.1
      ∙ unfold next_value in
        read_number num v varint_type (pw.append_varint []) pw.consume_varint pre tag rest
          (laws.varint_consumed v rest h.2)
  next_item (fixed32_item num v) pre rest h =
      let tag = pw.append_tag [] num fixed32_type in
      ap (λ (t : Text). next pw (at pw pre t)) (append_assoc tag (pw.append_fixed32 [] v) rest)
      ∙ next_tag num fixed32_type pre (pw.append_fixed32 [] v ++ rest) h.0 h.1
      ∙ unfold next_value in
        read_number num v fixed32_type (pw.append_fixed32 []) pw.consume_fixed32 pre tag rest
          (laws.fixed32_consumed v rest h.2)
  next_item (fixed64_item num v) pre rest h =
      let tag = pw.append_tag [] num fixed64_type in
      ap (λ (t : Text). next pw (at pw pre t)) (append_assoc tag (pw.append_fixed64 [] v) rest)
      ∙ next_tag num fixed64_type pre (pw.append_fixed64 [] v ++ rest) h.0 h.1
      ∙ unfold next_value in
        read_number num v fixed64_type (pw.append_fixed64 []) pw.consume_fixed64 pre tag rest
          (laws.fixed64_consumed v rest h.2)

  at_end : (pre : Text) → (next pw (at pw pre [])).0 ≡ none
  unfolding next
  at_end pre = rw inside refl
    where
      inside : leb (length (pre ++ [])) (length pre) ≡ true
      inside = ground (arith, length-append pre [])

  for_each-wire :
      {S : Type 0} (step : S → FieldValue → S) (is : List Item) (fuel : ℕ) (s : S) (pre : Text)
      → All IsItem is
      → length is < fuel
      → for_each pw step fuel s (at pw pre (wire pw is)) ≡ foldl step s (map (value_of pw) is)
  unfolding for_each wire
  for_each-wire step [] zero s pre h k = absurd (omega arith)
  for_each-wire step [] (suc fuel) s pre h k = rw (at_end pre, for_each) refl
  for_each-wire step (i ∷ is) zero s pre h k = absurd (omega arith)
  for_each-wire step (i ∷ is) (suc fuel) s pre h k =
      rw (next_item i pre (wire pw is) h.0, for_each)
        (ap
            (λ (r : Option FieldValue × Decoder).
              for_each pw step fuel (step s (value_of pw i)) r.1)
            (next_item i pre (wire pw is) h.0)
          ∙ for_each-wire step is fuel (step s (value_of pw i)) (pre ++ item_wire pw i) h.1
              (omega arith))

  length-wire : (is : List Item) → All IsItem is → length is ≤ length (wire pw is)
  unfolding wire item_wire
  length-wire [] h = omega arith
  length-wire (i ∷ is) h =
      omega (
        arith,
        length-append (item_wire pw i) (wire pw is),
        item_nonempty i h.0,
        length-wire is h.1,
      )
    where
      item_nonempty : (i : Item) → IsItem i → 0 < length (item_wire pw i)
      item_nonempty (text_item num v) p = omega (
        arith,
        length-append (pw.append_tag [] num bytes_type) (pw.append_bytes [] v),
        tag_nonempty num bytes_type p.0 p.1,
      )
      item_nonempty (number_item num v) p = omega (
        arith,
        length-append (pw.append_tag [] num varint_type) (pw.append_varint [] v),
        tag_nonempty num varint_type p.0 p.1,
      )
      item_nonempty (fixed32_item num v) p = omega (
        arith,
        length-append (pw.append_tag [] num fixed32_type) (pw.append_fixed32 [] v),
        tag_nonempty num fixed32_type p.0 p.1,
      )
      item_nonempty (fixed64_item num v) p = omega (
        arith,
        length-append (pw.append_tag [] num fixed64_type) (pw.append_fixed64 [] v),
        tag_nonempty num fixed64_type p.0 p.1,
      )

  pub decode-wire :
      {S : Type 0} (step : S → FieldValue → S) (s : S) (is : List Item)
      → All IsItem is
      → decode pw step s (wire pw is) ≡ foldl step s (map (value_of pw) is)
  unfolding decode new_decoder
  decode-wire step s is h =
      for_each-wire step is (suc (length (wire pw is))) s [] h (omega (arith, length-wire is h))
