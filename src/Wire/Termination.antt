-- ===== src/Wire/Termination.antt =====
-- The loops over a decoder of internal/protow end on all bytes, also on those that are no message.
use kiri_gcp.Prelude.{
  ℕ, zero, suc, ◌+◌, ◌<◌, ◌≤◌, ◌≡◌, refl, sym, ap, ◌∙◌, inl, inr, Option, none, some, arith, leb,
  length, Option-cases, Bool-cases,
}
use kiri_gcp.Text.{Text}
use kiri_gcp.Wire.{
  WireType, varint_type, fixed32_type, fixed64_type, bytes_type, start_group_type, end_group_type,
  Protowire, IsProtowire, Decoder, FieldValue, new_decoder, number_value, bytes_value, next_value,
  next_tagged, next, for_each, decode, rest_of, advance,
}

-- A step from one decoder to another that reads the same bytes from further on.
abbrev Advances : Decoder → Decoder → Type 0
Advances d e = (d.pos ≤ e.pos) × (e.buf ≡ d.buf)

module _ {pw : Protowire} (laws : IsProtowire pw) where
  number_value-Advances :
      (num : ℕ) (t : WireType) (print : ℕ → Text) (o : Option (ℕ × ℕ)) (d : Decoder)
      → Advances d (number_value pw num t print o d).1
  unfolding number_value
  number_value-Advances num t print none d = (omega arith, refl)
  number_value-Advances num t print (some (v, n)) d = (omega arith, refl)

  bytes_value-Advances :
      (num : ℕ) (o : Option (Text × ℕ)) (d : Decoder) → Advances d (bytes_value pw num o d).1
  unfolding bytes_value
  bytes_value-Advances num none d = (omega arith, refl)
  bytes_value-Advances num (some (v, n)) d = (omega arith, refl)

  next_value-Advances :
      (num : ℕ) (t : WireType) (d : Decoder) → Advances d (next_value pw num t d).1
  unfolding next_value
  next_value-Advances num varint_type d = number_value-Advances num varint_type _ _ d
  next_value-Advances num fixed64_type d = number_value-Advances num fixed64_type _ _ d
  next_value-Advances num fixed32_type d = number_value-Advances num fixed32_type _ _ d
  next_value-Advances num bytes_type d = bytes_value-Advances num _ d
  next_value-Advances num start_group_type d = (omega arith, refl)
  next_value-Advances num end_group_type d = (omega arith, refl)

  next_tagged-Advances :
      (o : Option (ℕ × WireType × ℕ)) (d : Decoder) (f : FieldValue)
      → pw.consume_tag (rest_of pw d) ≡ o
      → (next_tagged pw o d).0 ≡ some f
      → (d.pos < (next_tagged pw o d).1.pos) × ((next_tagged pw o d).1.buf ≡ d.buf)
  unfolding next_tagged
  next_tagged-Advances none d f e k = cc
  next_tagged-Advances (some (num, t, n)) d f e k =
      let (far, same) = next_value-Advances num t (advance pw n d) in
      (omega (arith, far, laws.tag_size (rest_of pw d) num n t e), same)

  next-Advances :
      (d : Decoder) (f : FieldValue)
      → (next pw d).0 ≡ some f
      → (d.pos < length d.buf) × (d.pos < (next pw d).1.pos) × ((next pw d).1.buf ≡ d.buf)
  unfolding next
  next-Advances d f = elim (Bool-cases (leb (length d.buf) d.pos)) [
    | inl e ↦ rw e λ k. cc
    | inr e ↦ rw e λ k.
        let (far, same) = next_tagged-Advances (pw.consume_tag (rest_of pw d)) d f refl k in
        (ground arith, far, same)
  ]

  module _ {S : Type 0} (step : S → FieldValue → S) where
    for_each_ended :
        (fuel : ℕ) (s : S) (d : Decoder) → (next pw d).0 ≡ none → for_each pw step fuel s d ≡ s
    unfolding for_each
    for_each_ended zero s d e = refl
    for_each_ended (suc fuel) s d e = rw (e, for_each) refl

    next_ended : (d : Decoder) → length d.buf ≤ d.pos → (next pw d).0 ≡ none
    next_ended d h = elim (Option-cases (next pw d).0) [
      | inl e ↦ e
      | inr (f, e) ↦ let (inside, _, _) = next-Advances d f e in absurd (omega arith)
    ]

    for_each_enough :
        (fuel enough : ℕ) (s : S) (d : Decoder)
        → length d.buf < d.pos + fuel
        → length d.buf < d.pos + enough
        → for_each pw step fuel s d ≡ for_each pw step enough s d
    unfolding for_each
    for_each_enough zero enough s d h k =
        sym (for_each_ended enough s d (next_ended d (omega arith)))
    for_each_enough (suc fuel) zero s d h k =
        for_each_ended (suc fuel) s d (next_ended d (omega arith))
    for_each_enough (suc fuel) (suc enough) s d h k = elim (Option-cases (next pw d).0) [
      | inl e ↦ for_each_ended (suc fuel) s d e ∙ sym (for_each_ended (suc enough) s d e)
      | inr (f, e) ↦
          let (inside, far, same) = next-Advances d f e in
          let n : length (next pw d).1.buf ≡ length d.buf = ap length same in
          rw (e, for_each)
            (for_each_enough fuel enough (step s f) (next pw d).1 (omega (arith, n))
              (omega (arith, n)))
    ]

  -- Whatever the bytes, also where they are no message, the loop over a decoder ends by itself: with
  -- every fuel above the number of bytes it gives the same result, that of `decode`.
  pub for_each-decode :
      {S : Type 0} (step : S → FieldValue → S) (s : S) (raw : Text) (fuel : ℕ)
      → length raw < fuel
      → for_each pw step fuel s (new_decoder raw) ≡ decode pw step s raw
  unfolding decode new_decoder
  for_each-decode step s raw fuel h =
      for_each_enough step fuel (suc (length raw)) s (new_decoder raw)
        (unfold new_decoder in omega arith) (unfold new_decoder in omega arith)
