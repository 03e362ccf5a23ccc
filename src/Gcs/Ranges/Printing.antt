-- ===== src/Gcs/Ranges/Printing.antt =====
-- The header Content-Range as the clients print it, and what parseContentRange reads from it.

use kiri_gcp.Prelude.{
  ℕ, ◌^◌, ◌<◌, ◌≡◌, refl, ap, ◌∙◌, true, false, Option, none, some, [], ◌∷◌, ◌++◌, arith, All, drop,
}
use kiri_gcp.Text.{Text, str, text_eq, itoa}
use kiri_gcp.Text.Laws.{has_prefix-append}
use kiri_gcp.Gcs.Ranges.{
  ContentRange, good_range, cut, parse_start, parse_bounds, parse_span, parse_size, parse_spec,
  parse_content_range,
}
use kiri_gcp.Gcs.Ranges.Digits.{
  Differs, digits-Differs, All-join, cut_lem, parse_offset-digits, itoa-Prints, digits_not_star,
  itoa_not_star, star_lem,
}

-- The size of an object, or the star of a client that does not know it.
unfoldable pub print_size : Option ℕ → Text
print_size none = str "*"
print_size (some n) = itoa n

-- The forms of the header that the comment on resumeUpload names: a chunk with its first and its last
-- offset, the rest of the stream, and a status check.
pub data RangeForm : Type 0 where
  chunk_form : (first final : ℕ) (total : Option ℕ) → RangeForm
  rest_form : (first : ℕ) (total : Option ℕ) → RangeForm
  status_form : (total : Option ℕ) → RangeForm

unfoldable pub print_span : RangeForm → Text
print_span (chunk_form first final total) = itoa first ++ b'-' ∷ itoa final
print_span (rest_form first total) = itoa first ++ b'-' ∷ str "*"
print_span (status_form total) = str "*"

abbrev pub form_total : RangeForm → Option ℕ
form_total (chunk_form first final total) = total
form_total (rest_form first total) = total
form_total (status_form total) = total

unfoldable pub print_range : RangeForm → Text
print_range f = str "bytes " ++ (print_span f ++ b'/' ∷ print_size (form_total f))

abbrev pub range_of : RangeForm → ContentRange
range_of (chunk_form first final total) = record {
  start = first;
  total = total;
  query = false;
  last = false;
}
range_of (rest_form first total) = record {
  start = first;
  total = total;
  query = false;
  last = true;
}
range_of (status_form total) = record { start = 0; total = total; query = true; last = false }

abbrev FitsSize : Option ℕ → Type 0
FitsSize none = Unit
FitsSize (some n) = n < 2 ^ 63

-- Each number is below 2^63.
abbrev pub FitsForm : RangeForm → Type 0
FitsForm (chunk_form first final total) = (first < 2 ^ 63) × (final < 2 ^ 63) × FitsSize total
FitsForm (rest_form first total) = (first < 2 ^ 63) × FitsSize total
FitsForm (status_form total) = FitsSize total

span-Differs : (f : RangeForm) → FitsForm f → All (Differs b'/') (print_span f)
unfolding print_span str
span-Differs (chunk_form first final total) (p, q, _) =
    All-join (Differs b'/') (itoa first) (b'-' ∷ itoa final)
      (digits-Differs b'/' (itoa first) (omega arith) (itoa-Prints first p).all_digits)
      (refl, digits-Differs b'/' (itoa final) (omega arith) (itoa-Prints final q).all_digits)
span-Differs (rest_form first total) (p, _) =
    All-join (Differs b'/') (itoa first) (b'-' ∷ str "*")
      (digits-Differs b'/' (itoa first) (omega arith) (itoa-Prints first p).all_digits)
      (refl, (refl, tt))
span-Differs (status_form total) h = (refl, tt)

module _ (quote : Text → Text) where
  bytes_lem :
      (t : Text)
      → parse_content_range quote (str "bytes " ++ t)
        ≡ parse_spec quote (str "bytes " ++ t) (cut b'/' t)
  unfolding parse_content_range
  bytes_lem t = rw (filled, has_prefix-append (str "bytes ") t, dropped) refl
    where
      filled : text_eq (str "bytes " ++ t) [] ≡ false
      filled = unfold str text_eq in refl

      dropped : drop 6 (str "bytes " ++ t) ≡ t
      dropped = unfold str in refl

  parse_span_lem :
      (header : Text) (f : RangeForm)
      → FitsForm f
      → parse_span quote header (print_span f) (form_total f) ≡ good_range (range_of f)
  unfolding parse_span parse_bounds parse_start print_span
  parse_span_lem header (chunk_form first final total) (p, q, _) =
      rw
        (
          digits_not_star (itoa first) (b'-' ∷ itoa final) first (itoa-Prints first p),
          cut_lem b'-' (itoa first) (itoa final)
              (digits-Differs b'-' (itoa first) (omega arith) (itoa-Prints first p).all_digits),
          parse_offset-digits (itoa first) first (itoa-Prints first p) p,
        )
        (rw (itoa_not_star final q) refl)
  parse_span_lem header (rest_form first total) (p, _) =
      rw
        (
          digits_not_star (itoa first) (b'-' ∷ str "*") first (itoa-Prints first p),
          cut_lem b'-' (itoa first) (str "*")
              (digits-Differs b'-' (itoa first) (omega arith) (itoa-Prints first p).all_digits),
          parse_offset-digits (itoa first) first (itoa-Prints first p) p,
        )
        (rw star_lem refl)
  parse_span_lem header (status_form total) h = rw star_lem refl

  parse_size_lem :
      (header span : Text) (total : Option ℕ)
      → FitsSize total
      → parse_spec quote header (some (span, print_size total)) ≡ parse_span quote header span total
  unfolding parse_spec parse_size print_size
  parse_size_lem header span none h = rw star_lem refl
  parse_size_lem header span (some n) h =
      rw (itoa_not_star n h, parse_offset-digits (itoa n) n (itoa-Prints n h) h) refl

  form_size : (f : RangeForm) → FitsForm f → FitsSize (form_total f)
  form_size (chunk_form first final total) (_, _, k) = k
  form_size (rest_form first total) (_, k) = k
  form_size (status_form total) k = k

  -- Each form of Content-Range that a client prints is read as the range that it stands for, where
  -- its numbers are below 2^63.
  pub parse_content_range-print_range :
      (f : RangeForm)
      → FitsForm f
      → parse_content_range quote (print_range f) ≡ good_range (range_of f)
  unfolding print_range
  parse_content_range-print_range f h =
      bytes_lem (print_span f ++ b'/' ∷ print_size (form_total f))
      ∙ ap (parse_spec quote (print_range f))
          (cut_lem b'/' (print_span f) (print_size (form_total f)) (span-Differs f h))
      ∙ parse_size_lem (print_range f) (print_span f) (form_total f) (form_size f h)
      ∙ parse_span_lem (print_range f) f h
