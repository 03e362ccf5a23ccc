-- ===== src/Gcs/Ranges.antt =====
-- parseContentRange of internal/service/gcs/gcs.go: the header Content-Range of a resumable upload.
pub mod Digits
pub mod Printing
use kiri_gcp.Prelude.{
  ℕ, ◌+◌, ◌-◌, ◌*◌, ◌^◌, ◌≡◌, refl, Bool, true, false, ◌&&◌, Option, none, some, [], ◌∷◌, ◌++◌, ltb,
  leb, ◌==◌, drop, if◌then◌else◌,
}
use kiri_gcp.Text.{Text, str, text_eq, has_prefix}

-- `total` is none for -1, the size that the client does not know.
pub record ContentRange : Type 0 where
  pub start : ℕ
  pub total : Option ℕ
  pub query : Bool
  pub last : Bool

pub data ParsedRange : Type 0 where
  bad_range : (error : Text) → ParsedRange
  good_range : ContentRange → ParsedRange

abbrev cut_more : ℕ → Option (Text × Text) → Option (Text × Text)
cut_more c none = none
cut_more c (some (front, back)) = some (c ∷ front, back)

-- strings.Cut at a byte; none where it is missing.
unfoldable pub cut : ℕ → Text → Option (Text × Text)
cut b [] = none
cut b (c ∷ s) = let rest = cut_more c (cut b s) in if c == b then some ([], s) else rest

-- The value of decimal digits behind those that make `n`.
unfoldable pub digits : ℕ → Text → Option ℕ
digits n [] = some n
digits n (c ∷ s) =
    let more = digits (10 * n + (c - b'0')) s in if leb b'0' c && leb c b'9' then more else none

abbrev one_or_more : Text → Option ℕ
one_or_more [] = none
one_or_more (c ∷ s) = digits 0 (c ∷ s)

abbrev below : ℕ → Option ℕ → Option ℕ
below m none = none
below m (some n) = if ltb n m then some n else none

-- n, err := strconv.ParseInt(s, 10, 64); err != nil || n < 0 is none.
unfoldable pub parse_offset : Text → Option ℕ
parse_offset [] = none
parse_offset (c ∷ s) =
    if c == b'+'
    then below (2 ^ 63) (one_or_more s)
    else if c == b'-'
    then below 1 (one_or_more s)
    else below (2 ^ 63) (one_or_more (c ∷ s))

module _ (quote : Text → Text) where
  unsupported : Text → ParsedRange
  unsupported header = bad_range (str "unsupported Content-Range " ++ quote header)

  unfoldable pub parse_start : Text → Text → Option ℕ → Option ℕ → ParsedRange
  parse_start header end total none =
      bad_range (str "invalid Content-Range start in " ++ quote header)
  parse_start header end total (some start) =
      good_range
        (record { start = start; total = total; query = false; last = text_eq end (str "*") })

  unfoldable pub parse_bounds : Text → Option ℕ → Option (Text × Text) → ParsedRange
  unfolding unsupported parse_start
  parse_bounds header total none = unsupported header
  parse_bounds header total (some (first, end)) = parse_start header end total (parse_offset first)

  -- What follows the size.
  unfoldable pub parse_span : Text → Text → Option ℕ → ParsedRange
  unfolding parse_bounds
  parse_span header span total =
      if text_eq span (str "*")
      then good_range (record { start = 0; total = total; query = true; last = false })
      else parse_bounds header total (cut b'-' span)

  unfoldable pub parse_size : Text → Text → Option ℕ → ParsedRange
  unfolding parse_span
  parse_size header span none = bad_range (str "invalid Content-Range size in " ++ quote header)
  parse_size header span (some n) = parse_span header span (some n)

  unfoldable pub parse_spec : Text → Option (Text × Text) → ParsedRange
  unfolding unsupported parse_size
  parse_spec header none = unsupported header
  parse_spec header (some (span, size)) =
      if text_eq size (str "*")
      then parse_span header span none
      else parse_size header span (parse_offset size)

  unfoldable pub parse_content_range : Text → ParsedRange
  unfolding parse_spec
  parse_content_range header =
      if text_eq header []
      then good_range (record { start = 0; total = none; query = false; last = true })
      else if has_prefix header (str "bytes ")
      then parse_spec header (cut b'/' (drop 6 header))
      else unsupported header

chunk_test :
    parse_content_range (λ t. t) (str "bytes 256-511/1024")
    ≡ good_range (record { start = 256; total = some 1024; query = false; last = false })
unfolding parse_content_range str parse_offset digits cut text_eq has_prefix
chunk_test = refl
