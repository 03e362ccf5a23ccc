-- ===== src/Base64.antt =====
-- base64.StdEncoding of the library encoding/base64: EncodeToString, and the bytes that DecodeString
-- returns, also beside an error.

use kiri_gcp.Prelude.{
  ℕ, ◌+◌, ◌-◌, ◌*◌, ◌/◌, ◌%◌, ◌<◌, ◌≡◌, refl, ap, ◌∙◌, Bool, true, not, ◌&&◌, ◌||◌, Option, none,
  some, [], ◌∷◌, arith, ltb, leb, ◌==◌, if◌then◌else◌, keep, All,
}
use kiri_gcp.Text.{Text}

-- A-Z, a-z, 0-9, + and /
letter : ℕ → ℕ
letter v =
    if ltb v 26
    then b'A' + v
    else if ltb v 52
    then b'a' + (v - 26)
    else if ltb v 62
    then b'0' + (v - 52)
    else if v == 62
    then b'+'
    else b'/'

sextet : ℕ → Option ℕ
sextet c =
    if leb b'A' c && leb c b'Z'
    then some (c - b'A')
    else if leb b'a' c && leb c b'z'
    then some (c - b'a' + 26)
    else if leb b'0' c && leb c b'9'
    then some (c - b'0' + 52)
    else if c == b'+'
    then some 62
    else if c == b'/'
    then some 63
    else none

-- Three bytes are four letters, and a shorter end is padded.
unfoldable pub encode : Text → Text
unfolding letter
encode [] = []
encode (a ∷ []) = letter (a / 4) ∷ letter (a % 4 * 16) ∷ b'=' ∷ b'=' ∷ []
encode (a ∷ b ∷ []) =
    letter (a / 4) ∷ letter (a % 4 * 16 + b / 16) ∷ letter (b % 16 * 4) ∷ b'=' ∷ []
encode (a ∷ b ∷ c ∷ s) =
    letter (a / 4)
    ∷ letter (a % 4 * 16 + b / 16)
    ∷ letter (b % 16 * 4 + c / 64)
    ∷ letter (c % 64)
    ∷ encode s

-- The bytes of one group of four letters, and those of the rest; a group with an error has none.
group : Option ℕ → Option ℕ → Option ℕ → Option ℕ → ℕ → ℕ → Text → Text
group (some x) (some y) (some z) (some w) third fourth rest =
    (x * 4 + y / 16) ∷ (y % 16 * 16 + z / 4) ∷ (z % 4 * 64 + w) ∷ rest
group (some x) (some y) (some z) none third fourth rest =
    if fourth == b'=' then (x * 4 + y / 16) ∷ (y % 16 * 16 + z / 4) ∷ [] else []
group (some x) (some y) none o third fourth rest =
    if (third == b'=') && (fourth == b'=') then (x * 4 + y / 16) ∷ [] else []
group _ _ _ _ third fourth rest = []

decode_groups : Text → Text
unfolding group sextet
decode_groups (a ∷ b ∷ c ∷ d ∷ s) =
    group (sextet a) (sextet b) (sextet c) (sextet d) c d (decode_groups s)
decode_groups _ = []

abbrev no_break : ℕ → Bool
no_break c = not ((c == 10) || (c == 13))

-- Line breaks are passed over.
unfoldable pub decode : Text → Text
unfolding decode_groups
decode s = decode_groups (keep no_break s)

sextet-letter : (v : ℕ) → v < 64 → sextet (letter v) ≡ some v
unfolding sextet letter
sextet-letter v h = ground arith

no_break-letter : (v : ℕ) → no_break (letter v) ≡ true
unfolding letter
no_break-letter v = ground arith

decode_groups-encode : (t : Text) → All (λ b. b < 256) t → decode_groups (encode t) ≡ t
unfolding decode_groups encode group
decode_groups-encode [] h = refl
decode_groups-encode (a ∷ []) h =
    rw (sextet-letter (a / 4) (omega (arith, h.0)), sextet-letter (a % 4 * 16) (omega arith))
      (let p : a / 4 * 4 + a % 4 * 16 / 16 ≡ a = omega arith in ap (λ (x : ℕ). x ∷ []) p)
decode_groups-encode (a ∷ b ∷ []) h =
    rw
      (
        sextet-letter (a / 4) (omega (arith, h.0)),
        sextet-letter (a % 4 * 16 + b / 16) (omega (arith, h.1.0)),
        sextet-letter (b % 16 * 4) (omega arith),
      )
      (let p : a / 4 * 4 + (a % 4 * 16 + b / 16) / 16 ≡ a = omega (arith, h.1.0) in
        let q : (a % 4 * 16 + b / 16) % 16 * 16 + b % 16 * 4 / 4 ≡ b = omega (arith, h.1.0) in
        rw (p, q) refl)
decode_groups-encode (a ∷ b ∷ c ∷ s) h =
    rw
      (
        sextet-letter (a / 4) (omega (arith, h.0)),
        sextet-letter (a % 4 * 16 + b / 16) (omega (arith, h.1.0)),
        sextet-letter (b % 16 * 4 + c / 64) (omega (arith, h.1.1.0)),
        sextet-letter (c % 64) (omega arith),
      )
      (let p : a / 4 * 4 + (a % 4 * 16 + b / 16) / 16 ≡ a = omega (arith, h.1.0) in
        let q : (a % 4 * 16 + b / 16) % 16 * 16 + (b % 16 * 4 + c / 64) / 4 ≡ b =
          omega (arith, h.1.0, h.1.1.0) in
        let r : (b % 16 * 4 + c / 64) % 4 * 64 + c % 64 ≡ c = omega (arith, h.1.1.0) in
        rw (p, q, r, decode_groups-encode s h.1.1.1) refl)

keep-encode : (t : Text) → keep no_break (encode t) ≡ encode t
unfolding encode
keep-encode [] = refl
keep-encode (a ∷ []) = rw (no_break-letter (a / 4), no_break-letter (a % 4 * 16)) refl
keep-encode (a ∷ b ∷ []) =
    rw
      (no_break-letter (a / 4), no_break-letter (a % 4 * 16 + b / 16), no_break-letter (b % 16 * 4))
      refl
keep-encode (a ∷ b ∷ c ∷ s) =
    rw
      (
        no_break-letter (a / 4),
        no_break-letter (a % 4 * 16 + b / 16),
        no_break-letter (b % 16 * 4 + c / 64),
        no_break-letter (c % 64),
        keep-encode s,
      )
      refl

pub decode-encode : (t : Text) → All (λ b. b < 256) t → decode (encode t) ≡ t
unfolding decode
decode-encode t h = ap decode_groups (keep-encode t) ∙ decode_groups-encode t h
