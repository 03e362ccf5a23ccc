-- ===== src/Text.antt =====
-- Go strings as lists of bytes, with the operations of the packages `strings` and `fmt` that the
-- services call. A literal is written `str "…"`; the literals of the source are ASCII.
pub mod Laws
use mathlib.Core.List.{reverse}
use Prim.Native.Char.{code}
use kiri_gcp.Prelude.{
  ℕ, suc, ◌+◌, ◌-◌, ◌/◌, ◌%◌, String, ◌≡◌, refl, Bool, true, false, ◌&&◌, ◌||◌, Option, none, some,
  List, [], ◌∷◌, ◌++◌, map, ltb, leb, ◌==◌, if◌then◌else◌,
}

abbrev pub Text : Type 0
Text = List ℕ

-- The bytes of an ASCII literal.
unfoldable pub str : String → Text
str String.[] = []
str (String.◌∷◌ c s) = code c ∷ str s

-- `a == b` of two strings.
unfoldable pub text_eq : Text → Text → Bool
text_eq [] [] = true
text_eq (x ∷ xs) (y ∷ ys) = if x == y then text_eq xs ys else false
text_eq _ _ = false

-- `a < b` of two strings: bytewise, and a proper prefix comes first.
unfoldable pub text_lt : Text → Text → Bool
text_lt _ [] = false
text_lt [] (y ∷ ys) = true
text_lt (x ∷ xs) (y ∷ ys) =
    let rest = text_lt xs ys in if ltb x y then true else if x == y then rest else false

-- strings.HasPrefix
unfoldable pub has_prefix : Text → Text → Bool
has_prefix s [] = true
has_prefix [] (p ∷ ps) = false
has_prefix (c ∷ s) (p ∷ ps) = if c == p then has_prefix s ps else false

-- strings.ContainsRune for a byte.
unfoldable pub has_byte : ℕ → Text → Bool
has_byte b [] = false
has_byte b (c ∷ s) = if c == b then true else has_byte b s

abbrev lower_byte : ℕ → ℕ
lower_byte c = if leb b'A' c && leb c b'Z' then c + 32 else c

abbrev upper_byte : ℕ → ℕ
upper_byte c = if leb b'a' c && leb c b'z' then c - 32 else c

-- strings.ToLower and strings.ToUpper on ASCII text.
unfoldable pub to_lower : Text → Text
to_lower = map lower_byte

unfoldable pub to_upper : Text → Text
to_upper = map upper_byte

-- strings.EqualFold on ASCII text.
unfoldable pub equal_fold : Text → Text → Bool
unfolding to_lower text_eq
equal_fold a b = text_eq (to_lower a) (to_lower b)

-- A tab, a line break or a space.
abbrev is_space : ℕ → Bool
is_space c = (c == 32) || (leb 9 c && leb c 13)

unfoldable pub trim_left : Text → Text
trim_left [] = []
trim_left (c ∷ s) = let rest = trim_left s in if is_space c then rest else c ∷ s

-- strings.TrimSpace on ASCII text.
unfoldable pub trim_space : Text → Text
unfolding trim_left
trim_space s = reverse (trim_left (reverse (trim_left s)))

-- strings.Split at a one-byte separator: one piece more than there are separators.
unfoldable pub split_at : ℕ → Text → Text → List Text
split_at b piece [] = piece ∷ []
split_at b piece (c ∷ s) =
    let next = split_at b [] s in
    let more = split_at b (piece ++ c ∷ []) s in if c == b then piece ∷ next else more

unfoldable pub split : Text → ℕ → List Text
unfolding split_at
split s b = split_at b [] s

-- strings.Join with the empty separator.
unfoldable pub join : List Text → Text
join [] = []
join (p ∷ ps) = p ++ join ps

-- strconv.Itoa of a number that is not negative: its decimal digits. Every number below 10 ^ fuel
-- is written whole.
unfoldable pub decimal : ℕ → ℕ → Text
decimal ℕ.zero n = []
decimal (suc fuel) n =
    let front = decimal fuel (n / 10) in
    if ltb n 10 then (b'0' + n) ∷ [] else front ++ (b'0' + n % 10) ∷ []

-- A 64-bit number has at most 20 digits.
unfoldable pub itoa : ℕ → Text
unfolding decimal
itoa n = decimal 20 n

split_test : split (str "a_b__c") b'_' ≡ str "a" ∷ str "b" ∷ [] ∷ str "c" ∷ []
unfolding split str
split_test = refl

itoa_test : itoa 1206 ≡ str "1206"
unfolding itoa str
itoa_test = refl
