-- ===== src/Http/Identifiers.antt =====
-- Generated identifiers: what ID and NumericID of internal/httpx/httpx.go can return.
use kiri_gcp.Prelude.{
  ℕ, zero, suc, ◌+◌, ◌*◌, ◌/◌, ◌%◌, ◌≤◌, ◌<◌, ◌≡◌, refl, ◌⊎◌, List, [], ◌∷◌, arith, length,
  length-append, All,
}
use kiri_gcp.Text.{itoa, decimal}
use kiri_gcp.Http.{id, hex_encode, hex_digit, numeric_value, numeric_id}

abbrev pub IsByte : ℕ → Type 0
IsByte b = b < 256

-- 0-9 or a-f
abbrev pub IsLowerHex : ℕ → Type 0
IsLowerHex c = ((b'0' ≤ c) × (c ≤ b'9')) ⊎ ((b'a' ≤ c) × (c ≤ b'f'))

hex_digit-IsLowerHex : (d : ℕ) → d < 16 → IsLowerHex (hex_digit d)
hex_digit-IsLowerHex d h = ground arith

hex_encode-IsLowerHex : (bs : List ℕ) → All IsByte bs → All IsLowerHex (hex_encode bs)
unfolding hex_encode
hex_encode-IsLowerHex [] h = tt
hex_encode-IsLowerHex (b ∷ bs) h = (
  hex_digit-IsLowerHex (b / 16) (omega arith),
  (hex_digit-IsLowerHex (b % 16) (omega arith), hex_encode-IsLowerHex bs h.1),
)

length-hex_encode : (bs : List ℕ) → length (hex_encode bs) ≡ 2 * length bs
unfolding hex_encode
length-hex_encode [] = omega arith
length-hex_encode (b ∷ bs) = omega (arith, length-hex_encode bs)

hex_digit-injective : (d e : ℕ) → d < 16 → e < 16 → hex_digit d ≡ hex_digit e → d ≡ e
hex_digit-injective d e h k p = ground arith

hex_encode-injective :
    (bs cs : List ℕ) → All IsByte bs → All IsByte cs → hex_encode bs ≡ hex_encode cs → bs ≡ cs
unfolding hex_encode
hex_encode-injective [] [] h k p = refl
hex_encode-injective [] (c ∷ cs) h k p = cc
hex_encode-injective (b ∷ bs) [] h k p = cc
hex_encode-injective (b ∷ bs) (c ∷ cs) h k p =
    let high = hex_digit-injective (b / 16) (c / 16) (omega arith) (omega arith) (cc) in
    let low = hex_digit-injective (b % 16) (c % 16) (omega arith) (omega arith) (cc) in
    let e : b ≡ c = omega arith in cc (e, hex_encode-injective bs cs h.1 k.1 (cc))

-- An id of n random bytes has 2n characters, each a lower-case hexadecimal digit.
pub id_shape :
    (bs : List ℕ) → All IsByte bs → (length (id bs) ≡ 2 * length bs) × All IsLowerHex (id bs)
unfolding id
id_shape bs h = (length-hex_encode bs, hex_encode-IsLowerHex bs h)

-- Two ids are equal only if they were made from the same bytes.
pub id_injective : (bs cs : List ℕ) → All IsByte bs → All IsByte cs → id bs ≡ id cs → bs ≡ cs
unfolding id
id_injective = hex_encode-injective

abbrev pow10 : ℕ → ℕ
pow10 zero = 1
pow10 (suc k) = 10 * pow10 k

length-decimal :
    (fuel k n : ℕ)
    → k < fuel
    → (1 ≤ k → pow10 k ≤ n)
    → n < pow10 (suc k)
    → length (decimal fuel n) ≡ suc k
unfolding decimal
length-decimal zero k n f lo hi = absurd (omega arith)
length-decimal (suc fuel) zero n f lo hi = ground arith
length-decimal (suc fuel) (suc k) n f lo hi =
    let ih = length-decimal fuel k (n / 10) (omega arith) (λ _. omega arith) (omega arith) in
    ground (arith, ih, length-append (decimal fuel (n / 10)) ((b'0' + n % 10) ∷ []))

-- Whatever the random bytes, a numeric id is that of a number from 100000000000 to 999999999999,
-- so it always has exactly twelve digits.
pub numeric_id_digits :
    (bytes : List ℕ)
    → (100000000000 ≤ numeric_value bytes)
      × (numeric_value bytes < 1000000000000)
      × (length (numeric_id bytes) ≡ 12)
unfolding numeric_value numeric_id itoa
numeric_id_digits bytes = (
  omega arith,
  omega arith,
  length-decimal 20 11 (numeric_value bytes) (omega arith) (λ _. omega arith) (omega arith),
)
