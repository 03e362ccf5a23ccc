-- ===== src/Gcs/Ranges/Digits.antt =====
-- Decimal numbers in a header, as strconv.Itoa writes them and strconv.ParseInt reads them.

use kiri_gcp.Prelude.{
  ℕ, zero, suc, ◌+◌, ◌-◌, ◌*◌, ◌/◌, ◌%◌, ◌^◌, ◌<◌, ◌≤◌, ◌≡◌, refl, sym, ap, ◌∙◌, inl, inr, true,
  false, some, [], ◌∷◌, ◌++◌, arith, ltb, ◌==◌, length, All, subst, length-append, append-nil,
  Bool-cases,
}
use kiri_gcp.Text.{Text, str, text_eq, itoa, decimal}
use kiri_gcp.Text.Laws.{text_eq_refl}
use kiri_gcp.Gcs.Ranges.{cut, digits, parse_offset}

abbrev pub IsDigit : ℕ → Type 0
IsDigit c = (b'0' ≤ c) × (c ≤ b'9')

-- A text of digits that is not empty, with the number that it is.
pub record Prints (s : Text) (n : ℕ) : Type 0 where
  pub all_digits : All IsDigit s
  pub nonempty : 1 ≤ length s
  pub read : digits 0 s ≡ some n

digits-append :
    (s : Text) (a b c : ℕ)
    → digits a s ≡ some b
    → IsDigit c
    → digits a (s ++ c ∷ []) ≡ some (10 * b + (c - b'0'))
unfolding digits
digits-append [] a b c h d = ground arith
digits-append (x ∷ s) a b c h d = ground (arith, digits-append s (10 * a + (x - b'0')) b c)

All-snoc : (s : Text) (c : ℕ) → All IsDigit s → IsDigit c → All IsDigit (s ++ c ∷ [])
All-snoc [] c h d = (d, tt)
All-snoc (x ∷ s) c h d = (h.0, All-snoc s c h.1 d)

abbrev pow10 : ℕ → ℕ
pow10 zero = 1
pow10 (suc k) = 10 * pow10 k

one_digit : (n : ℕ) → n < 10 → Prints ((b'0' + n) ∷ []) n
unfolding digits
one_digit n h = record {
  all_digits = ((omega arith, omega arith), tt);
  nonempty = omega arith;
  read = ground arith;
}

more_digits :
    (s : Text) (b d : ℕ) → Prints s b → d < 10 → Prints (s ++ (b'0' + d) ∷ []) (10 * b + d)
more_digits s b d p h = record {
  all_digits = All-snoc s (b'0' + d) p.all_digits (omega arith, omega arith);
  nonempty = omega (arith, length-append s ((b'0' + d) ∷ []));
  read =
      digits-append s 0 b (b'0' + d) p.read (omega arith, omega arith)
      ∙ ap (λ (k : ℕ). some k) (omega arith);
}

decimal-Prints : (fuel n : ℕ) → n < pow10 (suc fuel) → Prints (decimal (suc fuel) n) n
unfolding decimal
decimal-Prints zero n h = rw small (one_digit n (omega arith))
  where
    small : ltb n 10 ≡ true
    small = ground arith
decimal-Prints (suc fuel) n h = elim (Bool-cases (ltb n 10)) [
  | inl e ↦ rw e (one_digit n (ground arith))
  | inr e ↦ rw e (
      subst (Prints (decimal (suc fuel) (n / 10) ++ (b'0' + n % 10) ∷ [])) whole (
        more_digits (decimal (suc fuel) (n / 10)) (n / 10) (n % 10)
          (decimal-Prints fuel (n / 10) (omega arith)) (omega arith)))
]
  where
    whole : 10 * (n / 10) + n % 10 ≡ n
    whole = omega arith

pub itoa-Prints : (n : ℕ) → n < 2 ^ 63 → Prints (itoa n) n
unfolding itoa
itoa-Prints n h = decimal-Prints 19 n (omega arith)

pub parse_offset-digits : (s : Text) (n : ℕ) → Prints s n → n < 2 ^ 63 → parse_offset s ≡ some n
unfolding parse_offset
parse_offset-digits [] n p h = absurd (omega (arith, p.nonempty))
parse_offset-digits (c ∷ s) n p h = rw (not_plus, not_minus, p.read, fits) refl
  where
    not_plus : (c == b'+') ≡ false
    not_plus = ground (arith, p.all_digits)

    not_minus : (c == b'-') ≡ false
    not_minus = ground (arith, p.all_digits)

    fits : ltb n (2 ^ 63) ≡ true
    fits = ground arith

abbrev pub Differs : ℕ → ℕ → Type 0
Differs b c = (c == b) ≡ false

-- The first separator is found.
pub cut_lem : (b : ℕ) (s rest : Text) → All (Differs b) s → cut b (s ++ b ∷ rest) ≡ some (s, rest)
unfolding cut
cut_lem b [] rest h = ground arith
cut_lem b (c ∷ s) rest h = rw (h.0, cut_lem b s rest h.1) refl

pub digits-Differs : (b : ℕ) (s : Text) → b < b'0' → All IsDigit s → All (Differs b) s
digits-Differs b [] k h = tt
digits-Differs b (c ∷ s) k h = (ground (arith, h.0), digits-Differs b s k h.1)

pub All-join : (P : ℕ → Type 0) (s t : Text) → All P s → All P t → All P (s ++ t)
All-join P [] t h k = k
All-join P (c ∷ s) t h k = (h.0, All-join P s t h.1 k)

pub digits_not_star : (s t : Text) (n : ℕ) → Prints s n → text_eq (s ++ t) (str "*") ≡ false
unfolding text_eq str
digits_not_star [] t n p = absurd (omega (arith, p.nonempty))
digits_not_star (c ∷ s) t n p = ground (arith, p.all_digits)

pub itoa_not_star : (n : ℕ) → n < 2 ^ 63 → text_eq (itoa n) (str "*") ≡ false
itoa_not_star n h =
    ap (λ (t : Text). text_eq t (str "*")) (sym (append-nil (itoa n)))
    ∙ digits_not_star (itoa n) [] n (itoa-Prints n h)

pub star_lem : text_eq (str "*") (str "*") ≡ true
star_lem = text_eq_refl (str "*")
