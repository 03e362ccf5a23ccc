-- ===== src/Text/Laws.antt =====
-- The tests on strings agree with equality, and `<` is a strict order of the strings.
use kiri_gcp.Prelude.{
  ℕ, ◌≡◌, refl, ◌≢◌, ◌↔◌, inl, inr, true, false, [], ◌∷◌, ◌++◌, arith, ◌==◌, Bool-cases,
}
use kiri_gcp.Text.{Text, text_eq, text_lt, has_prefix, has_byte}

pub text_eq_iff : (a b : Text) → (text_eq a b ≡ true) ↔ (a ≡ b)
unfolding text_eq
text_eq_iff [] [] = (λ h. refl, λ h. refl)
text_eq_iff [] (y ∷ b) = (λ h. cc, λ h. cc)
text_eq_iff (x ∷ a) [] = (λ h. cc, λ h. cc)
text_eq_iff (x ∷ a) (y ∷ b) = ground (arith, text_eq_iff a b)

pub text_eq_refl : (a : Text) → text_eq a a ≡ true
text_eq_refl a = (text_eq_iff a a).1 refl

pub text_eq-false : (a b : Text) → a ≢ b → text_eq a b ≡ false
text_eq-false a b h = elim (Bool-cases (text_eq a b)) [
  | inl e ↦ absurd (h ((text_eq_iff a b).0 e))
  | inr e ↦ e
]

pub text_lt_irrefl : (a : Text) → text_lt a a ≡ false
unfolding text_lt
text_lt_irrefl [] = refl
text_lt_irrefl (x ∷ a) = ground (arith, text_lt_irrefl a)

pub text_lt_trans : (a b c : Text) → text_lt a b ≡ true → text_lt b c ≡ true → text_lt a c ≡ true
unfolding text_lt
text_lt_trans [] [] c h k = cc
text_lt_trans [] (y ∷ b) [] h k = cc
text_lt_trans [] (y ∷ b) (z ∷ c) h k = refl
text_lt_trans (x ∷ a) [] c h k = cc
text_lt_trans (x ∷ a) (y ∷ b) [] h k = cc
text_lt_trans (x ∷ a) (y ∷ b) (z ∷ c) h k = ground (arith, text_lt_trans a b c)

-- Two strings neither of which is less are equal.
pub text_lt_connected : (a b : Text) → text_lt a b ≡ false → text_lt b a ≡ false → a ≡ b
unfolding text_lt
text_lt_connected [] [] h k = refl
text_lt_connected [] (y ∷ b) h k = cc
text_lt_connected (x ∷ a) [] h k = cc
text_lt_connected (x ∷ a) (y ∷ b) h k = ground (arith, text_lt_connected a b)

pub has_prefix-append : (p s : Text) → has_prefix (p ++ s) p ≡ true
unfolding has_prefix
has_prefix-append [] s = refl
has_prefix-append (c ∷ p) s = ground (arith, has_prefix-append p s)

-- A text with a prefix is the prefix and a rest.
pub has_prefix_rest : (s p : Text) → has_prefix s p ≡ true → (rest : Text) × (s ≡ p ++ rest)
unfolding has_prefix
has_prefix_rest s [] h = (s, refl)
has_prefix_rest [] (c ∷ p) h = cc
has_prefix_rest (d ∷ s) (c ∷ p) h = elim (Bool-cases (d == c)) [
  | inl e ↦ let r = has_prefix_rest s p (rw e at h) in (r.0, ground (arith, r.1))
  | inr e ↦ cc
]

pub append_cancel_left : (p s t : Text) → p ++ s ≡ p ++ t → s ≡ t
append_cancel_left [] s t h = h
append_cancel_left (c ∷ p) s t h = append_cancel_left p s t (cc)

-- Where neither front part has the separator, the parts are determined.
pub append_sep_injective :
    (b : ℕ) (p q s t : Text)
    → has_byte b p ≡ false
    → has_byte b q ≡ false
    → p ++ b ∷ s ≡ q ++ b ∷ t
    → (p ≡ q) × (s ≡ t)
unfolding has_byte
append_sep_injective b [] [] s t hp hq e = ground (arith)
append_sep_injective b [] (d ∷ q) s t hp hq e = ground (arith)
append_sep_injective b (c ∷ p) [] s t hp hq e = ground (arith)
append_sep_injective b (c ∷ p) (d ∷ q) s t hp hq e = ground (arith, append_sep_injective b p q s t)
