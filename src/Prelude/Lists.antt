-- ===== src/Prelude/Lists.antt =====
-- Lists measured by native numbers, filtered by Boolean tests, and their elements.
use Prim.Native.Nat.{ℕ, zero, suc, ◌+◌}
use mathlib.Core.Path.{◌≡◌, refl, ap}
use mathlib.Core.Logic.{◌↔◌, ◌⊎◌, inl, inr}
use mathlib.Core.Bool.{Bool, true}
use mathlib.Core.List.{List, [], ◌∷◌, ◌++◌}
use native.Mathlib.Omega.{arith}
use kiri_gcp.Prelude.Tests.{Bool-cases, if◌then◌else◌}

module _ {ℓ} {A : Type ℓ} where
  abbrev pub length : List A → ℕ
  length [] = 0
  length (x ∷ xs) = suc (length xs)

  pub length-append : (xs ys : List A) → length (xs ++ ys) ≡ length xs + length ys
  length-append [] ys = omega arith
  length-append (x ∷ xs) ys = omega (arith, length-append xs ys)

  abbrev pub take : ℕ → List A → List A
  take zero xs = []
  take (suc n) [] = []
  take (suc n) (x ∷ xs) = x ∷ take n xs

  abbrev pub drop : ℕ → List A → List A
  drop zero xs = xs
  drop (suc n) [] = []
  drop (suc n) (x ∷ xs) = drop n xs

  -- The elements that pass a test, in their order.
  abbrev pub keep : (A → Bool) → List A → List A
  keep p [] = []
  keep p (x ∷ xs) = let rest = keep p xs in if p x then x ∷ rest else rest

  abbrev pub All {κ} : (A → Type κ) → List A → Type κ
  All P [] = Unit
  All P (x ∷ xs) = P x × All P xs

module _ {A : Type 0} where
  -- A predicate by recursion, which the tactics take apart.
  abbrev pub Elem : A → List A → Type 0
  Elem a [] = ⊥
  Elem a (x ∷ xs) = (a ≡ x) ⊎ Elem a xs

  pub Elem-append : (a : A) (xs ys : List A) → Elem a (xs ++ ys) ↔ (Elem a xs ⊎ Elem a ys)
  Elem-append a [] ys = (λ h. inr h, λ h. elim h [ inl e ↦ absurd e | inr e ↦ e ])
  Elem-append a (x ∷ xs) ys = (
    λ h. elim h [
      | inl e ↦ inl (inl e)
      | inr e ↦ elim ((Elem-append a xs ys).0 e) [ inl f ↦ inl (inr f) | inr f ↦ inr f ]
    ],
    λ h. elim h [
      | inl (inl e) ↦ inl e
      | inl (inr e) ↦ inr ((Elem-append a xs ys).1 (inl e))
      | inr e ↦ inr ((Elem-append a xs ys).1 (inr e))
    ],
  )

  pub All-Elem {κ} : (P : A → Type κ) (xs : List A) → All P xs → (a : A) → Elem a xs → P a
  All-Elem P [] h a e = absurd e
  All-Elem P (x ∷ xs) h a (inl e) = rw e h.0
  All-Elem P (x ∷ xs) h a (inr e) = All-Elem P xs h.1 a e

  pub All-of_Elem {κ} : (P : A → Type κ) (xs : List A) → ((a : A) → Elem a xs → P a) → All P xs
  All-of_Elem P [] h = tt
  All-of_Elem P (x ∷ xs) h = (h x (inl refl), All-of_Elem P xs (λ a e. h a (inr e)))

  pub Elem-keep :
      (p : A → Bool) (a : A) (xs : List A) → Elem a (keep p xs) ↔ (Elem a xs × (p a ≡ true))
  Elem-keep p a [] = (λ h. absurd h, λ h. absurd h.0)
  Elem-keep p a (x ∷ xs) = elim (Bool-cases (p x)) [
    | inl t ↦ rw t (
      λ h. elim h [
        | inl e ↦ (inl e, rw e t)
        | inr e ↦ let r = (Elem-keep p a xs).0 e in (inr r.0, r.1)
      ],
      λ h. elim h.0 [ inl e ↦ inl e | inr e ↦ inr ((Elem-keep p a xs).1 (e, h.1)) ],
    )
    | inr f ↦ rw f (
      λ h. let r = (Elem-keep p a xs).0 h in (inr r.0, r.1),
      λ h. elim h.0 [ inl e ↦ cc (f, h.1, ap p e) | inr e ↦ (Elem-keep p a xs).1 (e, h.1) ],
    )
  ]

module _ {ℓ} {A : Type ℓ} where
  pub take-length_append : (xs ys : List A) → take (length xs) (xs ++ ys) ≡ xs
  take-length_append [] ys = refl
  take-length_append (x ∷ xs) ys = ap (λ t. x ∷ t) (take-length_append xs ys)

  pub drop-length_append : (xs ys : List A) → drop (length xs) (xs ++ ys) ≡ ys
  drop-length_append [] ys = refl
  drop-length_append (x ∷ xs) ys = drop-length_append xs ys
