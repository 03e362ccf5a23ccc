-- ===== src/Sort.antt =====
-- sort.Strings and sort.Slice. The comparison is a strict order in which two distinct elements are
-- always comparable, so the sorted list is determined by its elements: this insertion sort gives
-- the list that the library's sort gives.
pub mod Laws
use kiri_gcp.Prelude.{Bool, true, false, List, [], ◌∷◌, ◌≡◌, if◌then◌else◌, All}
use kiri_gcp.Text.{Text, text_lt}

module _ {A : Type 0} (less : A → A → Bool) where
  insert_by : A → List A → List A
  insert_by x [] = x ∷ []
  insert_by x (y ∷ ys) = if less y x then y ∷ insert_by x ys else x ∷ y ∷ ys

  -- sort.Slice(xs, less)
  unfoldable pub sort_slice : List A → List A
  unfolding insert_by
  sort_slice [] = []
  sort_slice (x ∷ xs) = insert_by x (sort_slice xs)

  -- Each element is less than all that stand behind it.
  abbrev pub IsSorted : List A → Type 0
  IsSorted [] = Unit
  IsSorted (x ∷ xs) = All (λ y. less x y ≡ true) xs × IsSorted xs

  -- A strict order of the elements that satisfy `P`, any two of which are comparable.
  pub record IsStrictOrder (P : A → Type 0) : Type 0 where
    pub irrefl : (a : A) → less a a ≡ false
    pub trans : (a b c : A) → less a b ≡ true → less b c ≡ true → less a c ≡ true
    pub connected : (a b : A) → P a → P b → less a b ≡ false → less b a ≡ false → a ≡ b

-- sort.Strings(xs)
abbrev pub sort_strings : List Text → List Text
sort_strings xs = sort_slice text_lt xs
