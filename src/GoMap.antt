-- ===== src/GoMap.antt =====
-- A Go map with string keys, as an association list. The order of the list is the order in which
-- one `range` over the map happens to run: the laws below it are about `get` alone, and what a
-- handler answers is shown not to depend on that order.
pub mod Laws
pub mod Sorted
use kiri_gcp.Prelude.{
  ◌≡◌, Bool, true, false, Option, none, some, List, [], ◌∷◌, map, is_some, if◌then◌else◌, keep,
}
use kiri_gcp.Text.{Text, text_eq}

abbrev pub GoMap {ℓ} : Type ℓ → Type ℓ
GoMap V = List (Text × V)

module _ {ℓ} {V : Type ℓ} where
  -- v, ok := m[k]
  unfoldable pub get : Text → GoMap V → Option V
  get k [] = none
  get k ((j, v) ∷ m) = if text_eq j k then some v else get k m

  -- m[k] = v
  unfoldable pub put : Text → V → GoMap V → GoMap V
  put k v [] = (k, v) ∷ []
  put k v ((j, w) ∷ m) = if text_eq j k then (k, v) ∷ m else (j, w) ∷ put k v m

  -- delete(m, k)
  unfoldable pub delete : Text → GoMap V → GoMap V
  delete k [] = []
  delete k ((j, w) ∷ m) = let rest = delete k m in if text_eq j k then rest else (j, w) ∷ rest

  -- _, ok := m[k]
  abbrev pub has : Text → GoMap V → Bool
  has k m = is_some (get k m)

  -- The keys in the order of a `range`.
  unfoldable pub keys : GoMap V → List Text
  keys [] = []
  keys ((j, w) ∷ m) = j ∷ keys m

  -- A map holds a key once.
  abbrev pub IsUnique : GoMap V → Type ℓ
  IsUnique [] = Unit
  IsUnique ((j, w) ∷ m) = (get j m ≡ none) × IsUnique m
