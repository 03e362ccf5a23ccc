-- ===== src/Wire/Taken.antt =====
-- A message whose fields are known is decoded as if its steps ran over those fields.
use mathlib.Core.List.{foldl}
use kiri_gcp.Prelude.{◌≡◌, refl, ◌∙◌, List, [], ◌∷◌, ◌++◌, map, All}
use kiri_gcp.Wire.{Protowire, IsProtowire, FieldValue, decode}
use kiri_gcp.Wire.Fields.{Item, IsItem, wire, value_of, decode-wire}

pub All-append : (is js : List Item) → All IsItem (is ++ js) → All IsItem is × All IsItem js
All-append [] js h = (tt, h)
All-append (i ∷ is) js h = let (a, b) = All-append is js h.1 in ((h.0, a), b)

module _ (pw : Protowire) where
  -- The values of fields, taken one by one.
  unfoldable pub taken : {S : Type 0} → (S → FieldValue → S) → S → List Item → S
  taken step s [] = s
  taken step s (i ∷ is) = taken step (step s (value_of pw i)) is

module _ {pw : Protowire} (laws : IsProtowire pw) where
  foldl-taken :
      {S : Type 0} (step : S → FieldValue → S) (s : S) (is : List Item)
      → foldl step s (map (value_of pw) is) ≡ taken pw step s is
  unfolding taken
  foldl-taken step s [] = refl
  foldl-taken step s (i ∷ is) = foldl-taken step (step s (value_of pw i)) is

  pub taken_lem :
      {S : Type 0} (step : S → FieldValue → S) (s : S) (is : List Item)
      → All IsItem is
      → decode pw step s (wire pw is) ≡ taken pw step s is
  taken_lem step s is h = decode-wire laws step s is h ∙ foldl-taken step s is

  pub taken-append :
      {S : Type 0} (step : S → FieldValue → S) (s : S) (is js : List Item)
      → taken pw step s (is ++ js) ≡ taken pw step (taken pw step s is) js
  unfolding taken
  taken-append step s [] js = refl
  taken-append step s (i ∷ is) js = taken-append step (step s (value_of pw i)) is js
