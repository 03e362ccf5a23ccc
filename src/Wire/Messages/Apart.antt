-- ===== src/Wire/Messages/Apart.antt =====
-- Two maps without a common key: putting the entries of one into the other adds them at its end.
use kiri_gcp.Prelude.{◌≡◌, refl, ap, inl, inr, false, none, [], ◌∷◌, ◌++◌, arith, Bool-cases}
use kiri_gcp.Text.{Text, text_eq}
use kiri_gcp.Text.Laws.{text_eq_iff}
use kiri_gcp.GoMap.{GoMap, get, put}

-- A key that is not there is put behind the others.
pub put_new :
    {V : Type 0} (k : Text) (v : V) (m : GoMap V) → get k m ≡ none → put k v m ≡ m ++ (k, v) ∷ []
unfolding get put
put_new k v [] h = refl
put_new k v ((j, w) ∷ m) h = elim (Bool-cases (text_eq j k)) [
  | inl e ↦ cc (rw e at h)
  | inr e ↦ rw e (ap (λ (t : GoMap _). (j, w) ∷ t) (put_new k v m (rw e at h)))
]

-- Every key of the first map is missing in the second.
abbrev pub IsApart : {V : Type 0} → GoMap V → GoMap V → Type 0
IsApart [] acc = Unit
IsApart ((k, v) ∷ m) acc = (get k acc ≡ none) × IsApart m acc

pub get-snoc_ne :
    {V : Type 0} (k j : Text) (v : V) (m : GoMap V)
    → text_eq j k ≡ false
    → get k m ≡ none
    → get k (m ++ (j, v) ∷ []) ≡ none
unfolding get
get-snoc_ne k j v [] h n = rw h refl
get-snoc_ne k j v ((i, w) ∷ m) h n = ground (arith, get-snoc_ne k j v m h)

pub IsApart-snoc :
    {V : Type 0} (j : Text) (v : V) (m acc : GoMap V)
    → get j m ≡ none
    → IsApart m acc
    → IsApart m (acc ++ (j, v) ∷ [])
unfolding get
IsApart-snoc j v [] acc n h = tt
IsApart-snoc j v ((k, w) ∷ m) acc n h =
    let ne : text_eq k j ≡ false = ground arith in
    (
      get-snoc_ne k j v acc (ground (arith, text_eq_iff k j, text_eq_iff j k)) h.0,
      IsApart-snoc j v m acc (ground arith) h.1,
    )

pub IsApart-nil : {V : Type 0} (m : GoMap V) → IsApart m []
unfolding get
IsApart-nil [] = tt
IsApart-nil ((k, v) ∷ m) = (refl, IsApart-nil m)
