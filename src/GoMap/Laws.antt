-- ===== src/GoMap/Laws.antt =====
-- Reads after writes, and that each key stays there once.
use kiri_gcp.Prelude.{
  ◌≡◌, refl, ◌↔◌, inl, inr, true, none, some, [], ◌∷◌, arith, if◌then◌else◌, Bool-cases, Elem,
}
use kiri_gcp.Text.{Text, text_eq}
use kiri_gcp.Text.Laws.{text_eq_iff, text_eq_refl}
use kiri_gcp.GoMap.{GoMap, get, put, delete, has, keys, IsUnique}

module _ {ℓ} {V : Type ℓ} where
  pub get-put :
      (k j : Text) (v : V) (m : GoMap V)
      → get j (put k v m) ≡ (if text_eq k j then some v else get j m)
  unfolding get put
  get-put k j v [] = refl
  get-put k j v ((i, w) ∷ m) =
      ground (arith, text_eq_iff k j, text_eq_iff i k, text_eq_iff i j, get-put k j v m)

  pub get-delete :
      (k j : Text) (m : GoMap V) → get j (delete k m) ≡ (if text_eq k j then none else get j m)
  unfolding get delete
  get-delete k j [] = ground arith
  get-delete k j ((i, w) ∷ m) =
      ground (arith, text_eq_iff k j, text_eq_iff i k, text_eq_iff i j, get-delete k j m)

  pub get-put_self : (k : Text) (v : V) (m : GoMap V) → get k (put k v m) ≡ some v
  get-put_self k v m = simp (get-put, text_eq_refl)

  pub get-delete_self : (k : Text) (m : GoMap V) → get k (delete k m) ≡ none
  get-delete_self k m = simp (get-delete, text_eq_refl)

  pub put-IsUnique : (k : Text) (v : V) (m : GoMap V) → IsUnique m → IsUnique (put k v m)
  unfolding get put
  put-IsUnique k v [] h = (refl, tt)
  put-IsUnique k v ((j, w) ∷ m) h =
      ground (arith, text_eq_iff j k, text_eq_iff k j, get-put k j v m, put-IsUnique k v m h.1)

  pub delete-IsUnique : (k : Text) (m : GoMap V) → IsUnique m → IsUnique (delete k m)
  unfolding get delete
  delete-IsUnique k [] h = tt
  delete-IsUnique k ((j, w) ∷ m) h = ground (arith, get-delete k j m, delete-IsUnique k m h.1)

  -- A key is listed exactly when the map has it.
  pub Elem-keys : (k : Text) (m : GoMap V) → Elem k (keys m) ↔ (has k m ≡ true)
  unfolding get keys
  Elem-keys k [] = (λ h. absurd h, λ h. cc)
  Elem-keys k ((j, w) ∷ m) = elim (Bool-cases (text_eq j k)) [
    | inl e ↦ rw e (λ h. refl, λ h. inl (cc ((text_eq_iff j k).0 e)))
    | inr e ↦ rw e (
      λ h. elim h [ inl eq ↦ cc (e, (text_eq_iff j k).1 (cc eq)) | inr r ↦ (Elem-keys k m).0 r ],
      λ h. inr ((Elem-keys k m).1 h),
    )
  ]
