-- ===== src/GoMap/Sorted.antt =====
-- The sorted keys of a map: what a handler lists when it collects the keys that pass a test in the
-- order of a `range` and sorts them.
use kiri_gcp.Prelude.{◌≡◌, inl, inr, Bool, none, List, [], ◌∷◌, Bool-cases, Elem, Elem-keep, keep}
use kiri_gcp.Text.{Text}
use kiri_gcp.Sort.{sort_strings}
use kiri_gcp.Sort.Laws.{IsDistinct, All-Always, text_lt-IsStrictOrder, sort_slice_unique}
use kiri_gcp.GoMap.{GoMap, get, keys, IsUnique}
use kiri_gcp.GoMap.Laws.{Elem-keys}

not-Elem-keys : {V : Type 0} (k : Text) (m : GoMap V) → get k m ≡ none → ¬ Elem k (keys m)
not-Elem-keys k m h e = cc (h, (Elem-keys k m).0 e)

pub keys-IsDistinct : {V : Type 0} (m : GoMap V) → IsUnique m → IsDistinct (keys m)
unfolding keys
keys-IsDistinct [] h = tt
keys-IsDistinct ((j, w) ∷ m) h = (not-Elem-keys j m h.0, keys-IsDistinct m h.1)

pub keep-IsDistinct :
    {A : Type 0} (p : A → Bool) (xs : List A) → IsDistinct xs → IsDistinct (keep p xs)
keep-IsDistinct p [] h = tt
keep-IsDistinct p (x ∷ xs) h = elim (Bool-cases (p x)) [
  | inl e ↦ rw e (λ m. h.0 ((Elem-keep p x xs).0 m).0, keep-IsDistinct p xs h.1)
  | inr e ↦ rw e (keep-IsDistinct p xs h.1)
]

-- Maps that hold the same values have the same sorted keys, whatever the order of their entries.
pub sorted_keys_order :
    {V : Type 0} (p : Text → Bool) (m n : GoMap V)
    → IsUnique m
    → IsUnique n
    → ((k : Text) → get k m ≡ get k n)
    → sort_strings (keep p (keys m)) ≡ sort_strings (keep p (keys n))
sorted_keys_order p m n u v h =
    sort_slice_unique text_lt-IsStrictOrder (keep p (keys m)) (keep p (keys n)) (All-Always _)
      (All-Always _) (keep-IsDistinct p _ (keys-IsDistinct m u))
      (keep-IsDistinct p _ (keys-IsDistinct n v))
      λ k. (
        λ e.
            let t = (Elem-keep p k (keys m)).0 e in
            (Elem-keep p k (keys n)).1 ((Elem-keys k n).1 (cc (h k, (Elem-keys k m).0 t.0)), t.1),
        λ e.
            let t = (Elem-keep p k (keys n)).0 e in
            (Elem-keep p k (keys m)).1 ((Elem-keys k m).1 (cc (h k, (Elem-keys k n).0 t.0)), t.1),
      )
