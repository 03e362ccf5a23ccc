-- ===== src/Collection/Listing.antt =====
-- What a listing of a collection returns.
use kiri_gcp.Prelude.{◌≡◌, refl, ◌↔◌, Bool, true, List, [], ◌∷◌, ◌++◌, Elem, Elem-keep, keep}
use kiri_gcp.Text.{Text, str, text_lt, has_prefix}
use kiri_gcp.GoMap.{GoMap, get, has, keys, IsUnique}
use kiri_gcp.GoMap.Laws.{Elem-keys}
use kiri_gcp.GoMap.Sorted.{keys-IsDistinct, keep-IsDistinct, sorted_keys_order}
use kiri_gcp.Sort.{IsSorted}
use kiri_gcp.Sort.Laws.{All-Always, text_lt-IsStrictOrder, Elem-sort_slice, sort_slice-IsSorted}
use kiri_gcp.Json.{Json}
use kiri_gcp.Http.{Request}
use kiri_gcp.Collection.{State, parent, listed_names, objects_of, list_items}

module _ (service_name : Text) (r : Request) where
  abbrev in_collection : Text → Bool
  in_collection n = has_prefix n (parent service_name r ++ str "/")

  -- Where the state holds each name once, the names are listed in ascending order, each once: those
  -- of the stored resources that stand below the collection of the request, and no others.
  pub listed_names_exact :
      (s : State) (n : Text)
      → IsUnique s.resources
      → (Elem n (listed_names service_name r s)
          ↔ ((has n s.resources ≡ true) × (in_collection n ≡ true)))
        × IsSorted text_lt (listed_names service_name r s)
  unfolding listed_names
  listed_names_exact s n u =
      let kept = Elem-keep in_collection n (keys s.resources) in
      let sorted = Elem-sort_slice text_lt n (keep in_collection (keys s.resources)) in
      let listed = Elem-keys n s.resources in
      (
        (
          λ m. let k = kept.0 (sorted.0 m) in (listed.0 k.0, k.1),
          λ m. sorted.1 (kept.1 (listed.1 m.0, m.1)),
        ),
        sort_slice-IsSorted text_lt-IsStrictOrder _ (All-Always _)
            (keep-IsDistinct in_collection (keys s.resources) (keys-IsDistinct s.resources u)),
      )

  same_names :
      (s t : State)
      → IsUnique s.resources
      → IsUnique t.resources
      → ((k : Text) → get k s.resources ≡ get k t.resources)
      → listed_names service_name r s ≡ listed_names service_name r t
  unfolding listed_names
  same_names s t = sorted_keys_order in_collection s.resources t.resources

  same_objects :
      (s t : GoMap Json) (ns : List Text)
      → ((k : Text) → get k s ≡ get k t)
      → objects_of s ns ≡ objects_of t ns
  unfolding objects_of
  same_objects s t [] h = refl
  same_objects s t (n ∷ ns) h = cc (h n, same_objects s t ns h)

  -- Go runs over a map in no fixed order. Two maps that hold the same resources, each name once, give
  -- the same listing, whatever the order of their entries.
  pub list_items_order :
      (s t : State)
      → IsUnique s.resources
      → IsUnique t.resources
      → ((k : Text) → get k s.resources ≡ get k t.resources)
      → (list_items service_name r s).1 ≡ (list_items service_name r t).1
  unfolding list_items
  list_items_order s t u v h =
      rw (same_names s t u v h)
        (rw (same_objects s.resources t.resources (listed_names service_name r t) h))
