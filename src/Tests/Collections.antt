-- ===== src/Tests/Collections.antt =====
-- The theorems on the collection services (internal/service/agones/agones.go) at concrete inputs.
use kiri_gcp.Prelude.{
  ◌≡◌, refl, ◌↔◌, Bool, true, false, none, some, List, [], ◌∷◌, ◌++◌, ◌&&◌, ◌==◌, if◌then◌else◌,
  Elem, map, arith,
}
use kiri_gcp.Text.{Text, str, text_eq, text_lt, has_prefix, has_byte}
use kiri_gcp.GoMap.{get, has}
use kiri_gcp.Sort.{IsSorted}
use kiri_gcp.Json.{Json, list_of, object_of}
use kiri_gcp.Http.{Request, write_ok, not_found}
use kiri_gcp.Collection.{
  new, item_id, parent, created_name, target_name, listed_names, list_items, create_item, get_item,
  delete_item,
}
use kiri_gcp.Service.{Handler, Route}
use kiri_gcp.Collection.{State}
use kiri_gcp.Collection.Laws.{get_item-create_item, get_item-delete_item}
use kiri_gcp.Collection.Listing.{listed_names_exact, list_items_order}
use kiri_gcp.Collection.Invariant.{
  Call, list, create, remove, serve, IsWellFormed, serve-IsWellFormed, list_items_complete,
}
use kiri_gcp.Collection.Isolation.{listed_same_parent}
use kiri_gcp.Tests.Samples.{request, body, small, name_a, name_b, two, two_swapped}

abbrev agones : Text
agones = str "agones"

-- A request on the resource with the given id.
abbrev on : Text → Request
on name = request name body

get_item-create_item_example :
    (get_item agones (on (str "c")) (create_item agones (on (str "c")) two).0).1 ≡ (
      if (create_item agones (on (str "c")) two).1.status == 200
        && text_eq (created_name agones (on (str "c"))) (target_name agones (on (str "c")))
      then (create_item agones (on (str "c")) two).1
      else (get_item agones (on (str "c")) two).1)
get_item-create_item_example = get_item-create_item agones (on (str "c")) (on (str "c")) two

taken : has (created_name agones (on (str "a"))) two.resources ≡ true
unfolding created_name parent get text_eq str item_id
taken = refl

get_item-delete_item_example :
    ((get_item agones (on (str "b")) (delete_item agones (on (str "a")) two).0).1 ≡ (
      if text_eq (target_name agones (on (str "a"))) (target_name agones (on (str "b")))
      then not_found (str "resource not found: " ++ target_name agones (on (str "b")))
      else (get_item agones (on (str "b")) two).1))
    × ((delete_item agones (on (str "a")) two).1.status
        ≡ (if has (target_name agones (on (str "a"))) two.resources then 200 else 404))
get_item-delete_item_example = get_item-delete_item agones (on (str "a")) (on (str "b")) two

listed_names_exact_example :
    (Elem name_a (listed_names agones (on []) two) ↔ (
      (has name_a two.resources ≡ true)
      × (has_prefix name_a (parent agones (on []) ++ str "/") ≡ true)))
    × IsSorted text_lt (listed_names agones (on []) two)
unfolding get text_eq str
listed_names_exact_example = listed_names_exact agones (on []) two name_a (refl, (refl, tt))

swapped : (a b k : Text) (j : Json) → get k ((a, j) ∷ (b, j) ∷ []) ≡ get k ((b, j) ∷ (a, j) ∷ [])
unfolding get
swapped a b k j = ground arith

list_items_order_example :
    (list_items agones (on []) two).1 ≡ (list_items agones (on []) two_swapped).1
unfolding get text_eq str
list_items_order_example =
    list_items_order agones (on []) two two_swapped (refl, (refl, tt)) (refl, (refl, tt))
      (λ k. swapped name_a name_b k small)

abbrev calls : List Call
calls = create (on (str "a")) ∷ create (on (str "b")) ∷ list (on []) ∷ remove (on (str "a")) ∷ []

serve-IsWellFormed_example : IsWellFormed (serve agones calls (new none))
serve-IsWellFormed_example = serve-IsWellFormed agones calls

list_items_complete_example :
    (items : List Json) × (list_items agones (on []) (serve agones calls (new none))
      ≡ (serve agones calls (new none), write_ok (object_of ((str "items", list_of items) ∷ []))))
    × (map some items
        ≡ map
            (λ n. get n (serve agones calls (new none)).resources)
            (listed_names agones (on []) (serve agones calls (new none))))
list_items_complete_example = list_items_complete agones calls (on [])

listed_same_parent_example :
    ((on []).path_value (str "project") ≡ (on (str "a")).path_value (str "project"))
    × ((on []).path_value (str "location") ≡ (on (str "a")).path_value (str "location"))
unfolding str has_byte has_prefix created_name parent text_eq item_id
listed_same_parent_example =
    listed_same_parent agones (on []) (on (str "a")) refl refl refl refl refl

-- GET on the collection of the first service of the fleet.
abbrev hub_list : Route (Handler State)
hub_list = record {
  method = str "GET";
  pattern = str "/v1/projects/{project}/locations/{location}/" ++ str "analyticshub";
  handler = list_items (str "analyticshub");
}

-- A ServeMux that takes every pattern that it does not have, and panics at the others.
abbrev is_new : List Text → Text → Bool
is_new [] pattern = true
is_new (p ∷ taken) pattern = if text_eq p pattern then false else is_new taken pattern
