-- ===== src/Collection/Invariant.antt =====
-- Runs of requests against one collection, and what every state of a run satisfies.
use mathlib.Core.List.{map-append}
use kiri_gcp.Prelude.{
  ◌≡◌, refl, ◌∙◌, inl, inr, true, Option, none, some, List, [], ◌∷◌, arith, Bool-cases, Elem,
  is_some, map,
}
use kiri_gcp.Text.{Text, str, text_eq}
use kiri_gcp.Text.Laws.{text_eq_iff}
use kiri_gcp.GoMap.{GoMap, get, put, delete, has, IsUnique}
use kiri_gcp.GoMap.Laws.{get-put, get-delete, get-put_self, put-IsUnique, delete-IsUnique}
use kiri_gcp.Json.{
  list_of, Json, null, boolean, number, string, array, object, object_of, get_field,
  get_field-object_of,
}
use kiri_gcp.Http.{write_ok, Request, Response, Decoded, failed, unchanged, decoded}
use kiri_gcp.Collection.{
  State, new, or_empty, created_name, target_name, listed_names, object_json, objects_of,
  store_item, create_decoded, list_items, create_item, get_item, delete_item,
}
use kiri_gcp.Collection.Listing.{listed_names_exact}

-- A request on one of the four routes.
pub data Call : Type 0 where
  list create read remove : Request → Call

pub record IsWellFormed (s : State) : Type 0 where
  -- Each name is there once.
  pub unique : IsUnique s.resources
  -- Each resource is an object whose field "name" is the name under which it is stored.
  pub named :
      (n : Text) (j : Json)
      → get n s.resources ≡ some j
      → get_field (str "name") j ≡ some (string n)

module _ (service_name : Text) where
  pub step : Call → State → State × Response
  step (list r) s = list_items service_name r s
  step (create r) s = create_item service_name r s
  step (read r) s = get_item service_name r s
  step (remove r) s = delete_item service_name r s

  -- The requests in the order in which the lock lets them in.
  pub serve : List Call → State → State
  unfolding step
  serve [] s = s
  serve (c ∷ cs) s = serve cs (step c s).0

  put-IsWellFormed :
      (n : Text) (body : GoMap Json) (s : State)
      → IsWellFormed s
      → IsWellFormed (record s {
        resources = put n (object_of (put (str "name") (string n) body)) s.resources;
      })
  put-IsWellFormed n body s w = record {
    unique = put-IsUnique n item s.resources w.unique;
    named = λ k j e. elim (Bool-cases (text_eq n k)) [
      | inl t ↦ rw (← stored k j t e, ← (text_eq_iff n k).0 t) field
      | inr f ↦ w.named k j (ground (arith, get-put n k item s.resources))
    ];
  }
    where
      item : Json
      item = object_of (put (str "name") (string n) body)

      field : get_field (str "name") item ≡ some (string n)
      field = get_field-object_of (str "name") _ ∙ get-put_self (str "name") (string n) body

      stored :
          (k : Text) (j : Json)
          → text_eq n k ≡ true
          → get k (put n item s.resources) ≡ some j
          → item ≡ j
      stored k j t e = ground (arith, get-put n k item s.resources)

  delete-IsWellFormed :
      (n : Text) (s : State)
      → IsWellFormed s
      → IsWellFormed (record s { resources = delete n s.resources })
  delete-IsWellFormed n s w = record {
    unique = delete-IsUnique n s.resources w.unique;
    named = λ k j e. w.named k j (ground (arith, get-delete n k s.resources));
  }

  store_item-IsWellFormed :
      (r : Request) (body : GoMap Json) (s : State)
      → IsWellFormed s
      → IsWellFormed (store_item service_name r body s).0
  unfolding store_item
  store_item-IsWellFormed r body s w =
      elim (Bool-cases (has (created_name service_name r) s.resources)) [
        | inl e ↦ rw e w
        | inr e ↦ rw e (put-IsWellFormed (created_name service_name r) body s w)
      ]

  create_decoded-IsWellFormed :
      (r : Request) (d : Decoded (Option (GoMap Json))) (s : State)
      → IsWellFormed s
      → IsWellFormed (create_decoded service_name r d s).0
  unfolding create_decoded
  create_decoded-IsWellFormed r (failed e) s w = w
  create_decoded-IsWellFormed r unchanged s w = store_item-IsWellFormed r [] s w
  create_decoded-IsWellFormed r (decoded body) s w = store_item-IsWellFormed r (or_empty body) s w

  step-IsWellFormed : (c : Call) (s : State) → IsWellFormed s → IsWellFormed (step c s).0
  unfolding step list_items create_item get_item delete_item
  step-IsWellFormed (list r) s w = w
  step-IsWellFormed (create r) s w = create_decoded-IsWellFormed r _ s w
  step-IsWellFormed (read r) s w = w
  step-IsWellFormed (remove r) s w =
      elim (Bool-cases (has (target_name service_name r) s.resources)) [
        | inl e ↦ rw e (delete-IsWellFormed (target_name service_name r) s w)
        | inr e ↦ rw e w
      ]

  serve_keeps : (cs : List Call) (s : State) → IsWellFormed s → IsWellFormed (serve cs s)
  unfolding serve
  serve_keeps [] s w = w
  serve_keeps (c ∷ cs) s w = serve_keeps cs (step c s).0 (step-IsWellFormed c s w)

  new-IsWellFormed : IsWellFormed (new none)
  unfolding new get
  new-IsWellFormed = record { unique = tt; named = λ n j e. cc }

  -- From an empty store, whatever the requests, each name is there once, and each resource is an
  -- object that carries its own name.
  pub serve-IsWellFormed : (cs : List Call) → IsWellFormed (serve cs (new none))
  serve-IsWellFormed cs = serve_keeps cs (new none) new-IsWellFormed

  map-object_json :
      (n : Text) (o : Option Json)
      → is_some o ≡ true
      → ((j : Json) → o ≡ some j → get_field (str "name") j ≡ some (string n))
      → map some (object_json o) ≡ o ∷ []
  unfolding get_field
  map-object_json n none p h = cc
  map-object_json n (some (object fs)) p h = refl
  map-object_json n (some null) p h = cc (h null refl)
  map-object_json n (some (boolean b)) p h = cc (h (boolean b) refl)
  map-object_json n (some (number k)) p h = cc (h (number k) refl)
  map-object_json n (some (string t)) p h = cc (h (string t) refl)
  map-object_json n (some (array js)) p h = cc (h (array js) refl)

  map-objects_of :
      (s : State) (ns : List Text)
      → IsWellFormed s
      → ((n : Text) → Elem n ns → has n s.resources ≡ true)
      → map some (objects_of s.resources ns) ≡ map (λ n. get n s.resources) ns
  unfolding objects_of
  map-objects_of s [] w h = refl
  map-objects_of s (n ∷ ns) w h =
      map-append some (object_json (get n s.resources)) (objects_of s.resources ns)
      ∙ rw
          (
            map-object_json n (get n s.resources) (h n (inl refl)) (w.named n),
            map-objects_of s ns w (λ k m. h k (inr m)),
          )
          refl

  -- After any requests, a listing answers with one item for each listed name, in their order, and
  -- the item is the resource that is stored under the name: none is lost by the type assertion on the
  -- stored value. The listing changes nothing.
  pub list_items_complete :
      (cs : List Call) (r : Request)
      → let s = serve cs (new none) in
        (items : List Json) × (list_items service_name r s
          ≡ (s, write_ok (object_of ((str "items", list_of items) ∷ []))))
        × (map some items ≡ map (λ n. get n s.resources) (listed_names service_name r s))
  unfolding list_items
  list_items_complete cs r =
      let w = serve-IsWellFormed cs in
      (
        objects_of _ _,
        refl,
        map-objects_of (serve cs (new none)) _ w
            (λ n m. ((listed_names_exact service_name r (serve cs (new none)) n w.unique).0.0 m).0),
      )
