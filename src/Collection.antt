-- ===== src/Collection.antt =====
-- The services of internal/service/*/ that are one collection of resources (agones, analyticshub,
-- and the others of Collection.Fleet). Their files differ in the service's name and its catalogue
-- entry alone; the operations are modelled once, over the name, as internal/service/agones/agones.go
-- has them.
pub mod Laws
pub mod Listing
pub mod Invariant
pub mod Isolation
pub mod Routes
pub mod Fleet
use kiri_gcp.Prelude.{
  Bool, true, false, Option, none, some, List, [], ◌∷◌, ◌++◌, map, if◌then◌else◌, keep,
}
use kiri_gcp.Text.{Text, str, text_eq, has_prefix}
use kiri_gcp.GoMap.{GoMap, get, put, delete, has, keys}
use kiri_gcp.Sort.{sort_strings}
use kiri_gcp.Json.{Json, null, string, object, list_of, object_of, as_object}
use kiri_gcp.Http.{
  Payload, Request, Response, Decoded, failed, unchanged, decoded, write_json, write_ok,
  bad_request, already_exists, not_found, decode_json, unmarshal_map, id,
}
use kiri_gcp.Service.{Meta, Handler, Route, Service}

-- The persisted state: resource name -> resource.
pub record State : Type 0 where
  pub resources : GoMap Json

-- New(): the state that the storage package loads, or no resources.
unfoldable pub new : Option State → State
new none = record { resources = [] }
new (some loaded) = loaded

-- The body of a create request; a body that is nil after decoding becomes an empty map.
abbrev pub or_empty : Option (GoMap Json) → GoMap Json
or_empty none = []
or_empty (some m) = m

-- id := r.URL.Query().Get("id"), or a generated one.
unfoldable pub item_id : Request → Text
item_id r = if text_eq (r.query (str "id")) [] then id (r.random 0) else r.query (str "id")

-- if m, ok := s.st.Resources[n].(map[string]any); ok { items = append(items, m) }
abbrev pub object_json : Option Json → List Json
object_json (some (object fs)) = object fs ∷ []
object_json _ = []

unfoldable pub objects_of : GoMap Json → List Text → List Json
objects_of m [] = []
objects_of m (n ∷ ns) = object_json (get n m) ++ objects_of m ns

module _ (service_name : Text) where
  unfoldable pub parent : Request → Text
  parent r =
      str "projects/"
      ++ (r.path_value (str "project")
          ++ (str "/locations/" ++ (r.path_value (str "location") ++ (str "/" ++ service_name))))

  -- The full name of the resource that a create request makes.
  unfoldable pub created_name : Request → Text
  created_name r = parent r ++ (str "/" ++ item_id r)

  -- The full name of the resource that a get or delete request names.
  unfoldable pub target_name : Request → Text
  target_name r = parent r ++ (str "/" ++ r.path_value (str "id"))

  -- The sorted names of the collection that the request lists.
  unfoldable pub listed_names : Request → State → List Text
  listed_names r s =
      sort_strings (keep (λ n. has_prefix n (parent r ++ str "/")) (keys s.resources))

  unfoldable pub list_items : Handler State
  unfolding objects_of
  list_items r s = (
    s,
    write_ok (object_of ((str "items", list_of (objects_of s.resources (listed_names r s))) ∷ [])),
  )

  store_item : Request → GoMap Json → State → State × Response
  store_item r body s =
      let name = created_name r in
      let item = object_of (put (str "name") (string name) body) in
      if has name s.resources
      then (s, already_exists (str "resource already exists: " ++ name))
      else (record s { resources = put name item s.resources }, write_ok item)

  create_decoded : Request → Decoded (Option (GoMap Json)) → State → State × Response
  unfolding store_item
  create_decoded r (failed e) s = (s, bad_request e)
  create_decoded r unchanged s = store_item r [] s
  create_decoded r (decoded body) s = store_item r (or_empty body) s

  unfoldable pub create_item : Handler State
  unfolding create_decoded
  create_item r s = create_decoded r (decode_json unmarshal_map r.payload) s

  -- A nil value is written as no body.
  answer_item : Text → Option Json → Response
  answer_item name none = not_found (str "resource not found: " ++ name)
  answer_item name (some null) = write_json 200 none
  answer_item name (some item) = write_ok item

  unfoldable pub get_item : Handler State
  unfolding answer_item
  get_item r s = (s, answer_item (target_name r) (get (target_name r) s.resources))

  unfoldable pub delete_item : Handler State
  delete_item r s =
      let name = target_name r in
      if has name s.resources
      then (record s { resources = delete name s.resources }, write_ok (object_of []))
      else (s, not_found (str "resource not found: " ++ name))

  unfoldable pub routes : List (Route (Handler State))
  routes =
      let base = str "/v1/projects/{project}/locations/{location}/" ++ service_name in
      record { method = str "GET"; pattern = base; handler = list_items }
      ∷ record { method = str "POST"; pattern = base; handler = create_item }
      ∷ record { method = str "GET"; pattern = base ++ str "/{id}"; handler = get_item }
      ∷ record { method = str "DELETE"; pattern = base ++ str "/{id}"; handler = delete_item }
      ∷ []

  -- The service of a file: its name, its catalogue entry and its routes.
  unfoldable pub collection_service : Meta → Service (Handler State)
  unfolding routes
  collection_service meta = record { name = service_name; meta = some meta; routes = routes }
