-- ===== src/Collection/Laws.antt =====
-- What a client of a collection sees: reads after creates and deletes, and errors that change
-- nothing.
use kiri_gcp.Prelude.{
  ◌⊎◌, ◌≡◌, refl, true, Option, [], ◌++◌, ◌&&◌, ◌==◌, inl, inr, arith, if◌then◌else◌,
}
use kiri_gcp.Text.{Text, str, text_eq}
use kiri_gcp.Text.Laws.{text_eq_iff}
use kiri_gcp.GoMap.{GoMap, put, has}
use kiri_gcp.GoMap.Laws.{get-put, get-delete}
use kiri_gcp.Json.{Json, string, object_of}
use kiri_gcp.Http.{
  Request, Response, Decoded, failed, unchanged, decoded, write_json, bad_request, already_exists,
  not_found, decode_json, unmarshal_map,
}
use kiri_gcp.Collection.{
  State, or_empty, created_name, target_name, store_item, create_decoded, create_item, get_item,
  delete_item,
}

module _ (service_name : Text) where
  abbrev create : Request → State → State × Response
  create = create_item service_name

  abbrev read : Request → State → Response
  read g s = (get_item service_name g s).1

  stored : Request → GoMap Json → State → State × Response
  stored = store_item service_name

  read-store_item :
      (r g : Request) (body : GoMap Json) (s : State)
      → read g (store_item service_name r body s).0 ≡ (
          if (store_item service_name r body s).1.status == 200
            && text_eq (created_name service_name r) (target_name service_name g)
          then (store_item service_name r body s).1
          else read g s)
  unfolding store_item get_item already_exists write_json
  read-store_item r g body s =
      let n = created_name service_name r in
      let item = object_of (put (str "name") (string n) body) in
      ground (arith, get-put n (target_name service_name g) item s.resources)

  read-create_decoded :
      (r g : Request) (d : Decoded (Option (GoMap Json))) (s : State)
      → read g (create_decoded service_name r d s).0 ≡ (
          if (create_decoded service_name r d s).1.status == 200
            && text_eq (created_name service_name r) (target_name service_name g)
          then (create_decoded service_name r d s).1
          else read g s)
  unfolding create_decoded bad_request
  read-create_decoded r g (failed e) s = refl
  read-create_decoded r g unchanged s = read-store_item r g [] s
  read-create_decoded r g (decoded body) s = read-store_item r g (or_empty body) s

  -- After a create that is answered with 200, a get of the created name is answered exactly as the
  -- create was, and a get of any other name as it was before. After a create that is answered with
  -- another status every get is answered as it was before.
  pub get_item-create_item :
      (r g : Request) (s : State)
      → read g (create r s).0 ≡ (
          if (create r s).1.status == 200
            && text_eq (created_name service_name r) (target_name service_name g)
          then (create r s).1
          else read g s)
  unfolding create_item
  get_item-create_item r g s = read-create_decoded r g (decode_json unmarshal_map r.payload) s

  create_decoded_taken :
      (r : Request) (d : Decoded (Option (GoMap Json))) (s : State)
      → has (created_name service_name r) s.resources ≡ true
      → ((create_decoded service_name r d s).0 ≡ s)
        × (((create_decoded service_name r d s).1.status ≡ 409)
            ⊎ ((create_decoded service_name r d s).1.status ≡ 400))
  unfolding create_decoded store_item already_exists bad_request
  create_decoded_taken r (failed e) s h = (refl, inr refl)
  create_decoded_taken r unchanged s h = rw h (refl, inl refl)
  create_decoded_taken r (decoded body) s h = rw h (refl, inl refl)

  -- A create of a name that is taken changes nothing: it never overwrites a resource. It is answered
  -- with 409, or with 400 where its body cannot be decoded.
  pub create_item_taken :
      (r : Request) (s : State)
      → has (created_name service_name r) s.resources ≡ true
      → ((create r s).0 ≡ s) × (((create r s).1.status ≡ 409) ⊎ ((create r s).1.status ≡ 400))
  unfolding create_item
  create_item_taken r s h = create_decoded_taken r (decode_json unmarshal_map r.payload) s h

  -- After a delete, a get of the deleted name is answered with 404, and a get of any other name as
  -- it was before; the delete is answered with 200 exactly when the name was there.
  pub get_item-delete_item :
      (r g : Request) (s : State)
      → (read g (delete_item service_name r s).0 ≡ (
          if text_eq (target_name service_name r) (target_name service_name g)
          then not_found (str "resource not found: " ++ target_name service_name g)
          else read g s))
        × ((delete_item service_name r s).1.status
            ≡ (if has (target_name service_name r) s.resources then 200 else 404))
  unfolding get_item delete_item not_found write_json
  get_item-delete_item r g s =
      let n = target_name service_name r in
      let k = target_name service_name g in
      (ground (arith, get-delete n k s.resources, text_eq_iff n k), ground arith)
