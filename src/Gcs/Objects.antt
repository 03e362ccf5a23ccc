-- ===== src/Gcs/Objects.antt =====
-- The objects of internal/service/gcs/gcs.go, and the routes of the service.
use mathlib.Core.Option
use kiri_gcp.Prelude.{Option, none, some, List, [], ◌∷◌, ◌++◌, if◌then◌else◌, keep}
use kiri_gcp.Text.{Text, str, text_eq, has_prefix}
use kiri_gcp.GoMap.{GoMap, get, put, delete, has, keys}
use kiri_gcp.Sort.{sort_strings}
use kiri_gcp.Json.{Json, list_of, object_of}
use kiri_gcp.Http.{write_ok, not_found}
use kiri_gcp.Service.{Meta, Route, fidelity_a, state_behavioral}
use kiri_gcp.Gcs.{
  Object, State, GcsRequest, Reply, reply, header_only, media_content, GcsHandler, Library,
  path_bucket, path_object, object_resource,
}
use kiri_gcp.Gcs.Buckets.{create_bucket, list_buckets, get_bucket, delete_bucket}
use kiri_gcp.Gcs.Uploads.{upload_object, resume_upload}

unfoldable pub lookup : Text → Text → State → Option Object
lookup bucket name s = Option.bind (get bucket s.objects) (get name)

unfoldable pub bucket_not_found : Text → Reply
bucket_not_found bucket = reply (not_found (str "bucket not found: " ++ bucket))

-- The sorted names of the listing; the empty prefix is one of every name.
unfoldable pub listed_names : Text → GoMap Object → List Text
listed_names prefix objs = sort_strings (keep (λ n. has_prefix n prefix) (keys objs))

module _ (lib : Library) where
  resource_of : Text → Option Object → List Json
  resource_of bucket none = []
  resource_of bucket (some o) = object_resource lib bucket o ∷ []

  unfoldable pub resources_of : Text → GoMap Object → List Text → List Json
  unfolding resource_of
  resources_of bucket objs [] = []
  resources_of bucket objs (n ∷ ns) = resource_of bucket (get n objs) ++ resources_of bucket objs ns

  unfoldable pub answer_list : Text → Text → Option (GoMap Object) → Reply
  unfolding resources_of bucket_not_found
  answer_list bucket prefix none = bucket_not_found bucket
  answer_list bucket prefix (some objs) =
      let items = resources_of bucket objs (listed_names prefix objs) in
      reply (write_ok (object_of ((str "items", list_of items) ∷ [])))

  unfoldable pub list_objects : GcsHandler
  unfolding answer_list
  list_objects r s =
      (s, answer_list (path_bucket r) (r.base.query (str "prefix")) (get (path_bucket r) s.objects))

  unfoldable pub write_media : Object → Reply
  write_media o =
      let content_type =
        if text_eq o.content_type [] then str "application/octet-stream" else o.content_type in
      let (md5, crc32c) = lib.checksums o.content in
      record {
        status = 200;
        headers =
            (str "Content-Type", content_type)
            ∷ (str "X-Goog-Hash", str "crc32c=" ++ (crc32c ++ (str ",md5=" ++ md5)))
            ∷ [];
        content = media_content o.content;
      }

  unfoldable pub answer_object : GcsRequest → Option Object → Reply
  answer_object r none = reply (not_found (str "object not found: " ++ path_object r))
  answer_object r (some o) =
      if text_eq (r.base.query (str "alt")) (str "media")
      then write_media o
      else reply (write_ok (object_resource lib (path_bucket r) o))

  unfoldable pub get_object : GcsHandler
  unfolding answer_object lookup
  get_object r s = (s, answer_object r (lookup (path_bucket r) (path_object r) s))

  unfoldable pub answer_media : GcsRequest → Option Object → Reply
  answer_media r none =
      reply (not_found (str "object not found: " ++ (path_bucket r ++ (str "/" ++ path_object r))))
  answer_media r (some o) = write_media o

  unfoldable pub get_object_media : GcsHandler
  unfolding answer_media lookup
  get_object_media r s = (s, answer_media r (lookup (path_bucket r) (path_object r) s))

  unfoldable pub delete_from : GcsRequest → Option (GoMap Object) → State → State × Reply
  unfolding bucket_not_found
  delete_from r none s = (s, bucket_not_found (path_bucket r))
  delete_from r (some objs) s =
      if has (path_object r) objs
      then (
        record s { objects = put (path_bucket r) (delete (path_object r) objs) s.objects },
        header_only 204 [],
      )
      else (s, reply (not_found (str "object not found: " ++ path_object r)))

  unfoldable pub delete_object : GcsHandler
  unfolding delete_from
  delete_object r s = delete_from r (get (path_bucket r) s.objects) s

  unfoldable pub routes : List (Route GcsHandler)
  routes =
      let bucket = str "/storage/v1/b/{bucket}" in
      let upload = str "/upload/storage/v1/b/{bucket}/o" in
      record { method = str "POST"; pattern = str "/storage/v1/b"; handler = create_bucket lib }
      ∷ record { method = str "GET"; pattern = str "/storage/v1/b"; handler = list_buckets }
      ∷ record { method = str "GET"; pattern = bucket; handler = get_bucket }
      ∷ record { method = str "DELETE"; pattern = bucket; handler = delete_bucket }
      ∷ record { method = str "POST"; pattern = upload; handler = upload_object lib }
      ∷ record { method = str "PUT"; pattern = upload; handler = resume_upload lib }
      ∷ record { method = str "GET"; pattern = bucket ++ str "/o"; handler = list_objects }
      ∷ record { method = str "GET"; pattern = bucket ++ str "/o/{obj...}"; handler = get_object }
      ∷ record {
        method = str "DELETE";
        pattern = bucket ++ str "/o/{obj...}";
        handler = delete_object;
      }
      ∷ record {
        method = str "GET";
        pattern = str "/download" ++ (bucket ++ str "/o/{obj...}");
        handler = get_object_media;
      }
      ∷ record {
        method = str "GET";
        pattern = str "/{bucket}/{obj...}";
        handler = get_object_media;
      }
      ∷ []

unfoldable pub meta : Meta
meta = record {
  display = str "Cloud Storage";
  category = str "Storage";
  description = str "Object storage: JSON API + root-level media downloads (real SDK Reader path)";
  fidelity = fidelity_a;
  state = state_behavioral;
}
