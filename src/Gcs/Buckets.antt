-- ===== src/Gcs/Buckets.antt =====
-- The buckets of internal/service/gcs/gcs.go.

use kiri_gcp.Prelude.{Option, none, some, List, [], ◌∷◌, ◌++◌, if◌then◌else◌}
use kiri_gcp.Text.{Text, str, text_eq}
use kiri_gcp.GoMap.{GoMap, get, put, delete, has, keys}
use kiri_gcp.Sort.{sort_strings}
use kiri_gcp.Json.{read_field, Json, null, object, list_of, object_of}
use kiri_gcp.Http.{
  write_ok, bad_request, already_exists, not_found, Unmarshalled, value, mismatch, Decoded, failed,
  unchanged, decoded, decode_json,
}
use kiri_gcp.Gcs.{
  Bucket, State, Reply, reply, header_only, GcsHandler, Library, path_bucket, bucket_resource,
}

abbrev bucket_of : Json → Option Text → Text → Unmarshalled Bucket
bucket_of j none e = mismatch e
bucket_of j (some name) e = value (record { name = name })

module _ (lib : Library) where
  -- The target of createBucket.
  unfoldable pub unmarshal_bucket : Json → Unmarshalled Bucket
  unfolding read_field
  unmarshal_bucket (object fs) =
      bucket_of (object fs) (read_field (str "name") [] fs) (lib.type_error (object fs))
  unmarshal_bucket null = value (record { name = [] })
  unmarshal_bucket j = mismatch (lib.type_error j)

  unfoldable pub store_bucket : Bucket → State → State × Reply
  store_bucket b s =
      if text_eq b.name []
      then (s, reply (bad_request (str "name is required")))
      else if has b.name s.buckets
      then (s, reply (already_exists (str "bucket already exists: " ++ b.name)))
      else (
        record s { buckets = put b.name b s.buckets; objects = put b.name [] s.objects },
        reply (write_ok (bucket_resource b)),
      )

  unfoldable pub create_decoded : Decoded Bucket → State → State × Reply
  unfolding store_bucket
  create_decoded (failed e) s = (s, reply (bad_request e))
  create_decoded unchanged s = store_bucket (record { name = [] }) s
  create_decoded (decoded b) s = store_bucket b s

  unfoldable pub create_bucket : GcsHandler
  unfolding create_decoded unmarshal_bucket
  create_bucket r s = create_decoded (decode_json unmarshal_bucket r.base.payload) s

-- The resources of the named buckets, which are there.
buckets_named : GoMap Bucket → List Text → List Json
buckets_named m [] = []
buckets_named m (n ∷ ns) = resource_of (get n m) ++ buckets_named m ns
  where
    resource_of : Option Bucket → List Json
    resource_of none = []
    resource_of (some b) = bucket_resource b ∷ []

unfoldable pub list_buckets : GcsHandler
unfolding buckets_named
list_buckets r s =
    let items = buckets_named s.buckets (sort_strings (keys s.buckets)) in
    (s, reply (write_ok (object_of ((str "items", list_of items) ∷ []))))

unfoldable pub answer_bucket : Text → Option Bucket → Reply
answer_bucket name none = reply (not_found (str "bucket not found: " ++ name))
answer_bucket name (some b) = reply (write_ok (bucket_resource b))

unfoldable pub get_bucket : GcsHandler
unfolding answer_bucket
get_bucket r s = (s, answer_bucket (path_bucket r) (get (path_bucket r) s.buckets))

unfoldable pub delete_bucket : GcsHandler
delete_bucket r s =
    let bucket = path_bucket r in
    if has bucket s.buckets
    then (
      record s { buckets = delete bucket s.buckets; objects = delete bucket s.objects },
      header_only 204 [],
    )
    else (s, reply (not_found (str "bucket not found: " ++ bucket)))
