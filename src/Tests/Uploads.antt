-- ===== src/Tests/Uploads.antt =====
-- The theorems on Cloud Storage (internal/service/gcs/gcs.go) at concrete requests.
use mathlib.Core.Option
use kiri_gcp.Prelude.{◌≡◌, refl, inl, inr, true, false, none, some, [], ◌∷◌, arith, if◌then◌else◌}
use kiri_gcp.Text.{Text, str, text_eq, has_prefix, itoa, to_lower}
use kiri_gcp.GoMap.{get, put, delete, has}
use kiri_gcp.Json.{string, object_of, read_field, fields}
use kiri_gcp.Http.{blank, valid, decode_json}
use kiri_gcp.Service.{Route}
use kiri_gcp.Gcs.{
  Object, UploadSession, State, bytes_read, no_part, media_content, GcsRequest, GcsHandler, Library,
  new, path_bucket,
}
use kiri_gcp.Gcs.Ranges.{good_range, parse_content_range}
use kiri_gcp.Gcs.Ranges.Printing.{
  RangeForm, chunk_form, FitsForm, print_range, range_of, parse_content_range-print_range,
}
use kiri_gcp.Gcs.Buckets.{
  create_bucket, create_decoded, store_bucket, unmarshal_bucket, get_bucket, delete_bucket,
}
use kiri_gcp.Gcs.Uploads.{
  upload, store_upload, resume_upload, upload_object, upload_checked, read_upload,
}
use kiri_gcp.Gcs.Objects.{lookup, write_media, get_object_media, routes}
use kiri_gcp.Gcs.Chunks.{IsChunk, resume_each, resume_upload-resume_each, resume_upload_unapplied}
use kiri_gcp.Gcs.Sound.{IsSound}
use kiri_gcp.Gcs.Invariant.{Reach, here, next, request, check, finish, Reach-IsSound}
use kiri_gcp.Gcs.Reads.{IsWhole, get_object_media-upload_object, upload_checked_late}
use kiri_gcp.Tests.Samples.{counting}

-- Checksums that are the bytes themselves.
abbrev plain : Library
plain = record {
  checksums = λ t. (t, t);
  path_escape = λ t. t;
  quote = λ t. t;
  type_error = λ j. [];
}

-- A request with a session, a body and a Content-Range, for bucket "b" and object "o".
abbrev asking : Text → Text → Text → Text → GcsRequest
asking upload_id name range body = record {
  base = record {
    method = str "PUT";
    path_value = λ k. if text_eq k (str "bucket") then b'b' ∷ [] else b'o' ∷ [];
    query = λ k.
        if text_eq k (str "upload_id")
        then upload_id
        else if text_eq k (str "name")
        then name
        else [];
    payload = blank;
    random = counting;
    clock = [];
  };
  header = λ k. if text_eq k (str "Content-Range") then range else [];
  incoming = bytes_read body;
  media_type_error = none;
  first_part = no_part [];
  second_part = no_part [];
  host = [];
  tls = false;
}

abbrev chunk : RangeForm → Text → GcsRequest
chunk form body = asking (b'7' ∷ []) [] (print_range form) body

abbrev session : UploadSession
session = record { bucket = b'b' ∷ []; name = b'o' ∷ []; content_type = []; content = [] }

-- A bucket and an upload in progress to it.
abbrev uploading : State
uploading = record {
  buckets = (b'b' ∷ [], record { name = b'b' ∷ [] }) ∷ [];
  objects = [];
  sessions = (b'7' ∷ [], session) ∷ [];
}

abbrev first_chunk : GcsRequest
first_chunk = chunk (chunk_form 0 2 none) (b'a' ∷ b'b' ∷ b'c' ∷ [])

abbrev last_chunk : GcsRequest
last_chunk = chunk (chunk_form 3 4 (some 5)) (b'd' ∷ b'e' ∷ [])

chunk-IsChunk :
    (form : RangeForm) (body : Text)
    → FitsForm form
    → IsChunk (b'7' ∷ []) body form (chunk form body)
unfolding text_eq str
chunk-IsChunk form body h = record { query_is = refl; body_is = refl; header_is = refl; fits = h }

parse_content_range-print_range_example :
    parse_content_range (λ t. t) (print_range (chunk_form 256 511 (some 1024)))
    ≡ good_range (range_of (chunk_form 256 511 (some 1024)))
parse_content_range-print_range_example =
    parse_content_range-print_range (λ t. t) (chunk_form 256 511 (some 1024))
      (omega arith, omega arith, omega arith)

resume_upload-resume_each_example :
    resume_upload plain last_chunk
      (resume_each plain ((first_chunk, b'a' ∷ b'b' ∷ b'c' ∷ []) ∷ []) uploading)
    ≡ store_upload plain
        (b'b' ∷ [])
        (upload (record { name = b'o' ∷ []; content_type = []; content = str "abcde" }))
        (record uploading { sessions = [] })
unfolding get text_eq delete str
resume_upload-resume_each_example =
    resume_upload-resume_each plain (b'7' ∷ []) ((first_chunk, b'a' ∷ b'b' ∷ b'c' ∷ []) ∷ [])
      last_chunk (b'd' ∷ b'e' ∷ []) uploading session refl refl refl
      (
        chunk-IsChunk (chunk_form 0 2 none) (b'a' ∷ b'b' ∷ b'c' ∷ [])
            (omega arith, omega arith, tt),
        tt,
      )
      (chunk-IsChunk (chunk_form 3 4 (some 5)) (b'd' ∷ b'e' ∷ [])
        (omega arith, omega arith, omega arith))

-- The same upload with one byte of it.
abbrev begun : State
begun = record uploading { sessions = (b'7' ∷ [], record session { content = b'a' ∷ [] }) ∷ [] }

resume_upload_unapplied_example :
    ((resume_upload plain last_chunk begun).0 ≡ begun)
    × (get (str "Range") (resume_upload plain last_chunk begun).1.headers ≡ some (str "bytes=0-0"))
    × ((resume_upload plain last_chunk begun).1.status ≡ 308)
unfolding get text_eq str itoa
resume_upload_unapplied_example =
    resume_upload_unapplied plain (b'7' ∷ []) (b'd' ∷ b'e' ∷ []) (chunk_form 3 4 (some 5))
      last_chunk begun (record session { content = b'a' ∷ [] }) refl
      (chunk-IsChunk (chunk_form 3 4 (some 5)) (b'd' ∷ b'e' ∷ [])
        (omega arith, omega arith, omega arith))
      (inr (λ e. omega arith)) (λ e. ground arith)

abbrev whole : GcsRequest
whole = asking [] (b'o' ∷ []) [] (b'h' ∷ b'i' ∷ [])

abbrev stored : Object
stored = record { name = b'o' ∷ []; content_type = []; content = b'h' ∷ b'i' ∷ [] }

whole-IsWhole : IsWhole plain whole stored
unfolding text_eq str read_upload has_prefix
whole-IsWhole = record {
  no_session = refl;
  not_resumable = λ e. cc;
  carries = refl;
  has_name = λ e. cc;
}

get_object_media-upload_object_example :
    ((get_object_media plain whole (upload_object plain whole uploading).0).1 ≡ record {
      status = 200;
      headers =
          (str "Content-Type", str "application/octet-stream")
          ∷ (str "X-Goog-Hash", str "crc32c=hi,md5=hi")
          ∷ [];
      content = media_content (str "hi");
    })
    × (lookup (b'c' ∷ []) (b'o' ∷ []) (upload_object plain whole uploading).0
        ≡ lookup (b'c' ∷ []) (b'o' ∷ []) uploading)
unfolding get text_eq str
get_object_media-upload_object_example =
    get_object_media-upload_object plain whole whole stored uploading (b'c' ∷ []) (b'o' ∷ []) refl
      whole-IsWhole refl refl

upload_checked_late_example :
    ((get_bucket whole (upload_checked plain whole (new none)).0).1.status ≡ 404)
    × ((get_object_media plain whole (upload_checked plain whole (new none)).0).1
        ≡ write_media plain stored)
unfolding get text_eq str new
upload_checked_late_example =
    upload_checked_late plain whole whole stored (new none) refl whole-IsWhole refl refl

abbrev create_route : Route GcsHandler
create_route = record {
  method = str "POST";
  pattern = str "/storage/v1/b";
  handler = create_bucket plain;
}

-- The request that makes bucket "b".
abbrev creating : GcsRequest
creating = record whole {
  base = record whole.base { payload = valid (object_of ((str "name", string (b'b' ∷ [])) ∷ [])) };
}

abbrev delete_route : Route GcsHandler
delete_route = record {
  method = str "DELETE";
  pattern = str "/storage/v1/b/{bucket}";
  handler = delete_bucket;
}

-- The bucket as it is made.
abbrev made : State
made = (create_bucket plain creating (new none)).0

made_has : has (path_bucket whole) made.buckets ≡ true
unfolding fields decode_json create_bucket create_decoded store_bucket unmarshal_bucket new
    read_field to_lower get put text_eq str Option.bind
made_has = refl

-- An upload whose bucket is deleted between its two parts.
overtaken :
    Reach plain (new none, []) ((upload_checked plain whole (delete_bucket creating made).0).0, [])
unfolding routes text_eq str
overtaken =
    next
      (next (next (next here (request create_route creating (inl refl))) (check whole made_has))
        (request delete_route creating (inr (inr (inr (inl refl))))))
      (finish [] whole [])

Reach-IsSound_example : IsSound (upload_checked plain whole (delete_bucket creating made).0).0
Reach-IsSound_example = Reach-IsSound plain overtaken
