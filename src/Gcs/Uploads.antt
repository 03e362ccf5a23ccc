-- ===== src/Gcs/Uploads.antt =====
-- The uploads of internal/service/gcs/gcs.go: in one request, in two parts, or resumable.

use kiri_gcp.Prelude.{
  ℕ, ◌-◌, Bool, false, not, ◌&&◌, ◌||◌, Option, none, some, [], ◌∷◌, ◌++◌, ltb, ◌==◌, length,
  if◌then◌else◌,
}
use kiri_gcp.Text.{Text, str, text_eq, has_prefix, itoa}
use kiri_gcp.GoMap.{get, put, delete, has}
use kiri_gcp.Json.{read_field, Json, null, object}
use kiri_gcp.Http.{
  write_ok, bad_request, not_found, Unmarshalled, value, mismatch, Decoded, failed, unchanged,
  decoded, decode_json, id,
}
use kiri_gcp.Gcs.{
  Object, UploadSession, State, Incoming, read_failed, bytes_read, Part, no_part, next_part,
  GcsRequest, Reply, reply, header_only, GcsHandler, Library, path_bucket, put_object,
  object_resource,
}
use kiri_gcp.Gcs.Ranges.{ContentRange, ParsedRange, bad_range, good_range, parse_content_range}

-- The metadata of an object: the JSON part of an upload.
pub record Metadata : Type 0 where
  pub name : Text
  pub content_type : Text

abbrev no_metadata : Metadata
no_metadata = record { name = []; content_type = [] }

abbrev metadata_of : Option Text → Option Text → Text → Unmarshalled Metadata
metadata_of (some name) (some content_type) e =
    value (record { name = name; content_type = content_type })
metadata_of _ _ e = mismatch e

-- An error message, or what an upload request carries.
pub data Upload : Type 0 where
  bad_upload : (error : Text) → Upload
  upload : Object → Upload

-- if q := r.URL.Query().Get("name"); q != "" { name = q }
abbrev pub query_or : GcsRequest → Text → Text
query_or r name = if text_eq (r.base.query (str "name")) [] then name else r.base.query (str "name")

abbrev pub or_else : Text → Text → Text
or_else first second = if text_eq first [] then second else first

module _ (lib : Library) where
  unfoldable pub unmarshal_metadata : Json → Unmarshalled Metadata
  unfolding read_field
  unmarshal_metadata (object fs) =
      metadata_of (read_field (str "name") [] fs) (read_field (str "contentType") [] fs)
        (lib.type_error (object fs))
  unmarshal_metadata null = value no_metadata
  unmarshal_metadata j = mismatch (lib.type_error j)

  -- The second part of a multipart upload, behind the metadata.
  second_part : Metadata → Part → Upload
  second_part meta (no_part e) = bad_upload e
  second_part meta (next_part payload (read_failed e) ct) = bad_upload e
  second_part meta (next_part payload (bytes_read content) ct) =
      upload (record {
        name = meta.name;
        content_type = or_else meta.content_type ct;
        content = content;
      })

  first_decoded : Decoded Metadata → Part → Upload
  unfolding second_part
  first_decoded (failed e) second = bad_upload e
  first_decoded unchanged second = second_part no_metadata second
  first_decoded (decoded meta) second = second_part meta second

  first_part : Part → Part → Upload
  unfolding first_decoded unmarshal_metadata
  first_part (no_part e) second = bad_upload e
  first_part (next_part payload incoming ct) second =
      first_decoded (decode_json unmarshal_metadata payload) second

  multipart_from : GcsRequest → Option Text → Upload
  unfolding first_part
  multipart_from r (some e) = bad_upload e
  multipart_from r none = first_part r.first_part r.second_part

  unfoldable pub parse_multipart_upload : GcsRequest → Upload
  unfolding multipart_from
  parse_multipart_upload r = multipart_from r r.media_type_error

  -- What uploadObj does with the parts.
  multipart_upload : GcsRequest → Upload → Upload
  multipart_upload r (bad_upload e) = bad_upload (str "parse multipart upload: " ++ e)
  multipart_upload r (upload o) = upload (record o { name = query_or r o.name })

  media_upload : GcsRequest → Incoming → Upload
  media_upload r (read_failed e) = bad_upload (str "read body: " ++ e)
  media_upload r (bytes_read content) = upload (record {
    name = r.base.query (str "name");
    content_type = r.header (str "Content-Type");
    content = content;
  })

  unfoldable pub read_upload : GcsRequest → Upload
  unfolding parse_multipart_upload multipart_upload media_upload
  read_upload r =
      if has_prefix (r.header (str "Content-Type")) (str "multipart/")
      then multipart_upload r (parse_multipart_upload r)
      else media_upload r r.incoming

  -- The second critical section of uploadObj, and its answer.
  unfoldable pub store_upload : Text → Upload → State → State × Reply
  store_upload bucket (bad_upload e) s = (s, reply (bad_request e))
  store_upload bucket (upload o) s =
      if text_eq o.name []
      then (
        s,
        reply (
            bad_request (
              str
                "object name is required (?name= for media uploads, metadata.name for multipart)")),
      )
      else (put_object bucket o s, reply (write_ok (object_resource lib bucket o)))

  unfoldable pub session_location : GcsRequest → Text → Text → Text
  session_location r bucket upload_id =
      (if r.tls then str "https" else str "http")
      ++ (str "://"
          ++ (r.host
              ++ (str "/upload/storage/v1/b/"
                  ++ (lib.path_escape bucket
                      ++ (str "/o?uploadType=resumable&upload_id=" ++ upload_id)))))

  unfoldable pub open_session : GcsRequest → Text → Metadata → State → State × Reply
  unfolding session_location
  open_session r bucket meta s =
      let name = query_or r meta.name in
      let upload_id = id (r.base.random 0) in
      if text_eq name []
      then (s, reply (bad_request (str "object name is required (?name= or metadata.name)")))
      else (
        record s {
          sessions =
              put upload_id
                (record {
                  bucket = bucket;
                  name = name;
                  content_type = or_else meta.content_type (r.header (str "X-Upload-Content-Type"));
                  content = [];
                })
                s.sessions;
        },
        header_only 200 (
            (str "Location", session_location r bucket upload_id)
            ∷ (str "X-GUploader-UploadID", upload_id)
            ∷ []),
      )

  unfoldable pub start_decoded : GcsRequest → Text → Decoded Metadata → State → State × Reply
  unfolding open_session
  start_decoded r bucket (failed e) s =
      (s, reply (bad_request (str "parse resumable metadata: " ++ e)))
  start_decoded r bucket unchanged s = open_session r bucket no_metadata s
  start_decoded r bucket (decoded meta) s = open_session r bucket meta s

  unfoldable pub start_resumable : GcsRequest → Text → State → State × Reply
  unfolding start_decoded unmarshal_metadata
  start_resumable r bucket s =
      start_decoded r bucket (decode_json unmarshal_metadata r.base.payload) s

  -- The header Range is left out while nothing is stored.
  unfoldable pub write_resume_incomplete : GcsRequest → ℕ → Reply
  write_resume_incomplete r persisted =
      let range = (str "Range", str "bytes=0-" ++ itoa (persisted - 1)) ∷ [] in
      let headers = if ltb 0 persisted then range else [] in
      if text_eq (r.header (str "X-GUploader-No-308")) (str "yes")
      then header_only 200 (headers ++ (str "X-HTTP-Status-Code-Override", str "308") ∷ [])
      else header_only 308 headers

  -- !cr.query && cr.start == int64(len(sess.data))
  abbrev pub applies : ContentRange → UploadSession → Bool
  applies cr sess = not cr.query && (cr.start == length sess.content)

  -- The session behind the chunk.
  abbrev pub extend : ContentRange → Text → UploadSession → UploadSession
  extend cr body sess =
      if applies cr sess then record sess { content = sess.content ++ body } else sess

  -- cr.total >= 0 && int64(persisted) == cr.total
  abbrev pub total_reached : Option ℕ → ℕ → Bool
  total_reached none persisted = false
  total_reached (some total) persisted = persisted == total

  abbrev pub completes : ContentRange → UploadSession → UploadSession → Bool
  completes cr sess extended =
      (applies cr sess && cr.last) || total_reached cr.total (length extended.content)

  -- The object of a complete session is stored where its bucket is still there.
  unfoldable pub finish_session : Text → UploadSession → State → State × Reply
  finish_session upload_id sess s =
      let closed = record s { sessions = delete upload_id s.sessions } in
      let o : Object = record {
        name = sess.name;
        content_type = sess.content_type;
        content = sess.content;
      } in
      if has sess.bucket s.buckets
      then (put_object sess.bucket o closed, reply (write_ok (object_resource lib sess.bucket o)))
      else (closed, reply (not_found (str "bucket not found: " ++ sess.bucket)))

  unfoldable pub resume_session :
      GcsRequest → ContentRange → Text → Text → Option UploadSession → State → State × Reply
  unfolding finish_session
  resume_session r cr body upload_id none s =
      (s, reply (not_found (str "upload session not found: " ++ upload_id)))
  resume_session r cr body upload_id (some sess) s =
      let extended = extend cr body sess in
      if completes cr sess extended then finish_session upload_id extended s else (
        record s { sessions = put upload_id extended s.sessions },
        write_resume_incomplete r (length extended.content),
      )

  unfoldable pub resume_body : GcsRequest → ContentRange → Incoming → State → State × Reply
  unfolding resume_session
  resume_body r cr (read_failed e) s = (s, reply (bad_request (str "read body: " ++ e)))
  resume_body r cr (bytes_read body) s =
      let upload_id = r.base.query (str "upload_id") in
      resume_session r cr body upload_id (get upload_id s.sessions) s

  unfoldable pub resume_range : GcsRequest → ParsedRange → State → State × Reply
  unfolding resume_body
  resume_range r (bad_range e) s = (s, reply (bad_request e))
  resume_range r (good_range cr) s = resume_body r cr r.incoming s

  unfoldable pub resume_upload : GcsHandler
  unfolding resume_range
  resume_upload r s =
      resume_range r (parse_content_range lib.quote (r.header (str "Content-Range"))) s

  -- uploadObj behind its check that the bucket is there.
  unfoldable pub upload_checked : GcsHandler
  unfolding resume_upload start_resumable read_upload store_upload
  upload_checked r s =
      if not (text_eq (r.base.query (str "upload_id")) [])
      then resume_upload r s
      else if text_eq (r.base.query (str "uploadType")) (str "resumable")
      then start_resumable r (path_bucket r) s
      else store_upload (path_bucket r) (read_upload r) s

  -- uploadObj where nothing comes between its check and the rest, which take the lock one after the
  -- other. Gcs.Invariant has the two as steps of their own.
  unfoldable pub upload_object : GcsHandler
  unfolding upload_checked
  upload_object r s =
      if has (path_bucket r) s.buckets
      then upload_checked r s
      else (s, reply (not_found (str "bucket not found: " ++ path_bucket r)))
