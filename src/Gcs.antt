-- ===== src/Gcs.antt =====
-- internal/service/gcs/gcs.go: Cloud Storage. The buckets, the objects with their bytes, and the
-- sessions of resumable uploads. Each handler takes its lock once around what it reads and writes, but
-- for the check of the bucket at the start of an upload. What comes from packages outside the
-- repository (the checksums, url.PathEscape, fmt's %q, the text of a type error of encoding/json) is
-- the parameter `Library`; what mime/multipart finds in a body is data of the request.
pub mod Ranges
pub mod Buckets
pub mod Uploads
pub mod Objects
pub mod Chunks
pub mod Sound
pub mod Invariant
pub mod Reads
use kiri_gcp.Prelude.{
  ℕ, ◌≡◌, Bool, true, false, Option, none, some, List, [], ◌∷◌, ◌++◌, length, if◌then◌else◌,
}
use kiri_gcp.Text.{Text, str, itoa}
use kiri_gcp.GoMap.{GoMap, get, put, has}
use kiri_gcp.Json.{Json, string, object_of}
use kiri_gcp.Http.{Payload, Request, Response}

pub record Bucket : Type 0 where
  pub name : Text

pub record Object : Type 0 where
  pub name : Text
  pub content_type : Text
  pub content : Text

-- An upload in progress.
pub record UploadSession : Type 0 where
  pub bucket : Text
  pub name : Text
  pub content_type : Text
  pub content : Text

-- `objects` is by bucket and by name. A nil inner map is an empty one, which the code treats alike.
pub record State : Type 0 where
  pub buckets : GoMap Bucket
  pub objects : GoMap (GoMap Object)
  pub sessions : GoMap UploadSession

-- The part of the state that the storage package keeps.
pub record Persisted : Type 0 where
  pub buckets : GoMap Bucket
  pub objects : GoMap (GoMap Object)

-- New() and the load in init: a nil map of the snapshot is an empty one.
unfoldable pub new : Option Persisted → State
new none = record { buckets = []; objects = []; sessions = [] }
new (some p) = record { buckets = p.buckets; objects = p.objects; sessions = [] }

-- What io.ReadAll gives for a body.
pub data Incoming : Type 0 where
  read_failed : (error : Text) → Incoming
  bytes_read : Text → Incoming

-- What NextPart of a multipart reader gives: the part's JSON, its bytes and its content type.
pub data Part : Type 0 where
  no_part : (error : Text) → Part
  next_part : (payload : Payload) (incoming : Incoming) (content_type : Text) → Part

pub record GcsRequest : Type 0 where
  pub base : Request
  -- r.Header.Get(name)
  pub header : Text → Text
  pub incoming : Incoming
  -- the error of mime.ParseMediaType
  pub media_type_error : Option Text
  pub first_part : Part
  pub second_part : Part
  pub host : Text
  pub tls : Bool

pub data Content : Type 0 where
  no_content : Content
  json_content : Option Json → Content
  media_content : Text → Content

-- The status, the headers that the handler sets by itself, and the body.
pub record Reply : Type 0 where
  pub status : ℕ
  pub headers : GoMap Text
  pub content : Content

-- A reply by one of the functions of internal/httpx.
abbrev pub reply : Response → Reply
reply r = record {
  status = r.status;
  headers = (str "Content-Type", r.content_type) ∷ [];
  content = json_content r.body;
}

-- w.WriteHeader(status), and nothing else.
abbrev pub header_only : ℕ → GoMap Text → Reply
header_only status headers = record { status = status; headers = headers; content = no_content }

abbrev pub GcsHandler : Type 0
GcsHandler = GcsRequest → State → State × Reply

pub record Library : Type 0 where
  -- the MD5 and the CRC32C, both in base64
  pub checksums : Text → Text × Text
  pub path_escape : Text → Text
  pub quote : Text → Text
  pub type_error : Json → Text

abbrev pub path_bucket : GcsRequest → Text
path_bucket r = r.base.path_value (str "bucket")

abbrev pub path_object : GcsRequest → Text
path_object r = r.base.path_value (str "obj")

abbrev pub or_no_objects : Option (GoMap Object) → GoMap Object
or_no_objects none = []
or_no_objects (some m) = m

-- The two statements that put an object into its bucket's map, which is made where it is missing.
unfoldable pub put_object : Text → Object → State → State
put_object bucket o s = record s {
  objects = put bucket (put o.name o (or_no_objects (get bucket s.objects))) s.objects;
}

unfoldable pub bucket_resource : Bucket → Json
bucket_resource b = object_of (
    (str "kind", string (str "storage#bucket"))
    ∷ (str "id", string b.name)
    ∷ (str "name", string b.name)
    ∷ [])

module _ (lib : Library) where
  unfoldable pub object_resource : Text → Object → Json
  object_resource bucket o = object_of (
      (str "kind", string (str "storage#object"))
      ∷ (str "bucket", string bucket)
      ∷ (str "name", string o.name)
      ∷ (str "contentType", string o.content_type)
      ∷ (str "size", string (itoa (length o.content)))
      ∷ (str "md5Hash", string (lib.checksums o.content).0)
      ∷ (str "crc32c", string (lib.checksums o.content).1)
      ∷ [])
