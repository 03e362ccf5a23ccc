-- ===== src/Gcs/Reads.antt =====
-- What is read from Cloud Storage (internal/service/gcs/gcs.go) after an upload.

use kiri_gcp.Prelude.{
  ◌≡◌, ◌≢◌, refl, ap, ◌∙◌, inl, inr, true, false, Option, none, some, [], ◌∷◌, ◌++◌, is_some,
  Bool-cases, if◌then◌else◌, ◌&&◌,
}
use kiri_gcp.Text.{Text, str, text_eq}
use kiri_gcp.Text.Laws.{text_eq_iff, text_eq_refl, text_eq-false}
use kiri_gcp.GoMap.{get, has}
use kiri_gcp.Http.{not_found, error, write_json}
use kiri_gcp.Gcs.{
  Bucket, Object, State, GcsRequest, Library, path_bucket, path_object, media_content, put_object,
}
use kiri_gcp.Gcs.Buckets.{get_bucket, answer_bucket}
use kiri_gcp.Gcs.Uploads.{upload, read_upload, store_upload, upload_checked, upload_object}
use kiri_gcp.Gcs.Objects.{lookup, write_media, get_object_media, answer_media}
use kiri_gcp.Gcs.Sound.{lookup-put_object}

-- An upload of a whole object in one request, with a name.
pub record IsWhole (lib : Library) (r : GcsRequest) (o : Object) : Type 0 where
  pub no_session : r.base.query (str "upload_id") ≡ []
  pub not_resumable : r.base.query (str "uploadType") ≢ str "resumable"
  pub carries : read_upload lib r ≡ upload o
  pub has_name : o.name ≢ []

module _ (lib : Library) where
  upload_checked_lem :
      (r : GcsRequest) (o : Object) (s : State)
      → IsWhole lib r o
      → (upload_checked lib r s).0 ≡ put_object (path_bucket r) o s
  unfolding upload_checked store_upload
  upload_checked_lem r o s w =
      rw
        (
          w.no_session,
          text_eq_refl [],
          text_eq-false (r.base.query (str "uploadType")) (str "resumable") w.not_resumable,
          w.carries,
          text_eq-false o.name [] w.has_name,
        )
        refl

  absent :
      (name : Text) (o : Option Bucket) → is_some o ≡ false → (answer_bucket name o).status ≡ 404
  unfolding answer_bucket not_found error write_json
  absent name none h = refl
  absent name (some x) h = cc

  media_lem :
      (r g : GcsRequest) (o : Object) (s : State)
      → path_bucket g ≡ path_bucket r
      → path_object g ≡ o.name
      → (get_object_media lib g (put_object (path_bucket r) o s)).1 ≡ write_media lib o
  unfolding get_object_media answer_media
  media_lem r g o s b n =
      rw
        (
          b,
          n,
          lookup-put_object (path_bucket r) (path_bucket r) o.name o s,
          text_eq_refl (path_bucket r),
          text_eq_refl o.name,
        )
        refl

  upload_object_lem :
      (r : GcsRequest) (o : Object) (s : State)
      → has (path_bucket r) s.buckets ≡ true
      → IsWhole lib r o
      → (upload_object lib r s).0 ≡ put_object (path_bucket r) o s
  unfolding upload_object
  upload_object_lem r o s h w = rw h (upload_checked_lem r o s w)

  -- A download of an object that was uploaded in one request answers 200 with its bytes, its content
  -- type (application/octet-stream where it has none) and its two checksums. Of all names in all
  -- buckets, the upload changes only the object's own. The bucket is there and the object has a name.
  pub get_object_media-upload_object :
      (r g : GcsRequest) (o : Object) (s : State) (c n : Text)
      → has (path_bucket r) s.buckets ≡ true
      → IsWhole lib r o
      → path_bucket g ≡ path_bucket r
      → path_object g ≡ o.name
      → ((get_object_media lib g (upload_object lib r s).0).1 ≡ record {
        status = 200;
        headers =
            (
              str "Content-Type",
              if text_eq o.content_type [] then str "application/octet-stream" else o.content_type,
            )
            ∷ (
              str "X-Goog-Hash",
              str "crc32c="
                  ++ ((lib.checksums o.content).1 ++ (str ",md5=" ++ (lib.checksums o.content).0)),
            )
            ∷ [];
        content = media_content o.content;
      })
        × (lookup c n (upload_object lib r s).0
            ≡ (if text_eq (path_bucket r) c && text_eq o.name n then some o else lookup c n s))
  get_object_media-upload_object r g o s c n h w b m = (
    ap (λ (t : State). (get_object_media lib g t).1) (upload_object_lem r o s h w)
        ∙ media_lem r g o s b m
        ∙ unfold write_media in refl,
    ap (lookup c n) (upload_object_lem r o s h w)
        ∙ lookup-put_object (path_bucket r) c n o s
        ∙ frame,
  )
    where
      frame :
          (if text_eq (path_bucket r) c
            then (if text_eq o.name n then some o else lookup (path_bucket r) n s)
            else lookup c n s)
          ≡ (if text_eq (path_bucket r) c && text_eq o.name n then some o else lookup c n s)
      frame = elim (Bool-cases (text_eq (path_bucket r) c)) [
        | inl e ↦ rw e (
            ap (λ (x : Text). if text_eq o.name n then some o else lookup x n s)
              ((text_eq_iff (path_bucket r) c).0 e))
        | inr e ↦ rw e refl
      ]

  -- An upload checks its bucket and stores its object under two locks. Where the bucket is deleted
  -- between them, the bucket is not found behind the upload and the object is served.
  pub upload_checked_late :
      (r g : GcsRequest) (o : Object) (s : State)
      → has (path_bucket r) s.buckets ≡ false
      → IsWhole lib r o
      → path_bucket g ≡ path_bucket r
      → path_object g ≡ o.name
      → ((get_bucket g (upload_checked lib r s).0).1.status ≡ 404)
        × ((get_object_media lib g (upload_checked lib r s).0).1 ≡ write_media lib o)
  upload_checked_late r g o s h w b m = (
    ap (λ (t : State). (get_bucket g t).1.status) (upload_checked_lem r o s w) ∙ missing,
    ap (λ (t : State). (get_object_media lib g t).1) (upload_checked_lem r o s w)
        ∙ media_lem r g o s b m,
  )
    where
      missing : (get_bucket g (put_object (path_bucket r) o s)).1.status ≡ 404
      missing =
          (unfold get_bucket put_object in
            rw b (absent (path_bucket r) (get (path_bucket r) s.buckets) h))
