-- ===== src/Gcs/Invariant.antt =====
-- Every route of internal/service/gcs/gcs.go keeps the state sound.
use mathlib.Core.Option
use kiri_gcp.Prelude.{
  ◌≡◌, ◌≢◌, refl, sym, ◌∙◌, inl, inr, true, false, Option, none, some, List, [], ◌∷◌, ◌++◌, arith,
  All, Elem, All-Elem, Bool-cases,
}
use kiri_gcp.Text.{Text, str, text_eq}
use kiri_gcp.GoMap.{GoMap, get, delete, has}
use kiri_gcp.Http.{Decoded, failed, unchanged, decoded, decode_json, id}
use kiri_gcp.Service.{Route}
use kiri_gcp.Gcs.{
  Bucket, Object, UploadSession, State, new, Incoming, read_failed, bytes_read, GcsRequest,
  GcsHandler, Library, path_bucket, path_object,
}
use kiri_gcp.Gcs.Ranges.{ContentRange, ParsedRange, bad_range, good_range}
use kiri_gcp.Gcs.Buckets.{
  unmarshal_bucket, store_bucket, create_decoded, create_bucket, list_buckets, get_bucket,
  delete_bucket,
}
use kiri_gcp.Gcs.Uploads.{
  Metadata, Upload, bad_upload, upload, query_or, unmarshal_metadata, read_upload, store_upload,
  open_session, start_decoded, start_resumable, extend, completes, finish_session, resume_session,
  resume_body, resume_range, resume_upload, upload_checked, upload_object,
}
use kiri_gcp.Gcs.Objects.{
  lookup, list_objects, get_object, get_object_media, delete_from, delete_object, routes,
}
use kiri_gcp.Gcs.Sound.{
  IsSound, put_object-IsSound, new_bucket-IsSound, no_bucket-IsSound, no_object-IsSound,
  new_session-IsSound, no_session-IsSound,
}

abbrev Keeps : GcsHandler → Type 0
Keeps f = (r : GcsRequest) (s : State) → IsSound s → IsSound (f r s).0

named_lem : (t : Text) → text_eq t [] ≡ false → t ≢ []
named_lem [] h e = (unfold text_eq in cc)
named_lem (c ∷ t) h e = cc

new-IsSound : IsSound (new none)
unfolding new lookup Option.bind get
new-IsSound = record {
  bucket_named = λ n b e. cc;
  object_named = λ b n o e. cc;
  listed = λ b e. e;
  session_named = λ i u e. cc;
}

delete_bucket-Keeps : Keeps delete_bucket
unfolding delete_bucket
delete_bucket-Keeps r s h = elim (Bool-cases (has (path_bucket r) s.buckets)) [
  | inl e ↦ rw e (no_bucket-IsSound (path_bucket r) s h)
  | inr e ↦ rw e h
]

module _ (lib : Library) where
  store_bucket-IsSound : (b : Bucket) (s : State) → IsSound s → IsSound (store_bucket lib b s).0
  unfolding store_bucket
  store_bucket-IsSound b s h = elim (Bool-cases (text_eq b.name [])) [
    | inl e ↦ rw e h
    | inr e ↦ elim (Bool-cases (has b.name s.buckets)) [
      | inl f ↦ rw (e, f) h
      | inr f ↦ rw (e, f) (new_bucket-IsSound b s h)
    ]
  ]

  create_decoded-IsSound :
      (d : Decoded Bucket) (s : State) → IsSound s → IsSound (create_decoded lib d s).0
  unfolding create_decoded
  create_decoded-IsSound (failed e) s h = h
  create_decoded-IsSound unchanged s h = store_bucket-IsSound (record { name = [] }) s h
  create_decoded-IsSound (decoded b) s h = store_bucket-IsSound b s h

  create_bucket-Keeps : Keeps (create_bucket lib)
  unfolding create_bucket
  create_bucket-Keeps r s h =
      create_decoded-IsSound (decode_json (unmarshal_bucket lib) r.base.payload) s h

  store_upload-IsSound :
      (b : Text) (u : Upload) (s : State) → IsSound s → IsSound (store_upload lib b u s).0
  unfolding store_upload
  store_upload-IsSound b (bad_upload e) s h = h
  store_upload-IsSound b (upload o) s h = elim (Bool-cases (text_eq o.name [])) [
    | inl e ↦ rw e h
    | inr e ↦ rw e (put_object-IsSound b o s h (named_lem o.name e))
  ]

  finish_session-IsSound :
      (i : Text) (u : UploadSession) (s : State)
      → u.name ≢ []
      → IsSound s
      → IsSound (finish_session lib i u s).0
  unfolding finish_session
  finish_session-IsSound i u s k h = elim (Bool-cases (has u.bucket s.buckets)) [
    | inl e ↦ rw e (
        put_object-IsSound u.bucket _ (record s { sessions = delete i s.sessions })
          (no_session-IsSound i s h) k)
    | inr e ↦ rw e (no_session-IsSound i s h)
  ]

  name-extend :
      (cr : ContentRange) (body : Text) (u : UploadSession) → (extend lib cr body u).name ≡ u.name
  name-extend cr body u = ground arith

  resume_session-IsSound :
      (r : GcsRequest) (cr : ContentRange) (body i : Text) (o : Option UploadSession) (s : State)
      → get i s.sessions ≡ o
      → IsSound s
      → IsSound (resume_session lib r cr body i o s).0
  unfolding resume_session
  resume_session-IsSound r cr body i none s k h = h
  resume_session-IsSound r cr body i (some u) s k h =
      let named : (extend lib cr body u).name ≢ [] =
        λ e. h.session_named i u k (sym (name-extend cr body u) ∙ e) in
      elim (Bool-cases (completes lib cr u (extend lib cr body u))) [
        | inl e ↦ rw e (finish_session-IsSound i (extend lib cr body u) s named h)
        | inr e ↦ rw e (new_session-IsSound i (extend lib cr body u) s h named)
      ]

  resume_body-IsSound :
      (r : GcsRequest) (cr : ContentRange) (b : Incoming) (s : State)
      → IsSound s
      → IsSound (resume_body lib r cr b s).0
  unfolding resume_body
  resume_body-IsSound r cr (read_failed e) s h = h
  resume_body-IsSound r cr (bytes_read body) s h =
      resume_session-IsSound r cr body _ (get (r.base.query (str "upload_id")) s.sessions) s refl h

  resume_range-IsSound :
      (r : GcsRequest) (p : ParsedRange) (s : State)
      → IsSound s
      → IsSound (resume_range lib r p s).0
  unfolding resume_range
  resume_range-IsSound r (bad_range e) s h = h
  resume_range-IsSound r (good_range cr) s h = resume_body-IsSound r cr r.incoming s h

  resume_upload-Keeps : Keeps (resume_upload lib)
  unfolding resume_upload
  resume_upload-Keeps r s h = resume_range-IsSound r _ s h

  open_session-IsSound :
      (r : GcsRequest) (b : Text) (m : Metadata) (s : State)
      → IsSound s
      → IsSound (open_session lib r b m s).0
  unfolding open_session
  open_session-IsSound r b m s h = elim (Bool-cases (text_eq (query_or r m.name) [])) [
    | inl e ↦ rw e h
    | inr e ↦
        rw e (new_session-IsSound (id (r.base.random 0)) _ s h (named_lem (query_or r m.name) e))
  ]

  start_decoded-IsSound :
      (r : GcsRequest) (b : Text) (d : Decoded Metadata) (s : State)
      → IsSound s
      → IsSound (start_decoded lib r b d s).0
  unfolding start_decoded
  start_decoded-IsSound r b (failed e) s h = h
  start_decoded-IsSound r b unchanged s h =
      open_session-IsSound r b (record { name = []; content_type = [] }) s h
  start_decoded-IsSound r b (decoded m) s h = open_session-IsSound r b m s h

  upload_checked-Keeps : Keeps (upload_checked lib)
  unfolding upload_checked start_resumable
  upload_checked-Keeps r s h = elim (Bool-cases (text_eq (r.base.query (str "upload_id")) [])) [
    | inr e ↦ rw e (resume_upload-Keeps r s h)
    | inl e ↦ elim (Bool-cases (text_eq (r.base.query (str "uploadType")) (str "resumable"))) [
      | inl f ↦
          rw (e, f)
            (start_decoded-IsSound r (path_bucket r)
              (decode_json (unmarshal_metadata lib) r.base.payload) s h)
      | inr f ↦ rw (e, f) (store_upload-IsSound (path_bucket r) (read_upload lib r) s h)
    ]
  ]

  upload_object-Keeps : Keeps (upload_object lib)
  unfolding upload_object
  upload_object-Keeps r s h = elim (Bool-cases (has (path_bucket r) s.buckets)) [
    | inl e ↦ rw e (upload_checked-Keeps r s h)
    | inr e ↦ rw e h
  ]

  delete_from-IsSound :
      (r : GcsRequest) (m : Option (GoMap Object)) (s : State)
      → get (path_bucket r) s.objects ≡ m
      → IsSound s
      → IsSound (delete_from lib r m s).0
  unfolding delete_from
  delete_from-IsSound r none s k h = h
  delete_from-IsSound r (some m) s k h = elim (Bool-cases (has (path_object r) m)) [
    | inl e ↦ rw e (no_object-IsSound (path_bucket r) (path_object r) m s h k)
    | inr e ↦ rw e h
  ]

  delete_object-Keeps : Keeps (delete_object lib)
  unfolding delete_object
  delete_object-Keeps r s h = delete_from-IsSound r _ s refl h

  pub routes-Keeps : All (λ route. Keeps route.handler) (routes lib)
  unfolding routes list_buckets get_bucket list_objects get_object get_object_media
  routes-Keeps = (
    create_bucket-Keeps,
    (
      λ r s h. h,
      (
        λ r s h. h,
        (
          delete_bucket-Keeps,
          (
            upload_object-Keeps,
            (
              resume_upload-Keeps,
              (λ r s h. h, (λ r s h. h, (delete_object-Keeps, (λ r s h. h, (λ r s h. h, tt))))),
            ),
          ),
        ),
      ),
    ),
  )

  -- The state with the uploads that have found their bucket and not yet gone on, and one critical
  -- section. A request takes one, but for an upload: `check` is its first part, under the read lock,
  -- and `finish` the second, on the state that it then finds. Other sections may come between the
  -- two. (`request` with upload_object is an upload that nothing comes between.)
  pub data Step : State × List GcsRequest → State × List GcsRequest → Type 0 where
    request :
        {s : State} {waiting : List GcsRequest} (route : Route GcsHandler) (r : GcsRequest)
        → Elem route (routes lib)
        → Step (s, waiting) ((route.handler r s).0, waiting)
    check :
        {s : State} {waiting : List GcsRequest} (r : GcsRequest)
        → has (path_bucket r) s.buckets ≡ true
        → Step (s, waiting) (s, r ∷ waiting)
    finish :
        {s : State} (before : List GcsRequest) (r : GcsRequest) (after : List GcsRequest)
        → Step (s, before ++ r ∷ after) ((upload_checked lib r s).0, before ++ after)

  pub data Reach (start : State × List GcsRequest) : State × List GcsRequest → Type 0 where
    here : Reach start start
    next : {t u : State × List GcsRequest} → Reach start t → Step t u → Reach start u

  Step-IsSound : {t u : State × List GcsRequest} → Step t u → IsSound t.0 → IsSound u.0
  Step-IsSound (request {s} route r k) h =
      All-Elem (λ c. Keeps c.handler) (routes lib) routes-Keeps route k r s h
  Step-IsSound (check r k) h = h
  Step-IsSound (finish {s} before r after) h = upload_checked-Keeps r s h

  keeps : {start t : State × List GcsRequest} → IsSound start.0 → Reach start t → IsSound t.0
  keeps h here = h
  keeps h (next reached step) = Step-IsSound step (keeps h reached)

  -- Whatever requests a new service gets, each on one of its routes, and however the two parts of the
  -- uploads are interleaved with other requests, its state is sound: a bucket and an object are under
  -- their own names, an object has a name, each bucket has its map of objects, so that listing its
  -- objects finds it, and an upload in progress has a name.
  pub Reach-IsSound :
      {s : State} {waiting : List GcsRequest} → Reach (new none, []) (s, waiting) → IsSound s
  Reach-IsSound reached = keeps new-IsSound reached
