-- ===== src/Gcs/Chunks.antt =====
-- Resumable uploads of internal/service/gcs/gcs.go, chunk by chunk.

use kiri_gcp.Prelude.{
  ℕ, ◌+◌, ◌-◌, ◌≡◌, ◌≢◌, refl, sym, ap, ◌∙◌, inl, inr, ◌⊎◌, true, false, Option, none, some, List,
  [], ◌∷◌, ◌++◌, arith, Bool, ltb, if◌then◌else◌, ◌==◌, length, length-append, subst, append_assoc,
  append-nil, Bool-cases,
}
use kiri_gcp.Text.{Text, str, text_eq, itoa}
use kiri_gcp.Text.Laws.{text_eq_iff, text_eq_refl}
use kiri_gcp.GoMap.{GoMap, get, put, delete, has}
use kiri_gcp.GoMap.Laws.{get-put_self}
use kiri_gcp.Gcs.{UploadSession, State, bytes_read, GcsRequest, Reply, header_only, Library}
use kiri_gcp.Gcs.Ranges.Printing.{
  RangeForm, chunk_form, rest_form, status_form, form_total, FitsForm, print_range, range_of,
  parse_content_range-print_range,
}
use kiri_gcp.Gcs.Uploads.{
  upload, store_upload, write_resume_incomplete, applies, total_reached, finish_session,
  resume_session, resume_body, resume_range, resume_upload,
}

-- The last write to a key is the one that counts, and a delete forgets it.
delete-put : {V : Type 0} (k : Text) (v : V) (m : GoMap V) → delete k (put k v m) ≡ delete k m
unfolding delete put
delete-put k v [] = rw (text_eq_refl k) refl
delete-put k v ((j, w) ∷ m) = ground (arith, text_eq_refl k, delete-put k v m)

put-put : {V : Type 0} (k : Text) (v w : V) (m : GoMap V) → put k w (put k v m) ≡ put k w m
unfolding put
put-put k v w [] = rw (text_eq_refl k) refl
put-put k v w ((j, u) ∷ m) = ground (arith, text_eq_refl k, put-put k v w m)

put_same : {V : Type 0} (k : Text) (v : V) (m : GoMap V) → get k m ≡ some v → put k v m ≡ m
unfolding get put
put_same k v [] = λ h. cc
put_same k v ((j, w) ∷ m) = elim (Bool-cases (text_eq j k)) [
  | inl e ↦ rw e λ h. cc ((text_eq_iff j k).0 e, h)
  | inr e ↦ rw e λ h. ap (λ (t : GoMap _). (j, w) ∷ t) (put_same k v m h)
]

-- A request that carries the next bytes of a session: they start at an offset, and the header has
-- their offsets.
pub record IsChunk (upload_id body : Text) (form : RangeForm) (r : GcsRequest) : Type 0 where
  pub query_is : r.base.query (str "upload_id") ≡ upload_id
  pub body_is : r.incoming ≡ bytes_read body
  pub header_is : r.header (str "Content-Range") ≡ print_range form
  pub fits : FitsForm form

-- The chunks of an upload but the last: each starts where the one before it ended.
abbrev pub AreChunks : Text → ℕ → List (GcsRequest × Text) → Type 0
AreChunks upload_id n [] = Unit
AreChunks upload_id n ((r, body) ∷ chunks) =
    IsChunk upload_id body (chunk_form n (n + length body - 1) none) r
    × AreChunks upload_id (n + length body) chunks

abbrev pub bytes_of : List (GcsRequest × Text) → Text
bytes_of [] = []
bytes_of ((r, body) ∷ chunks) = body ++ bytes_of chunks

-- The status 308, or 200 and the same in a header where the client asks for that.
abbrev pub IsAsked : Bool → Reply → Type 0
IsAsked true reply =
    (reply.status ≡ 200)
    × (get (str "X-HTTP-Status-Code-Override") reply.headers ≡ some (str "308"))
IsAsked false reply = reply.status ≡ 308

-- The answer to an upload that goes on, with its header x where bytes are stored.
abbrev incomplete : Text → Bool → Bool → Reply
incomplete x stored asked =
    let headers : GoMap Text = if stored then (str "Range", x) ∷ [] else [] in
    if asked
    then header_only 200 (headers ++ (str "X-HTTP-Status-Code-Override", str "308") ∷ [])
    else header_only 308 headers

range_lem :
    (x : Text) (stored asked : Bool)
    → get (str "Range") (incomplete x stored asked).headers ≡ (if stored then some x else none)
unfolding get text_eq str
range_lem x true true = refl
range_lem x true false = refl
range_lem x false true = refl
range_lem x false false = refl

status_lem : (x : Text) (stored asked : Bool) → IsAsked asked (incomplete x stored asked)
unfolding get text_eq str
status_lem x true true = (refl, refl)
status_lem x true false = refl
status_lem x false true = (refl, refl)
status_lem x false false = refl

module _ (lib : Library) where
  -- The state behind some requests, each of which resumes an upload.
  unfoldable pub resume_each : List (GcsRequest × Text) → State → State
  resume_each [] s = s
  resume_each ((r, body) ∷ chunks) s = resume_each chunks (resume_upload lib r s).0

  resume_chunk :
      (upload_id body : Text) (form : RangeForm) (r : GcsRequest) (s : State)
      → IsChunk upload_id body form r
      → resume_upload lib r s
        ≡ resume_session lib r (range_of form) body upload_id (get upload_id s.sessions) s
  unfolding resume_upload resume_range resume_body
  resume_chunk upload_id body form r s c =
      rw (c.header_is, parse_content_range-print_range lib.quote form c.fits, c.body_is, c.query_is)
        refl

  appended : Text → UploadSession → UploadSession
  appended body sess = record sess { content = sess.content ++ body }

  -- A chunk that is not the last one is put behind the bytes of its session.
  resume_middle :
      (upload_id body : Text) (final : ℕ) (r : GcsRequest) (s : State) (sess : UploadSession)
      → get upload_id s.sessions ≡ some sess
      → IsChunk upload_id body (chunk_form (length sess.content) final none) r
      → (resume_upload lib r s).0
        ≡ record s { sessions = put upload_id (appended body sess) s.sessions }
  unfolding resume_session appended
  resume_middle upload_id body final r s sess h c =
      ap (λ (x : State × Reply). x.0) (resume_chunk upload_id body _ r s c) ∙ rw (h, same) refl
    where
      same : (length sess.content == length sess.content) ≡ true
      same = ground arith

  -- The last chunk of known size stores the object.
  resume_last :
      (upload_id body : Text) (final : ℕ) (r : GcsRequest) (s : State) (sess : UploadSession)
      → get upload_id s.sessions ≡ some sess
      → IsChunk upload_id body
          (chunk_form (length sess.content) final (some (length sess.content + length body)))
          r
      → resume_upload lib r s ≡ finish_session lib upload_id (appended body sess) s
  unfolding resume_session appended
  resume_last upload_id body final r s sess h c =
      resume_chunk upload_id body _ r s c ∙ rw (h, same, full) refl
    where
      full : (length (sess.content ++ body) == length sess.content + length body) ≡ true
      full = ground (arith, length-append sess.content body)

      same : (length sess.content == length sess.content) ≡ true
      same = ground arith

  resume_each_lem :
      (upload_id : Text) (chunks : List (GcsRequest × Text)) (s : State) (sess : UploadSession)
      → get upload_id s.sessions ≡ some sess
      → AreChunks upload_id (length sess.content) chunks
      → resume_each chunks s
        ≡ record s { sessions = put upload_id (appended (bytes_of chunks) sess) s.sessions }
  unfolding resume_each appended
  resume_each_lem upload_id [] s sess h c =
      ap (λ (m : GoMap UploadSession). record s { sessions = m })
        (sym (put_same upload_id sess s.sessions h)
          ∙ ap (λ (t : Text). put upload_id (record sess { content = t }) s.sessions)
              (sym (append-nil sess.content)))
  resume_each_lem upload_id ((r, body) ∷ chunks) s sess h (c, cs) =
      let next = record sess { content = sess.content ++ body } in
      let sessions = put upload_id next s.sessions in
      ap (resume_each chunks) (resume_middle upload_id body _ r s sess h c)
      ∙ resume_each_lem upload_id chunks (record s { sessions = sessions }) next
          (get-put_self upload_id next s.sessions)
          (subst (λ (n : ℕ). AreChunks upload_id n chunks) (sym (length-append sess.content body))
            cs)
      ∙ ap (λ (m : GoMap UploadSession). record s { sessions = m })
          (put-put upload_id next
              (record sess { content = (sess.content ++ body) ++ bytes_of chunks }) s.sessions
            ∙ ap (λ (t : Text). put upload_id (record sess { content = t }) s.sessions)
                (append_assoc sess.content body (bytes_of chunks)))

  finish_session_lem :
      (upload_id : Text) (sess : UploadSession) (s : State)
      → has sess.bucket s.buckets ≡ true
      → text_eq sess.name [] ≡ false
      → finish_session lib upload_id sess s
        ≡ store_upload lib sess.bucket
            (upload (record {
              name = sess.name;
              content_type = sess.content_type;
              content = sess.content;
            }))
            (record s { sessions = delete upload_id s.sessions })
  unfolding finish_session store_upload
  finish_session_lem upload_id sess s h n = rw (h, n) refl

  -- An upload in chunks is one in a single request: where the chunks continue the bytes of a session
  -- and the last one brings them to the size that it names, the state and the answer behind them are
  -- those of an upload of all bytes at once, with the session closed. The session's bucket is there
  -- and its object has a name.
  pub resume_upload-resume_each :
      (upload_id : Text) (chunks : List (GcsRequest × Text)) (last : GcsRequest) (body : Text)
      (s : State) (sess : UploadSession)
      → get upload_id s.sessions ≡ some sess
      → has sess.bucket s.buckets ≡ true
      → text_eq sess.name [] ≡ false
      → AreChunks upload_id (length sess.content) chunks
      → IsChunk upload_id body
          (let n = length (sess.content ++ bytes_of chunks) in
            chunk_form n (n + length body - 1) (some (n + length body)))
          last
      → resume_upload lib last (resume_each chunks s)
        ≡ store_upload lib sess.bucket
            (upload (record {
              name = sess.name;
              content_type = sess.content_type;
              content = (sess.content ++ bytes_of chunks) ++ body;
            }))
            (record s { sessions = delete upload_id s.sessions })
  unfolding appended
  resume_upload-resume_each upload_id chunks last body s sess h b n c l =
      let collected = record sess { content = sess.content ++ bytes_of chunks } in
      let behind = record s { sessions = put upload_id collected s.sessions } in
      let whole = record sess { content = (sess.content ++ bytes_of chunks) ++ body } in
      ap (resume_upload lib last) (resume_each_lem upload_id chunks s sess h c)
      ∙ resume_last upload_id body _ last behind collected
          (get-put_self upload_id collected s.sessions) l
      ∙ finish_session_lem upload_id whole behind b n
      ∙ ap
          (λ (m : GoMap UploadSession).
            store_upload lib sess.bucket
              (upload (record {
                name = sess.name;
                content_type = sess.content_type;
                content = whole.content;
              }))
              (record s { sessions = m }))
          (delete-put upload_id collected s.sessions)

  range-write_resume_incomplete :
      (r : GcsRequest) (n : ℕ)
      → get (str "Range") (write_resume_incomplete lib r n).headers
        ≡ (if ltb 0 n then some (str "bytes=0-" ++ itoa (n - 1)) else none)
  unfolding write_resume_incomplete
  range-write_resume_incomplete r n =
      range_lem (str "bytes=0-" ++ itoa (n - 1)) (ltb 0 n)
        (text_eq (r.header (str "X-GUploader-No-308")) (str "yes"))

  status-write_resume_incomplete :
      (r : GcsRequest) (n : ℕ)
      → IsAsked
          (text_eq (r.header (str "X-GUploader-No-308")) (str "yes"))
          (write_resume_incomplete lib r n)
  unfolding write_resume_incomplete
  status-write_resume_incomplete r n =
      status_lem (str "bytes=0-" ++ itoa (n - 1)) (ltb 0 n)
        (text_eq (r.header (str "X-GUploader-No-308")) (str "yes"))

  resume_upload_incomplete :
      (upload_id body : Text) (form : RangeForm) (r : GcsRequest) (s : State) (sess : UploadSession)
      → get upload_id s.sessions ≡ some sess
      → IsChunk upload_id body form r
      → ((range_of form).query ≡ true) ⊎ ((range_of form).start ≢ length sess.content)
      → form_total form ≢ some (length sess.content)
      → resume_upload lib r s ≡ (s, write_resume_incomplete lib r (length sess.content))
  unfolding resume_session
  resume_upload_incomplete upload_id body form r s sess h c out size =
      resume_chunk upload_id body form r s c
      ∙ rw (h, stays, unfinished (range_of form).total (total_lem form size))
          (ap
            (λ (m : GoMap UploadSession).
              (record s { sessions = m }, write_resume_incomplete lib r (length sess.content)))
            (put_same upload_id sess s.sessions h))
    where
      total_lem :
          (f : RangeForm)
          → form_total f ≢ some (length sess.content)
          → (range_of f).total ≢ some (length sess.content)
      total_lem (chunk_form first final total) k = k
      total_lem (rest_form first total) k = k
      total_lem (status_form total) k = k

      stays : applies lib (range_of form) sess ≡ false
      stays = elim out [ inl e ↦ rw e refl | inr e ↦ ground arith ]

      unfinished :
          (total : Option ℕ)
          → total ≢ some (length sess.content)
          → total_reached lib total (length sess.content) ≡ false
      unfinished none k = refl
      unfinished (some total) k = ground arith

  -- A status check, or a chunk that does not start where the session's n bytes end, changes nothing.
  -- It is answered with the header "Range: bytes=0-" and n - 1, and with no such header where n is 0.
  -- The status is 308, or 200 with that status in a header where the client asks for it. The size
  -- that the request names, if it names one, is not n.
  pub resume_upload_unapplied :
      (upload_id body : Text) (form : RangeForm) (r : GcsRequest) (s : State) (sess : UploadSession)
      → get upload_id s.sessions ≡ some sess
      → IsChunk upload_id body form r
      → ((range_of form).query ≡ true) ⊎ ((range_of form).start ≢ length sess.content)
      → form_total form ≢ some (length sess.content)
      → let (behind, reply) = resume_upload lib r s in
        let n = length sess.content in
        (behind ≡ s)
        × (get (str "Range") reply.headers
            ≡ (if ltb 0 n then some (str "bytes=0-" ++ itoa (n - 1)) else none))
        × IsAsked (text_eq (r.header (str "X-GUploader-No-308")) (str "yes")) reply
  resume_upload_unapplied upload_id body form r s sess h c out size =
      rw (resume_upload_incomplete upload_id body form r s sess h c out size) (
        refl,
        range-write_resume_incomplete r (length sess.content),
        status-write_resume_incomplete r (length sess.content),
      )
