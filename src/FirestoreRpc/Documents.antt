-- ===== src/FirestoreRpc/Documents.antt =====
-- What every run of requests keeps, and what a listing of documents returns.
use kiri_gcp.Prelude.{
  ◌≡◌, refl, sym, ap, ◌∙◌, ◌↔◌, ◌⊎◌, ◌≢◌, inl, inr, Bool, true, false, none, some, List, [], ◌∷◌,
  ◌++◌, arith, if◌then◌else◌, Bool-cases, Elem, is_some, append_assoc, ◌==◌,
}
use kiri_gcp.Text.{Text, str, text_eq, has_prefix}
use kiri_gcp.Text.Laws.{text_eq_iff, text_eq_refl, has_prefix-append, has_prefix_rest}
use kiri_gcp.GoMap.{GoMap, get, put, IsUnique}
use kiri_gcp.GoMap.Laws.{get-put, get-delete, put-IsUnique, delete-IsUnique}
use kiri_gcp.FirestoreRpc.{
  Document, Backend, new_backend, get_document, ends_in_slash, list_prefix, documents_below,
  list_documents, create_document, delete_document, Rpc, get_rpc, list_rpc, create_rpc, delete_rpc,
  call_rpc,
}

false_ne_true : false ≢ true
false_ne_true e = cc

-- Each document is there once, under its own name.
pub record IsNamed (b : Backend) : Type 0 where
  pub unique : IsUnique b.documents
  pub named : (n : Text) (doc : Document) → get n b.documents ≡ some doc → doc.name ≡ n

-- The requests with what the clock gives them, in the order in which the lock lets them in.
pub serve : List (Text × Text × Rpc) → Backend → Backend
serve [] b = b
serve ((created, updated, q) ∷ qs) b = serve qs (call_rpc created updated q b).0

call_rpc-IsNamed :
    (created updated : Text) (q : Rpc) (b : Backend)
    → IsNamed b
    → IsNamed (call_rpc created updated q b).0
unfolding call_rpc create_document delete_document
call_rpc-IsNamed created updated (get_rpc name) b h = h
call_rpc-IsNamed created updated (list_rpc parent) b h = h
call_rpc-IsNamed created updated (create_rpc parent doc_id) b h =
    let name = parent ++ (str "/" ++ doc_id) in
    let doc : Document = record { name = name; create_time = created; update_time = updated } in
    record {
      unique = put-IsUnique name doc b.documents h.unique;
      named = λ n d e. elim (Bool-cases (text_eq name n)) [
        | inl t ↦
            ap (λ (x : Document). x.name) (sym (here name n doc d b t e)) ∙ (text_eq_iff name n).0 t
        | inr f ↦ h.named n d (ground (arith, get-put name n doc b.documents))
      ];
    }
  where
    here :
        (name n : Text) (doc d : Document) (b : Backend)
        → text_eq name n ≡ true
        → get n (put name doc b.documents) ≡ some d
        → doc ≡ d
    here name n doc d b t e = ground (arith, get-put name n doc b.documents)
call_rpc-IsNamed created updated (delete_rpc name) b h =
    elim (Bool-cases (is_some (get name b.documents))) [
      | inl t ↦ rw t (record {
        unique = delete-IsUnique name b.documents h.unique;
        named = λ n d e. h.named n d (ground (arith, get-delete name n b.documents));
      })
      | inr f ↦ rw f h
    ]

serve_keeps : (qs : List (Text × Text × Rpc)) (b : Backend) → IsNamed b → IsNamed (serve qs b)
unfolding serve
serve_keeps [] b h = h
serve_keeps ((created, updated, q) ∷ qs) b h =
    serve_keeps qs (call_rpc created updated q b).0 (call_rpc-IsNamed created updated q b h)

-- From an empty store, whatever the requests, each document is there once, under its own name.
pub serve-IsNamed : (qs : List (Text × Text × Rpc)) → IsNamed (serve qs new_backend)
unfolding new_backend get
serve-IsNamed qs = serve_keeps qs new_backend (record { unique = tt; named = λ n d e. cc })

Elem-if :
    (doc d : Document) (rest : List Document) (c : Bool)
    → Elem doc (if c then d ∷ rest else rest) ↔ (((c ≡ true) × (doc ≡ d)) ⊎ Elem doc rest)
Elem-if doc d rest true = (
  λ e. elim e [ inl q ↦ inl (refl, q) | inr r ↦ inr r ],
  λ e. elim e [ inl q ↦ inl q.1 | inr r ↦ inr r ],
)
Elem-if doc d rest false =
    (λ e. inr e, λ e. elim e [ inl q ↦ absurd (false_ne_true q.0) | inr r ↦ r ])

documents_below_lem :
    (prefix : Text) (m : GoMap Document) (doc : Document)
    → IsUnique m
    → ((n : Text) (d : Document) → get n m ≡ some d → d.name ≡ n)
    → Elem doc (documents_below prefix m)
      ↔ ((get doc.name m ≡ some doc) × (has_prefix doc.name prefix ≡ true))
unfolding documents_below get
documents_below_lem prefix [] doc u h = (λ e. absurd e, λ e. cc (e.0))
documents_below_lem prefix ((n, d) ∷ m) doc u h =
    let own : d.name ≡ n = h n d (rw (text_eq_refl n) refl) in
    let ih =
      documents_below_lem prefix m doc u.1
        (λ k e f. h k e (ground (arith, text_eq_iff n k, u.0))) in
    let listed = Elem-if doc d (documents_below prefix m) (has_prefix n prefix) in
    elim (Bool-cases (text_eq n doc.name)) [
      | inl t ↦
          let same : n ≡ doc.name = (text_eq_iff n doc.name).0 t in
          let gone : get doc.name m ≡ none = rw same at u.0 in
          rw t (
            λ e. elim (listed.0 e) [
              | inl q ↦ (ap some (sym q.1), rw same at q.0)
              | inr r ↦ absurd (cc (gone, (ih.0 r).0))
            ],
            λ g. listed.1 (inl (rw same g.1, cc (g.0))),
          )
      | inr f ↦ rw f (
        λ e. elim (listed.0 e) [
          | inl q ↦
              cc (f, (text_eq_iff n doc.name).1 (sym own ∙ ap (λ (x : Document). x.name) (sym q.1)))
          | inr r ↦ ih.0 r
        ],
        λ g. listed.1 (inr (ih.1 g)),
      )
    ]

-- Where the parent ends in a slash, the prefix is the parent, and else the parent and a slash.
ends_in_slash_iff : (t : Text) → (ends_in_slash t ≡ true) ↔ ((dir : Text) × (t ≡ dir ++ str "/"))
unfolding ends_in_slash str
ends_in_slash_iff [] = (λ e. cc, λ h. absurd (append_ne h.0 (sym h.1)))
  where
    append_ne : (dir : Text) → (dir ++ b'/' ∷ []) ≢ []
    append_ne [] e = cc
    append_ne (c ∷ dir) e = cc
ends_in_slash_iff (c ∷ []) = (λ e. ([], ground arith), λ h. last h.0 h.1)
  where
    last : (dir : Text) → c ∷ [] ≡ dir ++ b'/' ∷ [] → (c == b'/') ≡ true
    last [] e = ground arith
    last (d ∷ []) e = cc
    last (d ∷ f ∷ dir) e = cc
ends_in_slash_iff (c ∷ d ∷ t) =
    let ih = ends_in_slash_iff (d ∷ t) in
    (λ e. let h = ih.0 e in (c ∷ h.0, ap (λ (u : Text). c ∷ u) h.1), λ h. ih.1 (tail h.0 h.1))
  where
    tail : (dir : Text) → c ∷ d ∷ t ≡ dir ++ b'/' ∷ [] → (rest : Text) × (d ∷ t ≡ rest ++ b'/' ∷ [])
    tail [] e = cc
    tail (f ∷ dir) e = (dir, cc)

-- A name goes on behind the parent, with a slash unless the parent ends in one.
abbrev pub IsBelow : Text → Text → Type 0
IsBelow parent name =
    (rest : Text) × (name ≡ parent ++ rest)
    × (((dir : Text) × (parent ≡ dir ++ str "/")) ⊎ ((id : Text) × (rest ≡ str "/" ++ id)))

has_prefix-list_prefix :
    (parent name : Text) → (has_prefix name (list_prefix parent) ≡ true) ↔ IsBelow parent name
unfolding list_prefix
has_prefix-list_prefix parent name = elim (Bool-cases (ends_in_slash parent)) [
  | inl e ↦ rw e (
    λ h.
        let (rest, q) = has_prefix_rest name parent h in
        (rest, q, inl ((ends_in_slash_iff parent).0 e)),
    λ b. rw b.1 (has_prefix-append parent b.0),
  )
  | inr f ↦ rw f (
    λ h.
        let (id, q) = has_prefix_rest name (parent ++ str "/") h in
        (str "/" ++ id, q ∙ append_assoc parent (str "/") id, inr (id, refl)),
    λ b. elim b.2 [
      | inl dir ↦ absurd (false_ne_true (sym f ∙ (ends_in_slash_iff parent).1 dir))
      | inr more ↦
          rw (b.1, more.1, ← append_assoc parent (str "/") more.0)
            (has_prefix-append (parent ++ str "/") more.0)
    ],
  )
]

-- From an empty store, whatever the requests, a listing returns exactly the stored documents whose
-- name begins with the parent and goes on with a slash; where the parent itself ends in a slash,
-- those whose name begins with it.
pub list_documents_exact :
    (qs : List (Text × Text × Rpc)) (parent : Text) (doc : Document)
    → Elem doc (list_documents parent (serve qs new_backend))
      ↔ ((get_document doc.name (serve qs new_backend) ≡ some doc) × IsBelow parent doc.name)
unfolding list_documents get_document
list_documents_exact qs parent doc =
    let h = serve-IsNamed qs in
    let listed =
      documents_below_lem (list_prefix parent) (serve qs new_backend).documents doc h.unique
        h.named in
    let below = has_prefix-list_prefix parent doc.name in
    (λ e. let (stored, p) = listed.0 e in (stored, below.0 p), λ k. listed.1 (k.0, below.1 k.1))
