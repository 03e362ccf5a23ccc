-- ===== src/FirestoreRpc.antt =====
-- internal/grpcsvc/firestore/firestore.go: MergeBackend and the four unary gRPC methods over it. A
-- request is what the handler has after decoding. The clock is read twice by CreateDocument.
pub mod Documents
use kiri_gcp.Prelude.{
  ℕ, Bool, true, false, Option, none, some, List, [], ◌∷◌, ◌++◌, if◌then◌else◌, is_some, ◌==◌,
}
use kiri_gcp.Text.{Text, str, has_prefix}
use kiri_gcp.GoMap.{GoMap, get, put, delete}

-- protow.DocumentMsg
pub record Document : Type 0 where
  pub name : Text
  pub create_time : Text
  pub update_time : Text

pub record Backend : Type 0 where
  pub documents : GoMap Document

unfoldable pub new_backend : Backend
new_backend = record { documents = [] }

unfoldable pub get_document : Text → Backend → Option Document
get_document name b = get name b.documents

-- prefix[len(prefix)-1] == '/', and false for the empty string.
unfoldable pub ends_in_slash : Text → Bool
ends_in_slash [] = false
ends_in_slash (c ∷ []) = c == b'/'
ends_in_slash (c ∷ d ∷ s) = ends_in_slash (d ∷ s)

unfoldable pub list_prefix : Text → Text
unfolding ends_in_slash
list_prefix parent = if ends_in_slash parent then parent else parent ++ str "/"

-- The loop of ListDocuments, in the order in which the map is run through.
unfoldable pub documents_below : Text → GoMap Document → List Document
documents_below prefix [] = []
documents_below prefix ((name, doc) ∷ m) =
    let rest = documents_below prefix m in if has_prefix name prefix then doc ∷ rest else rest

unfoldable pub list_documents : Text → Backend → List Document
unfolding documents_below
list_documents parent b = documents_below (list_prefix parent) b.documents

unfoldable pub create_document : Text → Text → Text → Text → Backend → Backend × Document
create_document created updated parent doc_id b =
    let name = parent ++ (str "/" ++ doc_id) in
    let doc : Document = record { name = name; create_time = created; update_time = updated } in
    (record b { documents = put name doc b.documents }, doc)

unfoldable pub delete_document : Text → Backend → Backend × Bool
delete_document name b =
    if is_some (get name b.documents)
    then (record b { documents = delete name b.documents }, true)
    else (b, false)

-- The decoded request of each method; the collection ids of a list and of a create are not read.
pub data Rpc : Type 0 where
  get_rpc delete_rpc : (name : Text) → Rpc
  list_rpc : (parent : Text) → Rpc
  create_rpc : (parent doc_id : Text) → Rpc

pub data Reply : Type 0 where
  document : Document → Reply
  documents_reply : List Document → Reply
  empty : Reply
  not_found : (message : Text) → Reply

answer_document : Text → Option Document → Reply
answer_document name none = not_found (str "document not found: " ++ name)
answer_document name (some doc) = document doc

-- The handlers; `created` and `updated` are what the clock gives.
unfoldable pub call_rpc : Text → Text → Rpc → Backend → Backend × Reply
unfolding answer_document
call_rpc created updated (get_rpc name) b = (b, answer_document name (get_document name b))
call_rpc created updated (list_rpc parent) b = (b, documents_reply (list_documents parent b))
call_rpc created updated (create_rpc parent doc_id) b =
    let (b', doc) = create_document created updated parent doc_id b in (b', document doc)
call_rpc created updated (delete_rpc name) b =
    let (b', found) = delete_document name b in
    (b', if found then empty else not_found (str "document not found: " ++ name))
