-- ===== src/Tests/Documents.antt =====
-- The theorems on internal/grpcsvc/firestore/firestore.go at concrete inputs.
use kiri_gcp.Prelude.{◌≡◌, ◌↔◌, some, List, [], ◌∷◌, Elem}
use kiri_gcp.Text.{Text, str}
use kiri_gcp.FirestoreRpc.{
  Document, new_backend, get_document, list_documents, Rpc, create_rpc, delete_rpc,
}
use kiri_gcp.FirestoreRpc.Documents.{serve, IsBelow, list_documents_exact}

abbrev calls : List (Text × Text × Rpc)
calls =
    (str "t1", str "t2", create_rpc (str "docs") (str "a"))
    ∷ (str "t3", str "t4", create_rpc (str "docs") (str "b"))
    ∷ (str "t5", str "t6", delete_rpc (str "docs/a"))
    ∷ []

abbrev doc_b : Document
doc_b = record { name = str "docs/b"; create_time = str "t3"; update_time = str "t4" }

list_documents_exact_example :
    Elem doc_b (list_documents (str "docs") (serve calls new_backend)) ↔ (
      (get_document (str "docs/b") (serve calls new_backend) ≡ some doc_b)
      × IsBelow (str "docs") (str "docs/b"))
list_documents_exact_example = list_documents_exact calls (str "docs") doc_b
