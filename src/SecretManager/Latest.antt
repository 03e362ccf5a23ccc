-- ===== src/SecretManager/Latest.antt =====
-- Versions of a secret and reads of them (internal/service/secretmanager/secretmanager.go).
use kiri_gcp.Prelude.{
  suc, ◌≡◌, refl, sym, append_assoc, ap, ◌∙◌, inl, inr, true, false, none, [], ◌∷◌, ◌++◌,
  Bool-cases,
}
use kiri_gcp.Text.{Text, str, text_eq, has_prefix, itoa}
use kiri_gcp.Text.Laws.{text_eq-false, text_eq_refl, has_prefix-append}
use kiri_gcp.GoMap.{GoMap, get, put, has}
use kiri_gcp.GoMap.Laws.{get-put, get-put_self}
use kiri_gcp.Json.{Json, string, object_of}
use kiri_gcp.Http.{Request, write_ok, not_found, error, write_json, split_verb}
use kiri_gcp.SecretManager.{
  State, body_map, secret_name, version_name, drop_below, delete_secret, count_of, version_of,
  store_version, or_null, answer_version, access,
}

get-put_other :
    (k j : Text) (v : Json) (m : GoMap Json) → text_eq k j ≡ false → get j (put k v m) ≡ get j m
get-put_other k j v m h = get-put k j v m ∙ rw h refl

payload_lem :
    (r : Request) (name : Text)
    → get (str "payload") (version_of r name) ≡ get (str "payload") (body_map r.payload)
unfolding version_of
payload_lem r name =
    get-put_other (str "createTime") (str "payload") _ _ time_differs
    ∙ get-put_other (str "state") (str "payload") _ _ state_differs
    ∙ get-put_other (str "name") (str "payload") _ _ name_differs
  where
    time_differs : text_eq (str "createTime") (str "payload") ≡ false
    time_differs = unfold str text_eq in refl

    state_differs : text_eq (str "state") (str "payload") ≡ false
    state_differs = unfold str text_eq in refl

    name_differs : text_eq (str "name") (str "payload") ≡ false
    name_differs = unfold str text_eq in refl

-- A version that is added is the latest one: an access to the latest version of its secret answers
-- with the payload that was sent and the next number. The secret is there.
pub access-store_version :
    (r g : Request) (secret : Text) (s : State)
    → has (secret_name r secret) s.secrets ≡ true
    → secret_name g (g.path_value (str "secret")) ≡ secret_name r secret
    → split_verb (g.path_value (str "version")) ≡ (str "latest", str "access")
    → (access g (store_version r secret s).0).1
      ≡ write_ok (
          object_of (
            (
              str "name",
              string (
                  version_name
                    (secret_name r secret)
                    (itoa (suc (count_of (get (secret_name r secret) s.counter))))),
            )
            ∷ (str "payload", or_null (get (str "payload") (body_map r.payload)))
            ∷ []))
unfolding access store_version answer_version
access-store_version r g secret s h e v =
    rw (h, v, e, text_eq_refl (str "latest"))
      (let secret_path = secret_name r secret in
        let number = suc (count_of (get secret_path s.counter)) in
        let name = version_name secret_path (itoa number) in
        rw
          (
            get-put_self secret_path number s.counter,
            get-put_self name (version_of r name) s.versions,
            text_eq_refl (str "access"),
            payload_lem r name,
          )
          refl)

-- No version of a deleted secret is left.
get-drop_below :
    (prefix name : Text) (m : GoMap (GoMap Json))
    → has_prefix name prefix ≡ true
    → get name (drop_below prefix m) ≡ none
unfolding get drop_below
get-drop_below prefix name [] h = refl
get-drop_below prefix name ((n, v) ∷ m) h = elim (Bool-cases (has_prefix n prefix)) [
  | inl k ↦ rw k (get-drop_below prefix name m h)
  | inr k ↦ rw (k, differs k) (get-drop_below prefix name m h)
]
  where
    differs : has_prefix n prefix ≡ false → text_eq n name ≡ false
    differs k = text_eq-false n name λ e.
        let both : true ≡ false = sym h ∙ ap (λ (t : Text). has_prefix t prefix) (sym e) ∙ k in cc

gone_lem :
    (secret version verb : Text) (m : GoMap (GoMap Json))
    → (answer_version
        (version_name secret version)
        verb
        (get (version_name secret version) (drop_below (secret ++ str "/versions/") m))).status
      ≡ 404
unfolding answer_version not_found error write_json
gone_lem secret version verb m =
    rw (get-drop_below (secret ++ str "/versions/") (version_name secret version) m under) refl
  where
    under : has_prefix (version_name secret version) (secret ++ str "/versions/") ≡ true
    under =
        (unfold version_name in
          ap (λ (t : Text). has_prefix t (secret ++ str "/versions/"))
            (sym (append_assoc secret (str "/versions/") version))
          ∙ has_prefix-append (secret ++ str "/versions/") version)

-- No version of a secret can be read after the secret was deleted.
pub access-delete_secret :
    (r g : Request) (s : State)
    → has (secret_name r (r.path_value (str "secret"))) s.secrets ≡ true
    → secret_name g (g.path_value (str "secret")) ≡ secret_name r (r.path_value (str "secret"))
    → (access g (delete_secret r s).0).1.status ≡ 404
unfolding access delete_secret
access-delete_secret r g s h e =
    rw (h, e)
      (gone_lem (secret_name r (r.path_value (str "secret"))) _
        (split_verb (g.path_value (str "version"))).1 s.versions)
