-- ===== src/SecretManager.antt =====
-- internal/service/secretmanager/secretmanager.go: secrets and their numbered versions. The handlers
-- read the first JSON value of a body, which is the payload of a request here, and ignore an error.
-- A version number stays far below 2^63.
pub mod Latest
use mathlib.Core.Option
use kiri_gcp.Prelude.{
  ℕ, suc, Bool, true, false, not, Option, none, some, List, [], ◌∷◌, ◌++◌, if◌then◌else◌,
}
use kiri_gcp.Text.{Text, str, text_eq, has_prefix, itoa}
use kiri_gcp.GoMap.{GoMap, get, put, delete, has}
use kiri_gcp.Json.{Json, null, string, object, list_of, object_of, to_map}
use kiri_gcp.Http.{
  Payload, valid, Request, Response, write_ok, bad_request, already_exists, not_found, split_verb,
}
use kiri_gcp.Service.{Meta, Handler, Route, fidelity_a, state_behavioral}

pub record State : Type 0 where
  pub secrets : GoMap (GoMap Json)
  pub versions : GoMap (GoMap Json)
  -- the number of the last version of each secret
  pub counter : GoMap ℕ

-- New(): what the storage package loads, where a nil map is an empty one.
unfoldable pub new : Option State → State
new none = record { secrets = []; versions = []; counter = [] }
new (some loaded) = loaded

-- A body that is no object leaves an empty map.
unfoldable pub body_map : Payload → GoMap Json
body_map (valid (object fs)) = to_map fs
body_map _ = []

unfoldable pub secrets_prefix : Request → Text
secrets_prefix r = str "projects/" ++ (r.path_value (str "project") ++ str "/secrets/")

unfoldable pub secret_name : Request → Text → Text
unfolding secrets_prefix
secret_name r secret = secrets_prefix r ++ secret

unfoldable pub version_name : Text → Text → Text
version_name secret version = secret ++ (str "/versions/" ++ version)

-- v, ok := req["secretId"].(string)
text_of : Option Json → Text
text_of (some (string s)) = s
text_of _ = []

unfoldable pub secret_id : Request → Text
unfolding text_of
secret_id r =
    if text_eq (r.query (str "secretId")) []
    then text_of (get (str "secretId") (body_map r.payload))
    else r.query (str "secretId")

unfoldable pub create : Handler State
unfolding secret_id
create r s =
    let name = secret_name r (secret_id r) in
    let named = put (str "name") (string name) (body_map r.payload) in
    let secret = put (str "createTime") (string r.clock) named in
    if text_eq (secret_id r) []
    then (s, bad_request (str "secretId query parameter is required"))
    else if has name s.secrets
    then (s, already_exists (str "secret already exists: " ++ name))
    else (record s { secrets = put name secret s.secrets }, write_ok (object_of secret))

-- The secrets of a project in the order of the range, which is not sorted.
secrets_below : Text → GoMap (GoMap Json) → List Json
secrets_below prefix [] = []
secrets_below prefix ((n, secret) ∷ m) =
    let rest = secrets_below prefix m in
    if has_prefix n prefix then object_of secret ∷ rest else rest

unfoldable pub list : Handler State
unfolding secrets_below
list r s = (
  s,
  write_ok (object_of ((str "secrets", list_of (secrets_below (secrets_prefix r) s.secrets)) ∷ [])),
)

answer_secret : Text → Option (GoMap Json) → Response
answer_secret name none = not_found (str "secret not found: " ++ name)
answer_secret name (some secret) = write_ok (object_of secret)

unfoldable pub get_secret : Handler State
unfolding answer_secret
get_secret r s =
    let name = secret_name r (r.path_value (str "secret")) in
    (s, answer_secret name (get name s.secrets))

-- The loop that deletes the versions whose names have a prefix.
unfoldable pub drop_below : Text → GoMap (GoMap Json) → GoMap (GoMap Json)
drop_below prefix [] = []
drop_below prefix ((n, v) ∷ m) =
    let rest = drop_below prefix m in if has_prefix n prefix then rest else (n, v) ∷ rest

unfoldable pub delete_secret : Handler State
delete_secret r s =
    let name = secret_name r (r.path_value (str "secret")) in
    if has name s.secrets
    then (
      record {
        secrets = delete name s.secrets;
        versions = drop_below (name ++ str "/versions/") s.versions;
        counter = delete name s.counter;
      },
      write_ok (object_of []),
    )
    else (s, not_found (str "secret not found: " ++ name))

-- A missing counter is 0.
abbrev pub count_of : Option ℕ → ℕ
count_of none = 0
count_of (some n) = n

unfoldable pub version_of : Request → Text → GoMap Json
version_of r name = put (str "createTime") (string r.clock) (
    put (str "state") (string (str "ENABLED"))
      (put (str "name") (string name) (body_map r.payload)))

unfoldable pub store_version : Request → Text → State → State × Response
store_version r secret s =
    let secret_path = secret_name r secret in
    let number = suc (count_of (get secret_path s.counter)) in
    let name = version_name secret_path (itoa number) in
    let version = version_of r name in
    if not (has secret_path s.secrets)
    then (s, not_found (str "secret not found: " ++ secret_path))
    else (
      record s {
        versions = put name version s.versions;
        counter = put secret_path number s.counter;
      },
      write_ok (object_of version),
    )

unfoldable pub add_version : Handler State
unfolding store_version
add_version r s = store_version r (r.path_value (str "secret")) s

unfoldable pub secret_action : Handler State
unfolding store_version
secret_action r s =
    let (secret, verb) = split_verb (r.path_value (str "secret")) in
    if text_eq verb (str "addVersion")
    then store_version r secret s
    else (s, not_found (str "unknown method: " ++ verb))

abbrev pub or_null : Option Json → Json
or_null none = null
or_null (some j) = j

unfoldable pub answer_version : Text → Text → Option (GoMap Json) → Response
answer_version name verb none = not_found (str "version not found: " ++ name)
answer_version name verb (some v) =
    if text_eq verb (str "access")
    then write_ok (
        object_of
          ((str "name", string name) ∷ (str "payload", or_null (get (str "payload") v)) ∷ []))
    else write_ok (object_of v)

unfoldable pub access : Handler State
unfolding answer_version
access r s =
    let (ver, verb) = split_verb (r.path_value (str "version")) in
    let secret = secret_name r (r.path_value (str "secret")) in
    let last = itoa (count_of (get secret s.counter)) in
    let name = version_name secret (if text_eq ver (str "latest") then last else ver) in
    (s, answer_version name verb (get name s.versions))

unfoldable pub routes : List (Route (Handler State))
routes =
    let secrets = str "/v1/projects/{project}/secrets" in
    let secret = secrets ++ str "/{secret}" in
    record { method = str "POST"; pattern = secrets; handler = create }
    ∷ record { method = str "GET"; pattern = secrets; handler = list }
    ∷ record { method = str "GET"; pattern = secret; handler = get_secret }
    ∷ record { method = str "DELETE"; pattern = secret; handler = delete_secret }
    ∷ record { method = str "POST"; pattern = secret; handler = secret_action }
    ∷ record { method = str "POST"; pattern = secret ++ str "/versions"; handler = add_version }
    ∷ record { method = str "GET"; pattern = secret ++ str "/versions/{version}"; handler = access }
    ∷ []

unfoldable pub meta : Meta
meta = record {
  display = str "Secret Manager";
  category = str "Security";
  description = str "Secret storage and versioning";
  fidelity = fidelity_a;
  state = state_behavioral;
}
