-- ===== src/Kms.antt =====
-- internal/service/kms/kms.go: key rings, crypto keys, and the emulated encryption. A handler that only
-- reads leaves the state as it is. The text of a type error of encoding/json is a parameter.
pub mod Secrecy
use kiri_gcp.Prelude.{
  ℕ, Bool, true, false, Option, none, some, List, [], ◌∷◌, ◌++◌, map, drop, if◌then◌else◌,
}
use kiri_gcp.Text.{Text, str, text_eq, text_lt, has_prefix}
use kiri_gcp.GoMap.{GoMap, get, put, has}
use kiri_gcp.Sort.{sort_slice}
use kiri_gcp.Json.{read_field, Json, null, string, object, list_of, object_of}
use kiri_gcp.Base64.{encode, decode}
use kiri_gcp.Http.{
  Request, Response, write_ok, bad_request, already_exists, not_found, Unmarshalled, value,
  mismatch, Decoded, failed, unchanged, decoded, decode_json, id, split_verb,
}
use kiri_gcp.Service.{Meta, Handler, Route, fidelity_a, state_behavioral}
use kiri_gcp.Pubsub.Bodies.{body_string}

pub record KeyRing : Type 0 where
  pub name : Text
  pub create_time : Text

pub record CryptoKey : Type 0 where
  pub name : Text
  pub purpose : Text
  pub create_time : Text
  pub primary_version : Text

pub record State : Type 0 where
  pub key_rings : GoMap KeyRing
  pub crypto_keys : GoMap CryptoKey

-- New(): what the storage package loads, where a nil map is an empty one.
unfoldable pub new : Option State → State
new none = record { key_rings = []; crypto_keys = [] }
new (some loaded) = loaded

key_ring_json : KeyRing → Json
key_ring_json k =
    object_of ((str "name", string k.name) ∷ (str "createTime", string k.create_time) ∷ [])

crypto_key_json : CryptoKey → Json
crypto_key_json k = object_of (
    (str "name", string k.name)
    ∷ (str "purpose", string k.purpose)
    ∷ (str "createTime", string k.create_time)
    ∷ (str "primary", string k.primary_version)
    ∷ [])

-- The names of fmt.Sprintf.
unfoldable pub rings_prefix : Request → Text
rings_prefix r =
    str "projects/"
    ++ (r.path_value (str "project")
        ++ (str "/locations/" ++ (r.path_value (str "location") ++ str "/keyRings/")))

unfoldable pub keys_prefix : Request → Text
unfolding rings_prefix
keys_prefix r = rings_prefix r ++ (r.path_value (str "keyRing") ++ str "/cryptoKeys/")

abbrev or_else : Text → Text → Text
or_else first second = if text_eq first [] then second else first

unfoldable pub ring_id : Request → Text
ring_id r = or_else (r.query (str "keyRingId")) (
    or_else (r.query (str "id"))
      (or_else (body_string (str "keyRingId") r.payload) (id (r.random 0))))

unfoldable pub create_key_ring : Handler State
unfolding key_ring_json
create_key_ring r s =
    let name = rings_prefix r ++ ring_id r in
    let ring : KeyRing = record { name = name; create_time = r.clock } in
    if has name s.key_rings
    then (s, already_exists (str "KeyRing " ++ (name ++ str " already exists")))
    else (record s { key_rings = put name ring s.key_rings }, write_ok (key_ring_json ring))

-- The values of a range over a map whose keys have a prefix.
values_below : {V : Type 0} → Text → GoMap V → List V
values_below prefix [] = []
values_below prefix ((k, v) ∷ m) =
    let rest = values_below prefix m in if has_prefix k prefix then v ∷ rest else rest

-- A nil slice is written as null.
slice_json : List Json → Json
slice_json [] = null
slice_json (j ∷ js) = list_of (j ∷ js)

unfoldable pub list_key_rings : Handler State
unfolding values_below slice_json key_ring_json
list_key_rings r s =
    let rings =
      sort_slice (λ (a b : KeyRing). text_lt a.name b.name)
        (values_below (rings_prefix r) s.key_rings) in
    (s, write_ok (object_of ((str "keyRings", slice_json (map key_ring_json rings)) ∷ [])))

answer_key_ring : Text → Option KeyRing → Response
unfolding key_ring_json
answer_key_ring name none = not_found (str "KeyRing " ++ (name ++ str " not found"))
answer_key_ring name (some k) = write_ok (key_ring_json k)

unfoldable pub get_key_ring : Handler State
unfolding answer_key_ring
get_key_ring r s =
    let name = rings_prefix r ++ r.path_value (str "keyRing") in
    (s, answer_key_ring name (get name s.key_rings))

unfoldable pub key_id : Request → Text
key_id r = or_else (r.query (str "cryptoKeyId")) (or_else (r.query (str "id")) (id (r.random 0)))

unfoldable pub create_crypto_key : Handler State
unfolding crypto_key_json
create_crypto_key r s =
    let name = keys_prefix r ++ key_id r in
    let key : CryptoKey = record {
      name = name;
      purpose = or_else (body_string (str "purpose") r.payload) (str "ENCRYPT_DECRYPT");
      create_time = r.clock;
      primary_version = name ++ str "/cryptoKeyVersions/1";
    } in
    if has name s.crypto_keys
    then (s, already_exists (str "CryptoKey " ++ (name ++ str " already exists")))
    else (record s { crypto_keys = put name key s.crypto_keys }, write_ok (crypto_key_json key))

unfoldable pub list_crypto_keys : Handler State
unfolding values_below slice_json crypto_key_json
list_crypto_keys r s =
    let found =
      sort_slice (λ (a b : CryptoKey). text_lt a.name b.name)
        (values_below (keys_prefix r) s.crypto_keys) in
    (s, write_ok (object_of ((str "cryptoKeys", slice_json (map crypto_key_json found)) ∷ [])))

answer_crypto_key : Text → Option CryptoKey → Response
unfolding crypto_key_json
answer_crypto_key name none = not_found (str "CryptoKey " ++ (name ++ str " not found"))
answer_crypto_key name (some k) = write_ok (crypto_key_json k)

unfoldable pub create_crypto_key_version : Handler State
create_crypto_key_version r s =
    let name = keys_prefix r ++ (r.path_value (str "cryptoKey") ++ str "/cryptoKeyVersions/1") in
    (
      s,
      write_ok (object_of ((str "name", string name) ∷ (str "state", string (str "ENABLED")) ∷ [])),
    )

-- What stands in front of an encrypted text.
unfoldable pub marker : Text
marker = str "kms_enc:"

-- strings.TrimPrefix(raw, "kms_enc:")
unfoldable pub trim_marker : Text → Text
unfolding marker
trim_marker raw = if has_prefix raw marker then drop 8 raw else raw

answer_encrypt : Text → Decoded Text → Response
unfolding marker
answer_encrypt name (failed e) = bad_request e
answer_encrypt name unchanged =
    write_ok
      (object_of ((str "name", string name) ∷ (str "ciphertext", string (encode marker)) ∷ []))
answer_encrypt name (decoded plain) = write_ok (
    object_of
      ((str "name", string name) ∷ (str "ciphertext", string (encode (marker ++ plain))) ∷ []))

plaintext_answer : Text → Response
unfolding trim_marker
plaintext_answer ciphertext =
    write_ok (object_of ((str "plaintext", string (encode (trim_marker (decode ciphertext)))) ∷ []))

answer_decrypt : Decoded Text → Response
unfolding plaintext_answer
answer_decrypt (failed e) = bad_request e
answer_decrypt unchanged = plaintext_answer []
answer_decrypt (decoded ciphertext) = plaintext_answer ciphertext

abbrev read_to : Option Text → Text → Unmarshalled Text
read_to none e = mismatch e
read_to (some s) e = value s

module _ (type_error : Json → Text) where
  -- A struct with one string.
  unmarshal_string : Text → Json → Unmarshalled Text
  unmarshal_string name (object fs) = read_to (read_field name [] fs) (type_error (object fs))
  unmarshal_string name null = value []
  unmarshal_string name j = mismatch (type_error j)

  unfoldable pub handle_crypto_key_or_action : Handler State
  unfolding unmarshal_string answer_encrypt answer_decrypt answer_crypto_key
  handle_crypto_key_or_action r s =
      let (key, action) = split_verb (r.path_value (str "cryptoKey")) in
      let name = keys_prefix r ++ key in
      if text_eq action (str "encrypt")
      then (s, answer_encrypt name (decode_json (unmarshal_string (str "plaintext")) r.payload))
      else if text_eq action (str "decrypt")
      then (s, answer_decrypt (decode_json (unmarshal_string (str "ciphertext")) r.payload))
      else if text_eq r.method (str "GET")
      then (s, answer_crypto_key name (get name s.crypto_keys))
      else (s, bad_request (str "invalid request"))

  unfoldable pub routes : List (Route (Handler State))
  routes =
      let rings = str "/v1/projects/{project}/locations/{location}/keyRings" in
      let keys = rings ++ str "/{keyRing}/cryptoKeys" in
      let key = keys ++ str "/{cryptoKey}" in
      record { method = str "POST"; pattern = rings; handler = create_key_ring }
      ∷ record { method = str "GET"; pattern = rings; handler = list_key_rings }
      ∷ record { method = str "GET"; pattern = rings ++ str "/{keyRing}"; handler = get_key_ring }
      ∷ record { method = str "POST"; pattern = keys; handler = create_crypto_key }
      ∷ record {
        method = str "POST";
        pattern = key ++ str "/cryptoKeyVersions";
        handler = create_crypto_key_version;
      }
      ∷ record { method = str "GET"; pattern = keys; handler = list_crypto_keys }
      ∷ record { method = str "GET"; pattern = key; handler = handle_crypto_key_or_action }
      ∷ record { method = str "POST"; pattern = key; handler = handle_crypto_key_or_action }
      ∷ []

unfoldable pub meta : Meta
meta = record {
  display = str "Cloud KMS";
  category = str "Security";
  description = str "Cryptographic key management and encryption service";
  fidelity = fidelity_a;
  state = state_behavioral;
}
