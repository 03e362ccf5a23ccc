-- ===== src/Tests/Secrets.antt =====
-- The theorems on Secret Manager (internal/service/secretmanager) at concrete requests.
use kiri_gcp.Prelude.{suc, ◌≡◌, refl, [], ◌∷◌, if◌then◌else◌}
use kiri_gcp.Text.{Text, str, text_eq, itoa}
use kiri_gcp.GoMap.{get}
use kiri_gcp.Json.{string, object_of}
use kiri_gcp.Http.{Payload, blank, valid, Request, write_ok, split_verb}
use kiri_gcp.SecretManager.{
  State, secrets_prefix, body_map, secret_name, version_name, count_of, store_version,
  delete_secret, or_null, access,
}
use kiri_gcp.SecretManager.Latest.{access-store_version, access-delete_secret}
use kiri_gcp.Tests.Samples.{counting}

-- A request for project "p" and secret "s", with a version.
abbrev reading : Text → Payload → Request
reading version payload = record {
  method = str "GET";
  path_value = λ k.
      if text_eq k (str "version")
      then version
      else if text_eq k (str "project")
      then b'p' ∷ []
      else b's' ∷ [];
  query = λ k. [];
  payload = payload;
  random = counting;
  clock = [];
}

abbrev latest : Request
latest = reading (str "latest:access") blank

abbrev adding : Request
adding = reading [] (valid (object_of ((str "payload", string (str "hush")) ∷ [])))

abbrev one_secret : State
one_secret = record {
  secrets = (secret_name latest (b's' ∷ []), []) ∷ [];
  versions = [];
  counter = (secret_name latest (b's' ∷ []), 4) ∷ [];
}

access-store_version_example :
    (access latest (store_version adding (b's' ∷ []) one_secret).0).1
    ≡ write_ok (
        object_of (
          (
            str "name",
            string (
                version_name (secret_name latest (b's' ∷ [])) (
                  itoa (suc (count_of (get (secret_name latest (b's' ∷ [])) one_secret.counter))))),
          )
          ∷ (str "payload", or_null (get (str "payload") (body_map adding.payload)))
          ∷ []))
unfolding get text_eq str split_verb secret_name secrets_prefix
access-store_version_example =
    access-store_version adding latest (b's' ∷ []) one_secret refl refl refl

access-delete_secret_example : (access latest (delete_secret adding one_secret).0).1.status ≡ 404
unfolding get text_eq str split_verb secret_name secrets_prefix
access-delete_secret_example = access-delete_secret adding latest one_secret refl refl
