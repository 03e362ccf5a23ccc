-- ===== src/Kms/Secrecy.antt =====
-- Encryption and decryption of internal/service/kms/kms.go.
use mathlib.Core.Option
use kiri_gcp.Prelude.{◌≡◌, ◌<◌, refl, ap, ◌∙◌, false, Option, none, some, [], ◌∷◌, ◌++◌, All, arith}
use kiri_gcp.Text.{Text, str, text_eq, to_lower}
use kiri_gcp.Text.Laws.{text_eq_refl, has_prefix-append}
use kiri_gcp.Json.{Json, string, object_of, fields, string_field, read_field}
use kiri_gcp.Base64.{encode, decode, decode-encode}
use kiri_gcp.Http.{Request, Response, valid, decoded, write_ok, write_json, split_verb, decode_json}
use kiri_gcp.Kms.{
  State, marker, trim_marker, plaintext_answer, answer_encrypt, answer_decrypt, unmarshal_string,
  handle_crypto_key_or_action,
}

-- The string of a field of an answer.
unfoldable pub answer_string : Text → Response → Text
answer_string name r = in_body r.body
  where
    in_body : Option Json → Text
    in_body none = []
    in_body (some j) = string_field name j

trim_marker-append : (p : Text) → trim_marker (marker ++ p) ≡ p
unfolding trim_marker
trim_marker-append p = rw (has_prefix-append marker p) (unfold marker str in refl)

marked_bytes : (p : Text) → All (λ b. b < 256) p → All (λ b. b < 256) (marker ++ p)
unfolding marker str
marked_bytes p h = (
  omega arith,
  (
    omega arith,
    (omega arith, (omega arith, (omega arith, (omega arith, (omega arith, (omega arith, h)))))),
  ),
)

ciphertext_lem :
    (name c : Text)
    → answer_string
        (str "ciphertext")
        (write_ok (object_of ((str "name", string name) ∷ (str "ciphertext", string c) ∷ [])))
      ≡ c
unfolding answer_string write_json string_field fields str text_eq to_lower
ciphertext_lem name c = refl

plaintext_lem :
    (p : Text)
    → answer_string (str "plaintext") (write_ok (object_of ((str "plaintext", string p) ∷ []))) ≡ p
unfolding answer_string write_json string_field fields str text_eq to_lower
plaintext_lem p = refl

module _ (type_error : Json → Text) where
  -- A request whose body is an object with one string.
  decoded_field :
      (name s : Text)
      → decode_json (unmarshal_string type_error name) (valid (object_of ((name, string s) ∷ [])))
        ≡ decoded s
  unfolding decode_json unmarshal_string fields read_field Option.bind
  decoded_field name s = rw (text_eq_refl (to_lower name)) refl

  encrypt_lem :
      (e : Request) (s : State) (key p : Text)
      → split_verb (e.path_value (str "cryptoKey")) ≡ (key, str "encrypt")
      → e.payload ≡ valid (object_of ((str "plaintext", string p) ∷ []))
      → answer_string (str "ciphertext") (handle_crypto_key_or_action type_error e s).1
        ≡ encode (marker ++ p)
  unfolding handle_crypto_key_or_action answer_encrypt
  encrypt_lem e s key p v b =
      rw (v, b, text_eq_refl (str "encrypt"), decoded_field (str "plaintext") p)
        (ciphertext_lem _ (encode (marker ++ p)))

  decrypt_lem :
      (d : Request) (s : State) (key c : Text)
      → split_verb (d.path_value (str "cryptoKey")) ≡ (key, str "decrypt")
      → d.payload ≡ valid (object_of ((str "ciphertext", string c) ∷ []))
      → answer_string (str "plaintext") (handle_crypto_key_or_action type_error d s).1
        ≡ encode (trim_marker (decode c))
  unfolding handle_crypto_key_or_action answer_decrypt plaintext_answer
  decrypt_lem d s key c v b =
      rw (v, b, other_action, text_eq_refl (str "decrypt"), decoded_field (str "ciphertext") c)
        (plaintext_lem (encode (trim_marker (decode c))))
    where
      other_action : text_eq (str "decrypt") (str "encrypt") ≡ false
      other_action = unfold text_eq str in refl

  -- A text that was encrypted is decrypted again: the answer is the base64 of the bytes that were sent.
  -- The keys of the two requests may differ, and neither needs to be there.
  pub decrypt-encrypt :
      (e d : Request) (s t : State) (key other p : Text)
      → All (λ b. b < 256) p
      → split_verb (e.path_value (str "cryptoKey")) ≡ (key, str "encrypt")
      → e.payload ≡ valid (object_of ((str "plaintext", string p) ∷ []))
      → split_verb (d.path_value (str "cryptoKey")) ≡ (other, str "decrypt")
      → d.payload
        ≡ valid (
            object_of (
              (
                str "ciphertext",
                string (
                    answer_string
                      (str "ciphertext")
                      (handle_crypto_key_or_action type_error e s).1),
              )
              ∷ []))
      → answer_string (str "plaintext") (handle_crypto_key_or_action type_error d t).1 ≡ encode p
  decrypt-encrypt e d s t key other p h ev eb dv db =
      decrypt_lem d t other _ dv db
      ∙ ap (λ (c : Text). encode (trim_marker (decode c))) (encrypt_lem e s key p ev eb)
      ∙ ap (λ (c : Text). encode (trim_marker c)) (decode-encode (marker ++ p) (marked_bytes p h))
      ∙ ap encode (trim_marker-append p)
