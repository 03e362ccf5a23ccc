-- ===== src/Http.antt =====
-- internal/httpx/httpx.go: responses, request decoding, identifiers and custom-method segments.
-- A handler gets a `Request` and returns the one `Response` that it writes. What comes from outside
-- (the body as io.ReadAll and json.Unmarshal see it, the bytes of crypto/rand, the clock) is data of
-- the request.
pub mod Segments
pub mod Identifiers
pub mod Reasons
use Prim.Native.Nat.{bit_or}
use kiri_gcp.Prelude.{
  ◌≡◌, refl, ℕ, zero, suc, ◌+◌, ◌-◌, ◌*◌, ◌/◌, ◌%◌, ◌^◌, Bool, true, false, Option, none, some,
  List, [], ◌∷◌, ◌++◌, map, ltb, ◌==◌, if◌then◌else◌,
}
use kiri_gcp.Text.{Text, str, to_lower, to_upper, split, join, itoa}
use kiri_gcp.GoMap.{GoMap}
use kiri_gcp.Json.{Json, null, boolean, number, string, array, object, list_of, object_of, to_map}

-- The body of a request: not readable, only white space, no JSON, or a JSON value.
pub data Payload : Type 0 where
  unreadable : (error : Text) → Payload
  blank : Payload
  malformed : (error : Text) → Payload
  valid : Json → Payload

pub record Request : Type 0 where
  pub method : Text
  -- r.PathValue(name)
  pub path_value : Text → Text
  -- r.URL.Query().Get(name)
  pub query : Text → Text
  pub payload : Payload
  -- The bytes of the i-th read of crypto/rand while the request is handled.
  pub random : ℕ → List ℕ
  -- time.Now(), as RFC 3339 text
  pub clock : Text

pub record Response : Type 0 where
  pub status : ℕ
  pub content_type : Text
  pub body : Option Json

unfoldable pub write_json : ℕ → Option Json → Response
write_json status v = record {
  status = status;
  content_type = str "application/json; charset=UTF-8";
  body = v;
}

-- WriteJSON(w, http.StatusOK, v)
abbrev pub write_ok : Json → Response
write_ok v = write_json 200 (some v)

unfoldable pub capitalise : Text → Text
capitalise [] = []
capitalise (c ∷ p) = to_upper (c ∷ []) ++ p

-- The loop over `parts`: all but the first are capitalised.
unfoldable pub camel_parts : List Text → List Text
unfolding capitalise
camel_parts [] = []
camel_parts (p ∷ ps) = p ∷ map capitalise ps

unfoldable pub reason_to_camel : Text → Text
unfolding camel_parts
reason_to_camel reason = join (camel_parts (split (to_lower reason) b'_'))

unfoldable pub google_error : ℕ → Text → Text → Json
google_error status reason message = object_of (
    (
      str "error",
      object_of (
          (str "code", number status)
          ∷ (str "message", string message)
          ∷ (str "status", string reason)
          ∷ (
            str "errors",
            list_of (
                object_of (
                  (str "message", string message)
                  ∷ (str "domain", string (str "global"))
                  ∷ (str "reason", string (reason_to_camel reason))
                  ∷ [])
                ∷ []),
          )
          ∷ []),
    )
    ∷ [])

unfoldable pub error : ℕ → Text → Text → Response
error status reason message = write_json status (some (google_error status reason message))

unfoldable pub not_found : Text → Response
unfolding error write_json
not_found message = error 404 (str "NOT_FOUND") message

unfoldable pub already_exists : Text → Response
unfolding error write_json
already_exists message = error 409 (str "ALREADY_EXISTS") message

unfoldable pub bad_request : Text → Response
unfolding error write_json
bad_request message = error 400 (str "INVALID_ARGUMENT") message

-- What json.Unmarshal gives for a JSON value and a target type.
pub data Unmarshalled (A : Type 0) : Type 0 where
  value : A → Unmarshalled A
  mismatch : (error : Text) → Unmarshalled A

-- The error of DecodeJSON, or what it does to the target.
pub data Decoded (A : Type 0) : Type 0 where
  failed : (error : Text) → Decoded A
  unchanged : Decoded A
  decoded : A → Decoded A

decode_value : {A : Type 0} → Unmarshalled A → Decoded A
decode_value (value a) = decoded a
decode_value (mismatch e) = failed (str "decode json: " ++ e)

unfoldable pub decode_json : {A : Type 0} → (Json → Unmarshalled A) → Payload → Decoded A
unfolding decode_value
decode_json unmarshal (unreadable e) = failed (str "read body: " ++ e)
decode_json unmarshal blank = unchanged
decode_json unmarshal (malformed e) = failed (str "decode json: " ++ e)
decode_json unmarshal (valid j) = decode_value (unmarshal j)

wrong_kind : Text → Unmarshalled (Option (GoMap Json))
wrong_kind kind =
    mismatch (
      str "json: cannot unmarshal " ++ kind ++ str " into Go value of type map[string]interface {}")

-- Unmarshal into a `map[string]any`; `null` makes the nil map, `none`.
unfoldable pub unmarshal_map : Json → Unmarshalled (Option (GoMap Json))
unfolding wrong_kind
unmarshal_map null = value none
unmarshal_map (object fs) = value (some (to_map fs))
unmarshal_map (boolean b) = wrong_kind (str "bool")
unmarshal_map (number n) = wrong_kind (str "number")
unmarshal_map (string s) = wrong_kind (str "string")
unmarshal_map (array js) = wrong_kind (str "array")

abbrev pub hex_digit : ℕ → ℕ
hex_digit d = if ltb d 10 then b'0' + d else b'a' + d - 10

-- hex.EncodeToString
unfoldable pub hex_encode : List ℕ → Text
hex_encode [] = []
hex_encode (b ∷ bs) = hex_digit (b / 16) ∷ hex_digit (b % 16) ∷ hex_encode bs

-- ID(n), for the bytes that crypto/rand puts into a slice of n bytes. Its fallback on an error of
-- crypto/rand is left out.
unfoldable pub id : List ℕ → Text
id bytes = hex_encode bytes

-- The loop n = n<<8 | uint64(x), on 64 bits.
unfoldable pub fold_bytes : ℕ → List ℕ → ℕ
fold_bytes n [] = n
fold_bytes n (x ∷ xs) = fold_bytes (bit_or (n * 2 ^ 8 % 2 ^ 64) x) xs

unfoldable pub numeric_value : List ℕ → ℕ
numeric_value bytes = fold_bytes 0 bytes % 900000000000 + 100000000000

-- NumericID(), for the eight bytes of crypto/rand.
unfoldable pub numeric_id : List ℕ → Text
unfolding numeric_value
numeric_id bytes = itoa (numeric_value bytes)

-- The two parts of a segment at its first colon.
unfoldable pub split_verb : Text → Text × Text
split_verb [] = ([], [])
split_verb (c ∷ s) =
    let (front, verb) = split_verb s in if c == b':' then ([], s) else (c ∷ front, verb)

camel_test : reason_to_camel (str "ALREADY_EXISTS") ≡ str "alreadyExists"
unfolding reason_to_camel str to_lower to_upper split join
camel_test = refl

split_verb_test : split_verb (str "my-topic:publish") ≡ (str "my-topic", str "publish")
unfolding split_verb str
split_verb_test = refl
