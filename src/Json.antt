-- ===== src/Json.antt =====
-- The values of Go's `any` that encoding/json makes and prints. An object is a `map[string]any`.
use mathlib.Core.Option
use kiri_gcp.Prelude.{◌≡◌, refl, arith, ℕ, Bool, List, [], ◌∷◌, Option, none, some, if◌then◌else◌}
use kiri_gcp.Text.{Text, text_eq, to_lower}
use kiri_gcp.GoMap.{GoMap, get, put}

mutual
  pub data Json : Type 0 where
    null : Json
    boolean : Bool → Json
    number : ℕ → Json
    string : Text → Json
    array : Items → Json
    object : Fields → Json

  pub data Items : Type 0 where
    nil : Items
    cons : Json → Items → Items

  pub data Fields : Type 0 where
    end : Fields
    field : Text → Json → Fields → Fields

-- []any{…}
unfoldable pub items : List Json → Items
items [] = nil
items (j ∷ js) = cons j (items js)

-- map[string]any{…}
unfoldable pub fields : GoMap Json → Fields
fields [] = end
fields ((k, j) ∷ m) = field k j (fields m)

abbrev pub list_of : List Json → Json
list_of js = array (items js)

abbrev pub object_of : GoMap Json → Json
object_of m = object (fields m)

find_field : Text → Fields → Option Json
find_field k end = none
find_field k (field j v fs) = if text_eq j k then some v else find_field k fs

-- The fields of an object, read in order into a Go map: the last of two equal keys wins.
read_fields : GoMap Json → Fields → GoMap Json
read_fields m end = m
read_fields m (field k j fs) = read_fields (put k j m) fs

unfoldable pub to_map : Fields → GoMap Json
unfolding read_fields
to_map fs = read_fields [] fs

-- m, ok := v.(map[string]any)
unfoldable pub as_object : Json → Option Fields
as_object (object fs) = some fs
as_object _ = none

-- m[k] of an object.
unfoldable pub get_field : Text → Json → Option Json
unfolding find_field
get_field k (object fs) = find_field k fs
get_field k _ = none

-- A string field of a struct target: encoding/json matches its name up to the case of letters,
-- goes on after a value of another type, and a later match overwrites an earlier one.
read_string : Text → Text → Fields → Text
read_string name found end = found
read_string name found (field k (string s) fs) =
    read_string name (if text_eq (to_lower k) (to_lower name) then s else found) fs
read_string name found (field k _ fs) = read_string name found fs

-- body.Field after an Unmarshal into a struct that was zero: "" where there is none.
unfoldable pub string_field : Text → Json → Text
unfolding read_string
string_field name (object fs) = read_string name [] fs
string_field name _ = []

-- A map that is written as an object has the fields of the map.
pub get_field-object_of : (k : Text) (m : GoMap Json) → get_field k (object_of m) ≡ get k m
unfolding get_field fields get
get_field-object_of k [] = refl
get_field-object_of k ((j, v) ∷ m) = ground (arith, get_field-object_of k m)

-- The strings that encoding/json puts into the fields of a struct; `none` is a type error. The keys
-- are compared without regard to case, and null leaves a field as it is.
abbrev pub key_is : Text → Text → Bool
key_is name k = text_eq (to_lower k) (to_lower name)

abbrev pub set_string : Json → Text → Option Text
set_string (string s) old = some s
set_string null old = some old
set_string _ old = none

unfoldable pub read_field : Text → Text → Fields → Option Text
read_field name found end = some found
read_field name found (field k j fs) =
    Option.bind (if key_is name k then set_string j found else some found)
      (λ s. read_field name s fs)
