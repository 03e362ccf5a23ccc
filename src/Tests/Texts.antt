-- ===== src/Tests/Texts.antt =====
-- The theorems on internal/httpx/httpx.go at concrete inputs.
use kiri_gcp.Prelude.{ℕ, ◌≡◌, ◌≤◌, ◌<◌, List, [], ◌∷◌, length}
use kiri_gcp.Http.{numeric_value, numeric_id}
use kiri_gcp.Http.Identifiers.{numeric_id_digits}

abbrev bytes : List ℕ
bytes = 18 ∷ 255 ∷ []

numeric_id_digits_example :
    (100000000000 ≤ numeric_value bytes)
    × (numeric_value bytes < 1000000000000)
    × (length (numeric_id bytes) ≡ 12)
numeric_id_digits_example = numeric_id_digits bytes
