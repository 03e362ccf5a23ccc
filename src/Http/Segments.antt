-- ===== src/Http/Segments.antt =====
-- Custom-method segments: what SplitVerb of internal/httpx/httpx.go returns.
use kiri_gcp.Prelude.{◌≡◌, refl, false, [], ◌∷◌, ◌++◌, arith}
use kiri_gcp.Text.{Text, has_byte}
use kiri_gcp.Http.{split_verb}

split_verb-append-colon :
    (front verb : Text)
    → has_byte b':' front ≡ false
    → split_verb (front ++ b':' ∷ verb) ≡ (front, verb)
unfolding split_verb has_byte
split_verb-append-colon [] verb h = refl
split_verb-append-colon (c ∷ front) verb h = ground (arith, split_verb-append-colon front verb)

split_verb-no_colon : (s : Text) → has_byte b':' s ≡ false → split_verb s ≡ (s, [])
unfolding split_verb has_byte
split_verb-no_colon [] h = refl
split_verb-no_colon (c ∷ s) h = ground (arith, split_verb-no_colon s)

-- A segment with no colon is an id with no verb, and `id:verb` is split at that colon where the id
-- has none; the verb may hold further colons.
pub split_verb_parts :
    (front verb : Text)
    → has_byte b':' front ≡ false
    → (split_verb front ≡ (front, [])) × (split_verb (front ++ b':' ∷ verb) ≡ (front, verb))
split_verb_parts front verb h = (split_verb-no_colon front h, split_verb-append-colon front verb h)
