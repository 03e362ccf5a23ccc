-- ===== src/Http/Reasons.antt =====
-- The camel-case reasons of the error envelope: reasonToCamel of internal/httpx/httpx.go.
use kiri_gcp.Prelude.{
  ℕ, ◌≡◌, refl, ap, sym, ◌∙◌, inl, inr, not, List, [], ◌∷◌, ◌++◌, map, arith, ◌==◌, Bool-cases,
  keep, append_assoc,
}
use mathlib.Core.List.{map-append}
use kiri_gcp.Text.{Text, to_lower, to_upper, split, split_at, join}
use kiri_gcp.Http.{capitalise, camel_parts, reason_to_camel}

abbrev without_underscores : Text → Text
without_underscores = keep (λ c. not (c == b'_'))

to_lower-append : (s t : Text) → to_lower (s ++ t) ≡ to_lower s ++ to_lower t
unfolding to_lower
to_lower-append s t = rw map-append

join-split_at :
    (b : ℕ) (piece s : Text) → join (split_at b piece s) ≡ piece ++ keep (λ c. not (c == b)) s
unfolding split_at join
join-split_at b piece [] = refl
join-split_at b piece (c ∷ s) = elim (Bool-cases (c == b)) [
  | inl e ↦ rw e (ap (λ t. piece ++ t) (join-split_at b [] s))
  | inr e ↦ rw e (join-split_at b (piece ++ c ∷ []) s ∙ append_assoc piece (c ∷ []) _)
]

-- No lower-case letter changes when its case is raised and lowered again.
lower_capitalise : (p : Text) → to_lower (capitalise p) ≡ to_lower p
unfolding capitalise to_lower to_upper
lower_capitalise [] = refl
lower_capitalise (c ∷ p) = ground arith

lower_join-map : (ps : List Text) → to_lower (join (map capitalise ps)) ≡ to_lower (join ps)
unfolding join
lower_join-map [] = refl
lower_join-map (p ∷ ps) =
    to_lower-append (capitalise p) (join (map capitalise ps))
    ∙ cc (lower_capitalise p, lower_join-map ps)
    ∙ sym (to_lower-append p (join ps))

lower_camel_parts : (ps : List Text) → to_lower (join (camel_parts ps)) ≡ to_lower (join ps)
unfolding camel_parts join
lower_camel_parts [] = refl
lower_camel_parts (p ∷ ps) = rw (to_lower-append, to_lower-append, lower_join-map ps)

lower_keep :
    (s : Text) → to_lower (without_underscores (to_lower s)) ≡ without_underscores (to_lower s)
unfolding to_lower
lower_keep [] = refl
lower_keep (c ∷ s) = ground (arith, lower_keep s)

-- Read without regard to case, the camel-case reason is the reason without its underscores: no
-- letter is lost, added or moved.
pub reason_to_camel_letters :
    (reason : Text) → to_lower (reason_to_camel reason) ≡ without_underscores (to_lower reason)
unfolding reason_to_camel split
reason_to_camel_letters reason =
    lower_camel_parts (split_at b'_' [] (to_lower reason))
    ∙ ap to_lower (join-split_at b'_' [] (to_lower reason))
    ∙ lower_keep reason
