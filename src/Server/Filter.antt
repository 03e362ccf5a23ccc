-- ===== src/Server/Filter.antt =====
-- matchFidelity and matchState of internal/server/server.go.
use kiri_gcp.Prelude.{
  ℕ, ◌≡◌, refl, ◌≢◌, Bool, true, false, ◌||◌, Option, none, some, List, [], ◌∷◌, ◌++◌, arith,
  if◌then◌else◌,
}
use kiri_gcp.Text.{Text, text_eq, split, split_at, trim_space, equal_fold}
use kiri_gcp.Text.Laws.{text_eq-false}
use kiri_gcp.Service.{Meta, Service, fidelity_label, state_label}

-- The loop over the parts of a filter.
unfoldable pub matches_any : Text → List Text → Bool
matches_any label [] = false
matches_any label (a ∷ allowed) =
    let rest = matches_any label allowed in if equal_fold label (trim_space a) then true else rest

match_label : (Meta → Text) → Option Meta → Text → Bool
unfolding matches_any
match_label label none filter = true
match_label label (some meta) filter = matches_any (label meta) (split filter b',')

module _ {H : Type 0} where
  unfoldable pub match_fidelity : Service H → Text → Bool
  unfolding match_label fidelity_label
  match_fidelity svc filter =
      if text_eq filter []
      then true
      else match_label (λ m. fidelity_label m.fidelity) svc.meta filter

  unfoldable pub match_state : Service H → Text → Bool
  unfolding match_label state_label
  match_state svc filter =
      if text_eq filter [] then true else match_label (λ m. state_label m.state) svc.meta filter

matches_any-append :
    (label : Text) (xs ys : List Text)
    → matches_any label (xs ++ ys) ≡ (matches_any label xs || matches_any label ys)
unfolding matches_any
matches_any-append label [] ys = refl
matches_any-append label (x ∷ xs) ys = ground (arith, matches_any-append label xs ys)

split_at-append :
    (b : ℕ) (piece s t : Text) → split_at b piece (s ++ b ∷ t) ≡ split_at b piece s ++ split t b
unfolding split_at split
split_at-append b piece [] t = ground arith
split_at-append b piece (c ∷ s) t =
    ground (arith, split_at-append b [] s t, split_at-append b (piece ++ c ∷ []) s t)

match_label-comma :
    (label : Meta → Text) (meta : Option Meta) (s t : Text)
    → match_label label meta (s ++ b',' ∷ t)
      ≡ (match_label label meta s || match_label label meta t)
unfolding match_label split
match_label-comma label none s t = refl
match_label-comma label (some meta) s t =
    rw (split_at-append b',' [] s t) (matches_any-append (label meta) (split s b',') (split t b','))

append_cons_ne_nil : (s : Text) (b : ℕ) (t : Text) → s ++ b ∷ t ≢ []
append_cons_ne_nil [] b t e = cc
append_cons_ne_nil (c ∷ s) b t e = cc

-- A filter with a comma between two parts that are not empty takes a service exactly when one of the
-- two parts, as a filter of its own, takes it: for the fidelity and for the state.
pub match-comma :
    {H : Type 0} (svc : Service H) (s t : Text)
    → s ≢ []
    → t ≢ []
    → (match_fidelity svc (s ++ b',' ∷ t) ≡ (match_fidelity svc s || match_fidelity svc t))
      × (match_state svc (s ++ b',' ∷ t) ≡ (match_state svc s || match_state svc t))
unfolding match_fidelity match_state
match-comma svc s t hs ht =
    simp (text_eq-false s [] hs, text_eq-false t [] ht, joined)
      (
        match_label-comma (λ m. fidelity_label m.fidelity) svc.meta s t,
        match_label-comma (λ m. state_label m.state) svc.meta s t,
      )
  where
    joined : text_eq (s ++ b',' ∷ t) [] ≡ false
    joined = text_eq-false (s ++ b',' ∷ t) [] (append_cons_ne_nil s b',' t)
