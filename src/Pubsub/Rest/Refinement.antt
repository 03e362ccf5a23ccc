-- ===== src/Pubsub/Rest/Refinement.antt =====
-- The REST service changes the store only through the calls of Pubsub.Sound.
use kiri_gcp.Prelude.{
  ◌≡◌, ◌≢◌, refl, Option, none, some, ◌⊎◌, inl, inr, List, [], ◌∷◌, arith, Bool-cases,
}
use kiri_gcp.Text.{Text, str, text_eq}
use kiri_gcp.GoMap.{get}
use kiri_gcp.GoMap.Sorted.{sorted_keys_order}
use kiri_gcp.Json.{Json}
use kiri_gcp.Http.{Request, split_verb, write_json, not_found}
use kiri_gcp.Pubsub.{
  Backend, new_backend, list_topics, PullResult, no_subscription, panics, pulled, pull,
}
use kiri_gcp.Pubsub.Sound.{
  Call, step, step-IsSound, run, run-IsSound, IsSound, pull-ne-panics_sound,
}
use kiri_gcp.Pubsub.Rest.{
  subscription_name, list_topics_handler, answer_pull, pull_handler, acknowledge_handler,
  sub_action,
}
use kiri_gcp.Pubsub.Rest.Calls.{Endpoint, handler_of, call_of, allows, perform, handler_of-perform}

-- The store is left as it was, or as one call leaves it.
abbrev pub AtMostOneCall : Backend → Backend → Type 0
AtMostOneCall b c = (c ≡ b) ⊎ ((call : Call) × (c ≡ step call b))

pub AtMostOneCall-IsSound : (b c : Backend) → AtMostOneCall b c → IsSound b → IsSound c
AtMostOneCall-IsSound b c (inl e) h = rw e h
AtMostOneCall-IsSound b c (inr (call, e)) h = rw e (step-IsSound call b h)

perform-AtMostOneCall : (o : Option Call) (b : Backend) → AtMostOneCall b (perform o b)
unfolding perform
perform-AtMostOneCall none b = inl refl
perform-AtMostOneCall (some call) b = elim (Bool-cases (allows b call)) [
  | inl e ↦ rw e (inr (call, refl))
  | inr e ↦ rw e (inl refl)
]

module _ (type_error : Json → Text) where
  pub handler_of-AtMostOneCall :
      (e : Endpoint) (r : Request) (b : Backend) → AtMostOneCall b (handler_of type_error e r b).0
  handler_of-AtMostOneCall e r b =
      rw (handler_of-perform type_error e r b) (perform-AtMostOneCall (call_of type_error e r) b)

  -- The REST requests that change the store, in the order in which the lock lets them in.
  pub serve : List (Endpoint × Request) → Backend → Backend
  serve [] b = b
  serve ((e, r) ∷ qs) b = serve qs (handler_of type_error e r b).0

  serve_keeps : (qs : List (Endpoint × Request)) (b : Backend) → IsSound b → IsSound (serve qs b)
  unfolding serve
  serve_keeps [] b h = h
  serve_keeps ((e, r) ∷ qs) b h =
      serve_keeps qs (handler_of type_error e r b).0
        (AtMostOneCall-IsSound b _ (handler_of-AtMostOneCall e r b) h)

  pub serve-IsSound : (qs : List (Endpoint × Request)) → IsSound (serve qs new_backend)
  unfolding run
  serve-IsSound qs = serve_keeps qs new_backend (run-IsSound [])

  answer_pull_status :
      (name : Text) (p : PullResult)
      → p ≢ panics
      → ((answer_pull name p).status ≡ 200) ⊎ ((answer_pull name p).status ≡ 404)
  unfolding answer_pull not_found write_json
  answer_pull_status name no_subscription h = inr refl
  answer_pull_status name panics h = absurd (h refl)
  answer_pull_status name (pulled ms) h = inl refl

  acknowledge_status :
      (r : Request) (name : Text) (b : Backend)
      → ((acknowledge_handler r name b).1.status ≡ 200)
        ⊎ ((acknowledge_handler r name b).1.status ≡ 404)
  unfolding acknowledge_handler not_found write_json
  acknowledge_status r name b = ground arith

  -- From an empty store, whatever the REST requests before it, a request on a subscription (a pull,
  -- an acknowledgement, or another method) is answered with 200 or 404: no handler panics.
  pub sub_action_answers :
      (qs : List (Endpoint × Request)) (r : Request)
      → ((sub_action r (serve qs new_backend)).1.status ≡ 200)
        ⊎ ((sub_action r (serve qs new_backend)).1.status ≡ 404)
  unfolding sub_action
  sub_action_answers qs r =
      let b = serve qs new_backend in
      let (sub, verb) = split_verb (r.path_value (str "sub")) in
      let name = subscription_name r sub in
      elim (Bool-cases (text_eq verb (str "pull"))) [
        | inl e ↦ rw e (
            unfold pull_handler in
            answer_pull_status name (pull name b).1
              (pull-ne-panics_sound name b (serve-IsSound qs)))
        | inr e ↦ rw e (elim (Bool-cases (text_eq verb (str "acknowledge"))) [
          | inl f ↦ rw f (acknowledge_status r name b)
          | inr f ↦ rw f (unfold not_found write_json in inr refl)
        ])
      ]

-- A listing of topics does not depend on the order in which Go runs over the map: two sound stores
-- that hold the same topics give the same answer.
pub list_topics_order :
    (r : Request) (b c : Backend)
    → IsSound b
    → IsSound c
    → ((t : Text) → get t b.topics ≡ get t c.topics)
    → (list_topics_handler r b).1 ≡ (list_topics_handler r c).1
unfolding list_topics_handler list_topics
list_topics_order r b c h k same =
    rw (sorted_keys_order _ b.topics c.topics h.unique_topics k.unique_topics same) refl
