-- ===== src/Pubsub/Rpc/Requests.antt =====
-- What a gRPC request does to the store, and which project a parent names.
use kiri_gcp.Prelude.{
  ℕ, ◌≡◌, ◌≢◌, refl, ap, ◌∙◌, inl, inr, true, false, List, [], ◌∷◌, ◌++◌, arith, length,
  length-append, ltb,
}
use kiri_gcp.Text.{Text, str, has_byte, has_prefix}
use kiri_gcp.Pubsub.{Backend, PullResult, no_subscription, panics, pulled, pull}
use kiri_gcp.Pubsub.Sound.{
  publishing, creating_topic, deleting_topic, creating_subscription, deleting_subscription, pulling,
  acknowledging, step, IsSound, pull-ne-panics_sound,
}
use kiri_gcp.Pubsub.Rest.Refinement.{AtMostOneCall}
use kiri_gcp.Pubsub.Rpc.{
  Rpc, publish_rpc, create_topic_rpc, get_topic_rpc, delete_topic_rpc, list_topics_rpc,
  create_subscription_rpc, get_subscription_rpc, delete_subscription_rpc, list_subscriptions_rpc,
  pull_rpc, acknowledge_rpc, panic, call_rpc, split2, project_of, answer_pull_rpc,
  subscription_not_found,
}

-- Every gRPC request leaves the store as it was, or as one call of the store leaves it.
pub call_rpc-AtMostOneCall :
    (random : ℕ → List ℕ) (q : Rpc) (b : Backend) → AtMostOneCall b (call_rpc random q b).0
unfolding call_rpc step
call_rpc-AtMostOneCall random (publish_rpc topic ms) b = inr (publishing random topic ms, refl)
call_rpc-AtMostOneCall random (create_topic_rpc name) b = inr (creating_topic name, refl)
call_rpc-AtMostOneCall random (get_topic_rpc name) b = inl refl
call_rpc-AtMostOneCall random (delete_topic_rpc name) b = inr (deleting_topic name, refl)
call_rpc-AtMostOneCall random (list_topics_rpc parent) b = inl refl
call_rpc-AtMostOneCall random (create_subscription_rpc name topic) b =
    inr (creating_subscription name topic, refl)
call_rpc-AtMostOneCall random (get_subscription_rpc name) b = inl refl
call_rpc-AtMostOneCall random (delete_subscription_rpc name) b =
    inr (deleting_subscription name, refl)
call_rpc-AtMostOneCall random (list_subscriptions_rpc parent) b = inl refl
call_rpc-AtMostOneCall random (pull_rpc subscription) b = inr (pulling subscription, refl)
call_rpc-AtMostOneCall random (acknowledge_rpc subscription acks) b =
    inr (acknowledging subscription acks, refl)

answer_pull_rpc-ne-panic :
    (name : Text) (r : PullResult) → r ≢ panics → answer_pull_rpc name r ≢ panic
unfolding answer_pull_rpc subscription_not_found
answer_pull_rpc-ne-panic name no_subscription h e = cc
answer_pull_rpc-ne-panic name panics h e = h refl
answer_pull_rpc-ne-panic name (pulled ms) h e = cc

-- On a sound store a gRPC pull does not panic.
pub pull_rpc-ne-panic :
    (random : ℕ → List ℕ) (name : Text) (b : Backend)
    → IsSound b
    → (call_rpc random (pull_rpc name) b).1 ≢ panic
unfolding call_rpc
pull_rpc-ne-panic random name b h =
    answer_pull_rpc-ne-panic name (pull name b).1 (pull-ne-panics_sound name b h)

split2-no_slash : (s : Text) → has_byte b'/' s ≡ false → split2 s (str "/") ≡ (s, [])
unfolding split2 has_byte has_prefix str
split2-no_slash [] h = refl
split2-no_slash (c ∷ s) h = ground (arith, split2-no_slash s)

split2-slash : (s t : Text) → has_byte b'/' s ≡ false → split2 (s ++ b'/' ∷ t) (str "/") ≡ (s, t)
unfolding split2 has_byte has_prefix str
split2-slash [] t h = refl
split2-slash (c ∷ s) t h = ground (arith, split2-slash s t)

project_of-append :
    (c : ℕ) (t : Text) → project_of (str "projects/" ++ c ∷ t) ≡ (split2 (c ∷ t) (str "/")).0
unfolding project_of has_prefix str
project_of-append c t = rw long refl
  where
    long : ltb 9 (length (str "projects/" ++ c ∷ t)) ≡ true
    long = ground (arith, length-append (str "projects/") (c ∷ t))

-- The project of a parent is its segment behind "projects/", whether the parent ends there or goes
-- on with a slash, where the segment has no slash and is not empty.
pub project_of_segment :
    (c : ℕ) (project rest : Text)
    → has_byte b'/' (c ∷ project) ≡ false
    → (project_of (str "projects/" ++ c ∷ project) ≡ c ∷ project)
      × (project_of (str "projects/" ++ c ∷ (project ++ b'/' ∷ rest)) ≡ c ∷ project)
project_of_segment c project rest h = (
  project_of-append c project ∙ ap (λ (p : Text × Text). p.0) (split2-no_slash (c ∷ project) h),
  project_of-append c (project ++ b'/' ∷ rest)
      ∙ ap (λ (p : Text × Text). p.0) (split2-slash (c ∷ project) rest h),
)
