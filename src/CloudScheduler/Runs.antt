-- ===== src/CloudScheduler/Runs.antt =====
-- The custom methods of a job (internal/service/cloudscheduler/cloudscheduler.go).
use kiri_gcp.Prelude.{
  ◌≡◌, refl, ◌∙◌, inl, inr, Bool, true, false, none, some, ◌++◌, if◌then◌else◌, Bool-cases,
}
use kiri_gcp.Text.{Text, str, text_eq}
use kiri_gcp.Text.Laws.{text_eq_refl}
use kiri_gcp.GoMap.{GoMap, get, put}
use kiri_gcp.GoMap.Laws.{get-put, get-put_self}
use kiri_gcp.Http.{Request, split_verb}
use kiri_gcp.CloudScheduler.{Job, State, prefix, set_state, act, job_action}

get-put_twice :
    (k other : Text) (v w : Job) (m : GoMap Job)
    → get other (put k v (put k w m)) ≡ (if text_eq k other then some v else get other m)
get-put_twice k other v w m = get-put k other v (put k w m) ∙ elim (Bool-cases (text_eq k other)) [
  | inl e ↦ rw e refl
  | inr e ↦ rw (e, get-put k other w m, e) refl
]

-- A job that is paused and then resumed is enabled and else as it was, also where it was paused
-- before, every other job is left as it was, and neither of the two calls publishes anything.
pub job_action-resume_pause :
    (wired : Bool) (p q : Request) (s : State) (job other : Text) (j : Job)
    → split_verb (p.path_value (str "job")) ≡ (job, str "pause")
    → split_verb (q.path_value (str "job")) ≡ (job, str "resume")
    → prefix q ≡ prefix p
    → get (prefix p ++ job) s.jobs ≡ some j
    → (get other (job_action wired q (job_action wired p s).state).state.jobs ≡ (
        if text_eq (prefix p ++ job) other
        then some (record j { state = str "ENABLED" })
        else get other s.jobs))
      × ((job_action wired p s).published ≡ none)
      × ((job_action wired q (job_action wired p s).state).published ≡ none)
unfolding job_action act set_state
job_action-resume_pause wired p q s job other j v w e h =
    rw
      (
        v,
        w,
        e,
        h,
        text_eq_refl (str "pause"),
        get-put_self (prefix p ++ job) _ s.jobs,
        not_pause,
        text_eq_refl (str "resume"),
      )
      (
        get-put_twice (prefix p ++ job) other (record j { state = str "ENABLED" }) _ s.jobs,
        refl,
        refl,
      )
  where
    not_pause : text_eq (str "resume") (str "pause") ≡ false
    not_pause = unfold str text_eq in refl

-- Running a job hands its target to Pub/Sub once, whatever its state, and changes no job.
pub job_action_run :
    (r : Request) (s : State) (job : Text) (j : Job)
    → split_verb (r.path_value (str "job")) ≡ (job, str "run")
    → get (prefix r ++ job) s.jobs ≡ some j
    → ((job_action true r s).published ≡ j.pubsub_target) × ((job_action true r s).state ≡ s)
unfolding job_action act
job_action_run r s job j v h =
    rw (v, h, not_pause, not_resume, text_eq_refl (str "run")) (refl, refl)
  where
    not_pause : text_eq (str "run") (str "pause") ≡ false
    not_pause = unfold str text_eq in refl

    not_resume : text_eq (str "run") (str "resume") ≡ false
    not_resume = unfold str text_eq in refl
