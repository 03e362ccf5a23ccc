-- ===== src/Tests/Jobs.antt =====
-- The theorems on Cloud Scheduler (internal/service/cloudscheduler) at concrete requests.
use kiri_gcp.Prelude.{◌≡◌, refl, true, none, some, [], ◌∷◌, ◌++◌, if◌then◌else◌}
use kiri_gcp.Text.{Text, str, text_eq}
use kiri_gcp.GoMap.{get}
use kiri_gcp.Http.{blank, Request, split_verb}
use kiri_gcp.CloudScheduler.{Job, State, prefix, job_action}
use kiri_gcp.CloudScheduler.Runs.{job_action-resume_pause}
use kiri_gcp.Tests.Samples.{counting}

-- A request for a job of project "p" and location "p".
abbrev acting : Text → Request
acting job = record {
  method = str "POST";
  path_value = λ k. if text_eq k (str "job") then job else b'p' ∷ [];
  query = λ k. [];
  payload = blank;
  random = counting;
  clock = [];
}

abbrev nightly : Job
nightly = record {
  name = prefix (acting []) ++ str "j";
  schedule = str "0 3 * * *";
  state = str "PAUSED";
  pubsub_target = some (record { topic_name = str "t"; content = str "go" });
}

abbrev jobs : State
jobs = record { jobs = (prefix (acting []) ++ str "j", nightly) ∷ [] }

job_action-resume_pause_example :
    (get
        (prefix (acting []) ++ str "j")
        (job_action true
          (acting (str "j:resume"))
          (job_action true (acting (str "j:pause")) jobs).state).state.jobs
      ≡ some (record nightly { state = str "ENABLED" }))
    × ((job_action true (acting (str "j:pause")) jobs).published ≡ none)
    × ((job_action true
          (acting (str "j:resume"))
          (job_action true (acting (str "j:pause")) jobs).state).published
        ≡ none)
unfolding get text_eq str split_verb prefix
job_action-resume_pause_example =
    job_action-resume_pause true (acting (str "j:pause")) (acting (str "j:resume")) jobs (str "j")
      (prefix (acting []) ++ str "j") nightly refl refl refl refl
