-- ===== src/CloudScheduler.antt =====
-- internal/service/cloudscheduler/cloudscheduler.go: jobs with a schedule and a Pub/Sub target. The
-- text of a type error of encoding/json is a parameter, and so is whether PublishFunc is wired. A
-- handler gives, beside the state and the answer, what it hands to PublishFunc.
pub mod Runs
use mathlib.Core.Option
use kiri_gcp.Prelude.{
  Bool, true, false, Option, none, some, List, [], ◌∷◌, ◌++◌, if◌then◌else◌, keep,
}
use kiri_gcp.Text.{Text, str, text_eq, has_prefix}
use kiri_gcp.GoMap.{GoMap, get, put, delete, has, keys}
use kiri_gcp.Sort.{sort_strings}
use kiri_gcp.Json.{
  key_is, set_string, Json, null, string, object, Fields, end, field, list_of, object_of,
}
use kiri_gcp.Http.{
  Request, Response, write_ok, bad_request, already_exists, not_found, Unmarshalled, value,
  mismatch, Decoded, failed, unchanged, decoded, decode_json, id, split_verb,
}
use kiri_gcp.Service.{Meta, Route, fidelity_b, state_behavioral}

pub record Target : Type 0 where
  pub topic_name : Text
  pub content : Text

pub record Job : Type 0 where
  pub name : Text
  pub schedule : Text
  pub state : Text
  pub pubsub_target : Option Target

pub record State : Type 0 where
  pub jobs : GoMap Job

-- New() and the load in init.
unfoldable pub new : Option State → State
new none = record { jobs = [] }
new (some loaded) = loaded

-- What a handler does: the state, the target that is handed to PublishFunc, and the answer.
pub record Outcome : Type 0 where
  pub state : State
  pub published : Option Target
  pub response : Response

abbrev pub JobHandler : Type 0
JobHandler = Request → State → Outcome

-- An answer without a publication.
abbrev pub quiet : State → Response → Outcome
quiet s r = record { state = s; published = none; response = r }

-- A field with omitempty.
abbrev unless_blank : Text → Text → GoMap Json
unless_blank name t = if text_eq t [] then [] else (name, string t) ∷ []

abbrev target_field : Option Target → GoMap Json
target_field none = []
target_field (some t) =
    (
      str "pubsubTarget",
      object_of
          (unless_blank (str "topicName") t.topic_name ++ unless_blank (str "data") t.content),
    )
    ∷ []

unfoldable pub job_json : Job → Json
job_json j = object_of (
    (str "name", string j.name)
    ∷ (unless_blank (str "schedule") j.schedule
        ++ ((str "state", string j.state) ∷ target_field j.pubsub_target)))

unfoldable pub prefix : Request → Text
prefix r =
    str "projects/"
    ++ (r.path_value (str "project")
        ++ (str "/locations/" ++ (r.path_value (str "location") ++ str "/jobs/")))

zero_job : Job
zero_job = record { name = []; schedule = []; state = []; pubsub_target = none }

read_target : Target → Fields → Option Target
read_target t end = some t
read_target t (field k j fs) =
    Option.bind
      (if key_is (str "topicName") k
        then Option.map (λ s. record t { topic_name = s }) (set_string j t.topic_name)
        else if key_is (str "data") k
        then Option.map (λ s. record t { content = s }) (set_string j t.content)
        else some t)
      (λ u. read_target u fs)

abbrev or_zero : Option Target → Target
or_zero none = record { topic_name = []; content = [] }
or_zero (some t) = t

-- A pointer to a struct: null makes it nil.
set_target : Json → Option Target → Option (Option Target)
unfolding read_target
set_target (object fs) old = Option.map (λ t. some t) (read_target (or_zero old) fs)
set_target null old = some none
set_target _ old = none

set_job_field : Text → Json → Job → Option Job
unfolding set_target
set_job_field k j b =
    if key_is (str "name") k
    then Option.map (λ s. record b { name = s }) (set_string j b.name)
    else if key_is (str "schedule") k
    then Option.map (λ s. record b { schedule = s }) (set_string j b.schedule)
    else if key_is (str "state") k
    then Option.map (λ s. record b { state = s }) (set_string j b.state)
    else if key_is (str "pubsubTarget") k
    then Option.map (λ t. record b { pubsub_target = t }) (set_target j b.pubsub_target)
    else some b

read_job : Job → Fields → Option Job
unfolding set_job_field
read_job b end = some b
read_job b (field k j fs) = Option.bind (set_job_field k j b) (λ c. read_job c fs)

abbrev read_to : Option Job → Text → Unmarshalled Job
read_to none e = mismatch e
read_to (some b) e = value b

store_job : Request → Job → State → Outcome
unfolding job_json
store_job r body s =
    let name =
      if text_eq body.name [] then prefix r ++ (str "job-" ++ id (r.random 0)) else body.name in
    let job = record body { name = name; state = str "ENABLED" } in
    if has name s.jobs
    then quiet s (already_exists (str "job already exists: " ++ name))
    else quiet (record s { jobs = put name job s.jobs }) (write_ok (job_json job))

create_decoded : Request → Decoded Job → State → Outcome
unfolding store_job zero_job
create_decoded r (failed e) s = quiet s (bad_request e)
create_decoded r unchanged s = store_job r zero_job s
create_decoded r (decoded b) s = store_job r b s

printed : Option Job → List Json
unfolding job_json
printed none = []
printed (some j) = job_json j ∷ []

jobs_named : GoMap Job → List Text → List Json
unfolding printed
jobs_named m [] = []
jobs_named m (n ∷ ns) = printed (get n m) ++ jobs_named m ns

unfoldable pub list : JobHandler
unfolding jobs_named
list r s =
    let names = sort_strings (keep (λ n. has_prefix n (prefix r)) (keys s.jobs)) in
    quiet s (write_ok (object_of ((str "jobs", list_of (jobs_named s.jobs names)) ∷ [])))

answer_job : Text → Option Job → Response
unfolding job_json
answer_job name none = not_found (str "job not found: " ++ name)
answer_job name (some j) = write_ok (job_json j)

unfoldable pub get_job : JobHandler
unfolding answer_job
get_job r s =
    let name = prefix r ++ r.path_value (str "job") in quiet s (answer_job name (get name s.jobs))

unfoldable pub delete_job : JobHandler
delete_job r s =
    let name = prefix r ++ r.path_value (str "job") in
    if has name s.jobs
    then quiet (record s { jobs = delete name s.jobs }) (write_ok (object_of []))
    else quiet s (not_found (str "job not found: " ++ name))

-- The job in another state.
unfoldable pub set_state : Text → Job → Text → State → Outcome
unfolding job_json
set_state name j state s =
    let changed = record j { state = state } in
    quiet (record s { jobs = put name changed s.jobs }) (write_ok (job_json changed))

module _ (wired : Bool) where
  unfoldable pub act : Text → Text → Option Job → State → Outcome
  unfolding set_state job_json
  act name verb none s = quiet s (not_found (str "job not found: " ++ name))
  act name verb (some j) s =
      if text_eq verb (str "pause")
      then set_state name j (str "PAUSED") s
      else if text_eq verb (str "resume")
      then set_state name j (str "ENABLED") s
      else if text_eq verb (str "run")
      then record {
        state = s;
        published = if wired then j.pubsub_target else none;
        response = write_ok (job_json j);
      }
      else quiet s (not_found (str "unknown method: " ++ verb))

  unfoldable pub job_action : JobHandler
  unfolding act
  job_action r s =
      let (job, verb) = split_verb (r.path_value (str "job")) in
      act (prefix r ++ job) verb (get (prefix r ++ job) s.jobs) s

  module _ (type_error : Json → Text) where
    unmarshal_job : Json → Unmarshalled Job
    unfolding read_job zero_job
    unmarshal_job (object fs) = read_to (read_job zero_job fs) (type_error (object fs))
    unmarshal_job null = value zero_job
    unmarshal_job j = mismatch (type_error j)

    unfoldable pub create : JobHandler
    unfolding create_decoded unmarshal_job
    create r s = create_decoded r (decode_json unmarshal_job r.payload) s

    unfoldable pub routes : List (Route JobHandler)
    routes =
        let base = str "/v1/projects/{project}/locations/{location}/jobs" in
        record { method = str "POST"; pattern = base; handler = create }
        ∷ record { method = str "GET"; pattern = base; handler = list }
        ∷ record { method = str "GET"; pattern = base ++ str "/{job}"; handler = get_job }
        ∷ record { method = str "POST"; pattern = base ++ str "/{job}"; handler = job_action }
        ∷ record { method = str "DELETE"; pattern = base ++ str "/{job}"; handler = delete_job }
        ∷ []

unfoldable pub meta : Meta
meta = record {
  display = str "Cloud Scheduler";
  category = str "Application Integration";
  description = str "Managed cron jobs with pause/resume/run and Pub/Sub targets";
  fidelity = fidelity_b;
  state = state_behavioral;
}
