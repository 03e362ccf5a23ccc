-- ===== src/CloudTasks.antt =====
-- internal/service/cloudtasks/cloudtasks.go: queues with their tasks. The text of a type error of
-- encoding/json is a parameter; a queue has a map of tasks that is not nil, as createQueue makes it.
pub mod Bodies
pub mod Dispatch
use mathlib.Core.Option
use kiri_gcp.Prelude.{
  Bool, true, false, not, Option, none, some, List, [], ◌∷◌, ◌++◌, map, if◌then◌else◌, keep,
}
use kiri_gcp.Text.{Text, str, text_eq, has_prefix}
use kiri_gcp.GoMap.{GoMap, get, put, delete, has, keys}
use kiri_gcp.Sort.{sort_strings}
use kiri_gcp.Json.{Json, boolean, string, list_of, object_of}
use kiri_gcp.Http.{
  Request, Response, write_ok, bad_request, already_exists, not_found, Decoded, failed, unchanged,
  decoded, id, split_verb,
}

-- A nil map of the HTTP request and an empty one are alike: both are left out of an answer.
pub record Task : Type 0 where
  pub name : Text
  pub http_request : GoMap Json
  pub view : Text
  pub dispatched : Bool

pub record Queue : Type 0 where
  pub name : Text
  pub state : Text
  pub tasks : GoMap Task

pub record State : Type 0 where
  pub queues : GoMap Queue

-- New() and the load in init.
unfoldable pub new : Option State → State
new none = record { queues = [] }
new (some loaded) = loaded

abbrev pub zero_task : Task
zero_task = record { name = []; http_request = []; view = []; dispatched = false }

abbrev request_field : GoMap Json → GoMap Json
request_field [] = []
request_field (e ∷ m) = (str "httpRequest", object_of (e ∷ m)) ∷ []

unfoldable pub task_json : Task → Json
task_json t = object_of (
    (str "name", string t.name)
    ∷ (request_field t.http_request
        ++ ((if text_eq t.view [] then [] else (str "view", string t.view) ∷ [])
            ++ (str "dispatched", boolean t.dispatched) ∷ [])))

unfoldable pub queue_json : Queue → Json
unfolding task_json
queue_json q = object_of (
    (str "name", string q.name)
    ∷ (str "state", string q.state)
    ∷ (str "tasks", object_of (map (λ e. (e.0, task_json e.1)) q.tasks))
    ∷ [])

unfoldable pub queue_prefix : Request → Text
queue_prefix r =
    str "projects/"
    ++ (r.path_value (str "project")
        ++ (str "/locations/" ++ (r.path_value (str "location") ++ str "/queues/")))

unfoldable pub queue_name : Request → Text
queue_name r = queue_prefix r ++ r.path_value (str "queue")

-- The name of a task of the request's queue.
unfoldable pub task_name : Request → Text → Text
task_name r task = queue_name r ++ (str "/tasks/" ++ task)

queue_missing : Request → Response
queue_missing r = not_found (str "queue not found: " ++ queue_name r)

-- createQueue, behind the decoded name of the body.
unfoldable pub store_queue : Request → Text → State → State × Response
unfolding queue_json
store_queue r given s =
    let name =
      if text_eq given [] then queue_prefix r ++ (str "queue-" ++ id (r.random 0)) else given in
    let q : Queue = record { name = name; state = str "RUNNING"; tasks = [] } in
    if has name s.queues
    then (s, already_exists (str "queue already exists: " ++ name))
    else (record s { queues = put name q s.queues }, write_ok (queue_json q))

unfoldable pub create_queue_decoded : Request → Decoded Text → State → State × Response
unfolding store_queue
create_queue_decoded r (failed e) s = (s, bad_request e)
create_queue_decoded r unchanged s = store_queue r [] s
create_queue_decoded r (decoded name) s = store_queue r name s

printed : {V : Type 0} → (V → Json) → Option V → List Json
printed print none = []
printed print (some v) = print v ∷ []

-- The values of some keys, which are there.
values_of : {V : Type 0} → (V → Json) → GoMap V → List Text → List Json
unfolding printed
values_of print m [] = []
values_of print m (n ∷ ns) = printed print (get n m) ++ values_of print m ns

unfoldable pub list_queues : Request → State → State × Response
unfolding values_of queue_json
list_queues r s =
    let names = sort_strings (keep (λ n. has_prefix n (queue_prefix r)) (keys s.queues)) in
    (s, write_ok (object_of ((str "queues", list_of (values_of queue_json s.queues names)) ∷ [])))

answer_queue : Request → Option Queue → Response
unfolding queue_missing queue_json
answer_queue r none = queue_missing r
answer_queue r (some q) = write_ok (queue_json q)

unfoldable pub get_queue : Request → State → State × Response
unfolding answer_queue
get_queue r s = (s, answer_queue r (get (queue_name r) s.queues))

unfoldable pub delete_queue : Request → State → State × Response
unfolding queue_missing
delete_queue r s =
    if has (queue_name r) s.queues
    then (record s { queues = delete (queue_name r) s.queues }, write_ok (object_of []))
    else (s, queue_missing r)

-- The store with other tasks in a queue that is there.
unfoldable pub with_tasks : Text → Queue → GoMap Task → State → State
with_tasks name q tasks s = record s { queues = put name (record q { tasks = tasks }) s.queues }

unfoldable pub store_task : Request → Task → Option Queue → State → State × Response
unfolding queue_missing with_tasks task_json
store_task r given none s = (s, queue_missing r)
store_task r given (some q) s =
    let name = if text_eq given.name [] then task_name r (id (r.random 0)) else given.name in
    let t = record given { name = name } in
    (with_tasks (queue_name r) q (put name t q.tasks) s, write_ok (task_json t))

unfoldable pub create_task_decoded : Request → Decoded Task → State → State × Response
unfolding store_task
create_task_decoded r (failed e) s = (s, bad_request e)
create_task_decoded r unchanged s = store_task r zero_task (get (queue_name r) s.queues) s
create_task_decoded r (decoded t) s = store_task r t (get (queue_name r) s.queues) s

answer_tasks : Request → Option Queue → Response
unfolding queue_missing values_of task_json
answer_tasks r none = queue_missing r
answer_tasks r (some q) =
    let items = values_of task_json q.tasks (sort_strings (keys q.tasks)) in
    write_ok (object_of ((str "tasks", list_of items) ∷ []))

unfoldable pub list_tasks : Request → State → State × Response
unfolding answer_tasks
list_tasks r s = (s, answer_tasks r (get (queue_name r) s.queues))

abbrev pub no_queue : Response
no_queue = not_found (str "queue not found")

abbrev pub no_task : Text → Response
no_task name = not_found (str "task not found: " ++ name)

answer_task : Text → Option Task → Response
unfolding task_json
answer_task name none = no_task name
answer_task name (some t) = write_ok (task_json t)

answer_task_of : Text → Option Queue → Response
unfolding answer_task
answer_task_of name none = no_queue
answer_task_of name (some q) = answer_task name (get name q.tasks)

unfoldable pub get_task : Request → State → State × Response
unfolding answer_task_of
get_task r s =
    (s, answer_task_of (task_name r (r.path_value (str "task"))) (get (queue_name r) s.queues))

unfoldable pub run_task : Request → Text → Queue → Option Task → State → State × Response
unfolding with_tasks task_json
run_task r name q none s = (s, no_task name)
run_task r name q (some t) s =
    let ran = record t { dispatched = true } in
    (with_tasks (queue_name r) q (put name ran q.tasks) s, write_ok (task_json ran))

unfoldable pub run_in : Request → Text → Option Queue → State → State × Response
unfolding run_task
run_in r name none s = (s, no_queue)
run_in r name (some q) s = run_task r name q (get name q.tasks) s

unfoldable pub task_action : Request → State → State × Response
unfolding run_in
task_action r s =
    let (task, verb) = split_verb (r.path_value (str "task")) in
    if not (text_eq verb (str "run"))
    then (s, not_found (str "unknown method: " ++ verb))
    else run_in r (task_name r task) (get (queue_name r) s.queues) s

unfoldable pub delete_in : Request → Text → Option Queue → State → State × Response
unfolding with_tasks
delete_in r name none s = (s, no_queue)
delete_in r name (some q) s =
    if has name q.tasks
    then (with_tasks (queue_name r) q (delete name q.tasks) s, write_ok (object_of []))
    else (s, no_task name)

unfoldable pub delete_task : Request → State → State × Response
unfolding delete_in
delete_task r s =
    delete_in r (task_name r (r.path_value (str "task"))) (get (queue_name r) s.queues) s
