-- ===== src/CloudTasks/Bodies.antt =====
-- The request bodies of internal/service/cloudtasks/cloudtasks.go as encoding/json reads them, the
-- handlers that have one, and the routes.
use mathlib.Core.Option
use kiri_gcp.Prelude.{Bool, Option, none, some, List, [], ◌∷◌, ◌++◌, if◌then◌else◌}
use kiri_gcp.Text.{Text, str}
use kiri_gcp.GoMap.{GoMap, put}
use kiri_gcp.Json.{key_is, set_string, Json, null, boolean, object, Fields, end, field}
use kiri_gcp.Http.{Unmarshalled, value, mismatch, decode_json}
use kiri_gcp.Service.{Meta, Handler, Route, fidelity_b, state_behavioral}
use kiri_gcp.CloudTasks.{
  Task, State, zero_task, create_queue_decoded, list_queues, get_queue, delete_queue,
  create_task_decoded, list_tasks, get_task, task_action, delete_task,
}

-- A map[string]any, into which an object puts its fields.
put_fields : GoMap Json → Fields → GoMap Json
put_fields m end = m
put_fields m (field k j fs) = put_fields (put k j m) fs

set_map : Json → GoMap Json → Option (GoMap Json)
unfolding put_fields
set_map (object fs) m = some (put_fields m fs)
set_map null m = some []
set_map _ m = none

set_bool : Json → Bool → Option Bool
set_bool (boolean b) old = some b
set_bool null old = some old
set_bool _ old = none

-- One field of a task; a name that is none of its own is passed over.
set_task_field : Text → Json → Task → Option Task
unfolding set_map set_bool
set_task_field k j t =
    if key_is (str "name") k
    then Option.map (λ s. record t { name = s }) (set_string j t.name)
    else if key_is (str "httpRequest") k
    then Option.map (λ m. record t { http_request = m }) (set_map j t.http_request)
    else if key_is (str "view") k
    then Option.map (λ s. record t { view = s }) (set_string j t.view)
    else if key_is (str "dispatched") k
    then Option.map (λ b. record t { dispatched = b }) (set_bool j t.dispatched)
    else some t

read_task : Task → Fields → Option Task
unfolding set_task_field
read_task t end = some t
read_task t (field k j fs) = Option.bind (set_task_field k j t) (λ u. read_task u fs)

set_task : Json → Task → Option Task
unfolding read_task
set_task (object fs) t = read_task t fs
set_task null t = some t
set_task _ t = none

-- The struct of createTask.
read_body : Task → Fields → Option Task
unfolding set_task
read_body t end = some t
read_body t (field k j fs) =
    Option.bind (if key_is (str "task") k then set_task j t else some t) (λ u. read_body u fs)

-- The tasks of a queue in a body, which createQueue drops: only a type error counts.
read_tasks : Text → Fields → Option Text
unfolding set_task
read_tasks name end = some name
read_tasks name (field k j fs) = Option.bind (set_task j zero_task) (λ _. read_tasks name fs)

set_tasks : Json → Text → Option Text
unfolding read_tasks
set_tasks (object fs) name = read_tasks name fs
set_tasks null name = some name
set_tasks _ name = none

-- The name in a queue.
read_queue : Text → Fields → Option Text
unfolding set_tasks
read_queue name end = some name
read_queue name (field k j fs) =
    Option.bind
      (if key_is (str "name") k
        then set_string j name
        else if key_is (str "state") k
        then Option.map (λ _. name) (set_string j [])
        else if key_is (str "tasks") k
        then set_tasks j name
        else some name)
      (λ n. read_queue n fs)

module _ (type_error : Json → Text) where
  abbrev read_to : {A : Type 0} → Json → Option A → Unmarshalled A
  read_to j none = mismatch (type_error j)
  read_to j (some a) = value a

  unmarshal_queue : Json → Unmarshalled Text
  unfolding read_queue
  unmarshal_queue (object fs) = read_to (object fs) (read_queue [] fs)
  unmarshal_queue null = value []
  unmarshal_queue j = mismatch (type_error j)

  unmarshal_task : Json → Unmarshalled Task
  unfolding read_body
  unmarshal_task (object fs) = read_to (object fs) (read_body zero_task fs)
  unmarshal_task null = value zero_task
  unmarshal_task j = mismatch (type_error j)

  unfoldable pub create_queue : Handler State
  unfolding unmarshal_queue
  create_queue r s = create_queue_decoded r (decode_json unmarshal_queue r.payload) s

  unfoldable pub create_task : Handler State
  unfolding unmarshal_task
  create_task r s = create_task_decoded r (decode_json unmarshal_task r.payload) s

  unfoldable pub routes : List (Route (Handler State))
  routes =
      let base = str "/v2/projects/{project}/locations/{location}/queues" in
      let tasks = base ++ str "/{queue}/tasks" in
      record { method = str "POST"; pattern = base; handler = create_queue }
      ∷ record { method = str "GET"; pattern = base; handler = list_queues }
      ∷ record { method = str "GET"; pattern = base ++ str "/{queue}"; handler = get_queue }
      ∷ record { method = str "DELETE"; pattern = base ++ str "/{queue}"; handler = delete_queue }
      ∷ record { method = str "POST"; pattern = tasks; handler = create_task }
      ∷ record { method = str "GET"; pattern = tasks; handler = list_tasks }
      ∷ record { method = str "GET"; pattern = tasks ++ str "/{task}"; handler = get_task }
      ∷ record { method = str "POST"; pattern = tasks ++ str "/{task}"; handler = task_action }
      ∷ record { method = str "DELETE"; pattern = tasks ++ str "/{task}"; handler = delete_task }
      ∷ []

unfoldable pub meta : Meta
meta = record {
  display = str "Cloud Tasks";
  category = str "Application Integration";
  description = str "Managed asynchronous task queues";
  fidelity = fidelity_b;
  state = state_behavioral;
}
