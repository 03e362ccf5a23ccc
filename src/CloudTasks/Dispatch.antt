-- ===== src/CloudTasks/Dispatch.antt =====
-- What the handlers of internal/service/cloudtasks/cloudtasks.go do to the tasks.
use mathlib.Core.Option
use kiri_gcp.Prelude.{
  ◌≡◌, refl, sym, ap, ◌∙◌, inl, inr, true, false, ◌&&◌, Option, none, some, [], if◌then◌else◌,
  Bool-cases, Option-cases,
}
use kiri_gcp.Text.{Text, str, text_eq}
use kiri_gcp.Text.Laws.{text_eq_iff, text_eq_refl}
use kiri_gcp.GoMap.{GoMap, get, put}
use kiri_gcp.GoMap.Laws.{get-put}
use kiri_gcp.Http.{Request, decoded, split_verb}
use kiri_gcp.CloudTasks.{
  Task, Queue, State, queue_name, task_name, with_tasks, run_task, run_in, task_action,
  create_task_decoded, store_task,
}

-- A task of a queue, by their names.
unfoldable pub find : Text → Text → State → Option Task
find queue name s = Option.bind (get queue s.queues) (λ q. get name q.tasks)

-- Other tasks in a queue are seen there, and nowhere else.
find-with_tasks :
    (queue other name : Text) (q : Queue) (tasks : GoMap Task) (s : State)
    → find other name (with_tasks queue q tasks s)
      ≡ (if text_eq queue other then get name tasks else find other name s)
unfolding find with_tasks Option.bind
find-with_tasks queue other name q tasks s =
    rw (get-put queue other (record q { tasks = tasks }) s.queues)
      (elim (Bool-cases (text_eq queue other)) [ inl e ↦ rw e refl | inr e ↦ rw e refl ])

-- A task is found only in a queue that is there.
find_queue :
    (queue name : Text) (t : Task) (s : State)
    → find queue name s ≡ some t
    → (q : Queue) × (get queue s.queues ≡ some q) × (get name q.tasks ≡ some t)
unfolding find Option.bind
find_queue queue name t s h = elim (Option-cases (get queue s.queues)) [
  | inl e ↦
      (let none_found : none ≡ some t =
          ap (λ (o : Option Queue). Option.bind o (λ q. get name q.tasks)) (sym e) ∙ h in
        cc)
  | inr (q, e) ↦
      (q, e, ap (λ (o : Option Queue). Option.bind o (λ q. get name q.tasks)) (sym e) ∙ h)
]

-- One task of a queue that is there is changed.
one_changed :
    (queue other task name : Text) (q : Queue) (ran : Task) (s : State)
    → get queue s.queues ≡ some q
    → (if text_eq queue other then get name (put task ran q.tasks) else find other name s)
      ≡ (if text_eq queue other && text_eq task name then some ran else find other name s)
one_changed queue other task name q ran s e = elim (Bool-cases (text_eq queue other)) [
  | inl k ↦
      rw (k, get-put task name ran q.tasks)
        (elim (Bool-cases (text_eq task name)) [ inl u ↦ rw u refl | inr u ↦ rw u (same k) ])
  | inr k ↦ rw k refl
]
  where
    same : text_eq queue other ≡ true → get name q.tasks ≡ find other name s
    same k =
        (unfold find Option.bind in
          ap (λ (o : Option Queue). Option.bind o (λ x. get name x.tasks))
            (sym e ∙ ap (λ (x : Text). get x s.queues) ((text_eq_iff queue other).0 k)))

-- Running a task marks that task as dispatched, and leaves every other task of every queue as it was.
pub find-task_action :
    (r : Request) (s : State) (task : Text) (t : Task) (queue name : Text)
    → split_verb (r.path_value (str "task")) ≡ (task, str "run")
    → find (queue_name r) (task_name r task) s ≡ some t
    → find queue name (task_action r s).0 ≡ (
        if text_eq (queue_name r) queue && text_eq (task_name r task) name
        then some (record t { dispatched = true })
        else find queue name s)
unfolding task_action run_in run_task
find-task_action r s task t queue name v h =
    let (q, e, f) = find_queue (queue_name r) (task_name r task) t s h in
    let ran = record t { dispatched = true } in
    ap (λ (u : State). find queue name u) (rw (v, text_eq_refl (str "run"), e, f) refl)
    ∙ find-with_tasks (queue_name r) queue name q (put (task_name r task) ran q.tasks) s
    ∙ one_changed (queue_name r) queue (task_name r task) name q ran s e

-- A task that is created with a name is stored under it, also where another task has the name: that
-- one is replaced, and every other task of every queue is left as it was.
pub find-create_task_decoded :
    (r : Request) (s : State) (given : Task) (q : Queue) (queue name : Text)
    → get (queue_name r) s.queues ≡ some q
    → text_eq given.name [] ≡ false
    → find queue name (create_task_decoded r (decoded given) s).0 ≡ (
        if text_eq (queue_name r) queue && text_eq given.name name
        then some given
        else find queue name s)
unfolding create_task_decoded store_task
find-create_task_decoded r s given q queue name e n =
    ap (λ (u : State). find queue name u) (rw (e, n) refl)
    ∙ find-with_tasks (queue_name r) queue name q (put given.name given q.tasks) s
    ∙ one_changed (queue_name r) queue given.name name q given s e
