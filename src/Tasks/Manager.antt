-- ===== src/Tasks/Manager.antt =====
-- `create`, `set_dependencies`, `list`, `ready`, `get` and `transition`.
use doppel_agent.Prelude.{
  ℕ, ◌+◌, String, Bool, true, false, not, ◌&&◌, Option, none, some, List, [], ◌∷◌, ◌++◌, str_eq,
  if◌then◌else◌, is_some, Result, ok, err, mem, all, ltb, strip, text_length,
}
use doppel_agent.Tasks.Table.{
  Status, pending, running, completed, failed, Task, Db, TaskError, invalid_title, not_pending,
  self_dependency, different_run, invalid_transition, blocked, integrity, same_status, find_task,
  update_task, get_task, check_deps, pairs, depends_on, clear_dependencies, done,
}
use doppel_agent.Tasks.Cycle.{check_acyclic}

abbrev pub new_task : String → String → String → ℕ → Task
new_task id run title now = record {
  id = id;
  run_id = run;
  title = strip title;
  status = pending;
  attempts = 0;
  result = "";
  created_at = now;
  updated_at = now;
}

abbrev is_title : String → String → Bool
is_title run title =
    not (str_eq run "") && not (str_eq (strip title) "") && not (ltb 500 (text_length title))

-- `create`, whose id is drawn at random; the primary key refuses one that is taken
unfoldable pub create :
    String → String → List String → String → ℕ → Db → Result TaskError (String × Db)
create run title deps id now db =
    if not (is_title run title) then err invalid_title else elim (check_deps run deps db) [
      | err e ↦ err e
      | ok checked ↦
          if is_some (find_task id db.tasks)
          then err integrity
          else ok (
            id,
            record {
              tasks = db.tasks ++ (new_task id run title now ∷ []);
              dependencies = db.dependencies ++ pairs id deps;
            },
          )
    ]

-- `graph`, with the new dependencies of the task in their place
unfoldable pub graph_of :
    String → String → List String → Db → List Task → List (String × List String)
graph_of run id deps db [] = []
graph_of run id deps db (t ∷ ts) =
    let rest = graph_of run id deps db ts in
    if str_eq t.run_id run
    then (t.id, if str_eq t.id id then deps else depends_on t.id db.dependencies) ∷ rest
    else rest

abbrev pub rewired : String → List String → ℕ → Db → Db
rewired id deps now db = record {
  tasks = update_task id (λ t. record t { updated_at = now }) db.tasks;
  dependencies = clear_dependencies id db.dependencies ++ pairs id deps;
}

-- `set_dependencies`
unfoldable pub set_dependencies : String → List String → ℕ → Db → Result TaskError Db
set_dependencies id deps now db = elim (get_task id db) [
  | err e ↦ err e
  | ok task ↦
      if not (same_status task.status pending)
      then err not_pending
      else elim (check_deps task.run_id deps db) [
        | err e ↦ err e
        | ok checked ↦
            if mem id deps
            then err self_dependency
            else elim (check_acyclic (graph_of task.run_id id deps db db.tasks)) [
              | err e ↦ err e
              | ok marks ↦ ok (rewired id deps now db)
            ]
      ]
]

-- `list`, each task with its dependencies
unfoldable pub list_tasks : String → List Task → List (String × String) → List (Task × List String)
list_tasks run [] deps = []
list_tasks run (t ∷ ts) deps =
    let rest = list_tasks run ts deps in
    if str_eq t.run_id run then (t, depends_on t.id deps) ∷ rest else rest

unfoldable pub ready_among : List (Task × List String) → Db → List (Task × List String)
ready_among [] db = []
ready_among ((t, deps) ∷ rest) db =
    let later = ready_among rest db in
    if same_status t.status pending && all (λ d. done d db.tasks) deps
    then (t, deps) ∷ later
    else later

-- `ready`; each dependency is a task, by the foreign key
unfoldable pub ready : String → Db → List (Task × List String)
ready run db = ready_among (list_tasks run db.tasks db.dependencies) db

pub data Action : Type 0 where
  begin complete fail retry : Action

-- `allowed`
abbrev pub source_of : Action → Status
source_of begin = pending
source_of complete = running
source_of fail = running
source_of retry = failed

abbrev pub target_of : Action → Status
target_of begin = running
target_of complete = completed
target_of fail = failed
target_of retry = pending

-- the names of the actions; no other is in `allowed`
abbrev pub action_of : String → Option Action
action_of s =
    if str_eq s "start"
    then some begin
    else if str_eq s "complete"
    then some complete
    else if str_eq s "fail"
    then some fail
    else if str_eq s "retry"
    then some retry
    else none

abbrev starts : Action → ℕ
starts begin = 1
starts _ = 0

abbrev result_after : Action → String → String → String
result_after complete new old = new
result_after fail new old = new
result_after _ new old = old

abbrev pub moved : Action → String → ℕ → Task → Task
moved action result now t = record t {
  status = target_of action;
  attempts = t.attempts + starts action;
  result = result_after action result t.result;
  updated_at = now;
}

abbrev pub is_start : Action → Bool
is_start begin = true
is_start _ = false

-- the guards of `transition` behind the checks of run and action
unfoldable pub move : Action → String → ℕ → Task → Db → Result TaskError Db
move action result now task db =
    if not (same_status task.status (source_of action))
    then err invalid_transition
    else if is_start action && not (all (λ d. done d db.tasks) (depends_on task.id db.dependencies))
    then err blocked
    else ok (record db { tasks = update_task task.id (moved action result now) db.tasks })

-- `transition`
unfoldable pub transition : String → String → String → String → ℕ → Db → Result TaskError Db
transition run id action result now db = elim (get_task id db) [
  | err e ↦ err e
  | ok task ↦ if not (str_eq task.run_id run) then err different_run else elim (action_of action) [
    | none ↦ err invalid_transition
    | some a ↦ move a result now task db
  ]
]
