-- ===== src/Plans.antt =====
-- src/doppel_agent/tasks/work_orders.py: plans of dependent tasks, their validation from decoded
-- JSON, the order in which their tasks run, and the request that dispatches one task.
mod Rounds
mod Order
pub mod Topological
pub mod Cycles
pub mod Validation
pub mod Accepted
pub mod Tests
use doppel_agent.Prelude.{
  ℕ, zero, suc, ◌+◌, ◌*◌, ◌≤◌, String, Bool, true, false, not, ◌&&◌, ◌||◌, List, [], ◌∷◌, ◌++◌, map,
  Option, none, some, str_eq, ◌==◌, ltb, leb, if◌then◌else◌, length, all, keep, mem, distinct,
  codes, text_length, utf8_length, has_nul, strip, Result, ok, err, ◌>>=◌, ◌>>◌, guard,
}
use doppel_agent.Py.{
  Value, none_value, str, list, tuple, dict, Items, Fields, elements, get_field, get_or,
  keys_within, has_keys, keys_are,
}

pub record PlanTask : Type 0 where
  pub id : String
  pub title : String
  pub prompt : String
  pub dependencies : List String
  pub access : String
  pub mode : String
  pub profile_id : Option String

pub record WorkOrderPlan : Type 0 where
  pub title : String
  pub tasks : List PlanTask

abbrev pub max_tasks : ℕ
max_tasks = 64

abbrev pub max_total_prompt_bytes : ℕ
max_total_prompt_bytes = 512 * 1024

-- The `ValueError`s, one constructor for each message.
pub data PlanError : Type 0 where
  bad_plan_fields bad_text bad_task_count bad_task_fields bad_task_id bad_dependencies : PlanError
  bad_dependency_id repeated_dependency bad_access_or_mode too_many_bytes : PlanError
  duplicate_task_id unknown_dependency cyclic_dependencies : PlanError

-- `_text`: the bound is on the text as given, the result is stripped.
unfoldable pub text : Value → ℕ → Result PlanError String
text (str value) maximum =
    if text_length (strip value) == 0 || ltb maximum (text_length value) || has_nul value
    then err bad_text
    else ok (strip value)
text _ maximum = err bad_text

abbrev is_alnum : ℕ → Bool
is_alnum c = (leb b'A' c && leb c b'Z') || (leb b'a' c && leb c b'z') || (leb b'0' c && leb c b'9')

abbrev is_id_char : ℕ → Bool
is_id_char c = is_alnum c || (c == b'_') || (c == b'-')

abbrev task_id_codes : List ℕ → Bool
task_id_codes [] = false
task_id_codes (c ∷ rest) = is_alnum c && (leb (length rest) 63 && all is_id_char rest)

-- `_TASK_ID.fullmatch`
unfoldable pub is_task_id : String → Bool
is_task_id s = task_id_codes (codes s)

unfoldable pub identifier : Value → Result PlanError String
identifier (str s) = if is_task_id s then ok s else err bad_task_id
identifier _ = err bad_task_id

-- `isinstance(value, (list, tuple))`
abbrev pub sequence : Value → Option (List Value)
sequence (list xs) = some (elements xs)
sequence (tuple xs) = some (elements xs)
sequence _ = none

unfoldable pub dependency_ids : List Value → Result PlanError (List String)
dependency_ids [] = ok []
dependency_ids (str s ∷ rest) =
    if is_task_id s then (dependency_ids rest >>= λ ids. ok (s ∷ ids)) else err bad_dependency_id
dependency_ids (_ ∷ rest) = err bad_dependency_id

abbrev known_dependencies : Option (List Value) → Result PlanError (List String)
known_dependencies none = err bad_dependencies
known_dependencies (some values) = do
  guard (leb (length values) max_tasks) bad_dependencies
  ids ← dependency_ids values
  guard (distinct ids) repeated_dependency
  ok ids

unfoldable pub dependency_list : Value → Result PlanError (List String)
dependency_list value = known_dependencies (sequence value)

unfoldable pub one_of : List String → Value → Result PlanError String
one_of names (str s) = if mem s names then ok s else err bad_access_or_mode
one_of names _ = err bad_access_or_mode

unfoldable pub optional_text : Value → ℕ → Result PlanError (Option String)
optional_text none_value maximum = ok none
optional_text value maximum = text value maximum >>= λ t. ok (some t)

-- `item[key]` behind a test that the key is there.
abbrev pub present : String → Fields → Value
present key d = get_or key none_value d

abbrev pub task_keys : List String
task_keys = "id" ∷ "title" ∷ "prompt" ∷ "dependencies" ∷ "access" ∷ "mode" ∷ "profile_id" ∷ []

-- One round of the loop over the tasks of a payload: the running total of prompt bytes is checked
-- before the title is.
unfoldable pub plan_task : ℕ → Value → Result PlanError (ℕ × PlanTask)
plan_task total (dict item) = do
  guard (keys_within task_keys item && has_keys ("id" ∷ "title" ∷ "prompt" ∷ []) item)
      bad_task_fields
  id ← identifier (present "id" item)
  dependencies ← dependency_list (get_or "dependencies" (tuple Items.nil) item)
  access ← one_of ("read" ∷ "write" ∷ []) (get_or "access" (str "read") item)
  mode ← one_of ("legacy" ∷ "graph" ∷ "deep" ∷ []) (get_or "mode" (str "graph") item)
  profile ← optional_text (get_or "profile_id" none_value item) 128
  prompt ← text (present "prompt" item) 100000
  guard (leb (total + utf8_length prompt) max_total_prompt_bytes) too_many_bytes
  title ← text (present "title" item) 200
  ok (
    total + utf8_length prompt,
    record {
      id = id;
      title = title;
      prompt = prompt;
      dependencies = dependencies;
      access = access;
      mode = mode;
      profile_id = profile;
    },
  )
plan_task total _ = err bad_task_fields

unfoldable pub plan_tasks : ℕ → List Value → Result PlanError (List PlanTask)
plan_tasks total [] = ok []
plan_tasks total (item ∷ rest) = do
  (total', task) ← plan_task total item
  tasks ← plan_tasks total' rest
  ok (task ∷ tasks)

abbrev pub task_id : PlanTask → String
task_id t = t.id

abbrev pub ids : List PlanTask → List String
ids tasks = map task_id tasks

-- `task.id not in complete and set(task.dependencies) <= complete`
abbrev pub is_ready : List String → PlanTask → Bool
is_ready complete t = not (mem t.id complete) && all (λ d. mem d complete) t.dependencies

abbrev pub ready : List PlanTask → List String → List String
ready tasks complete = ids (keep (is_ready complete) tasks)

-- `task.id in task.dependencies or any(dep not in known ...)`
abbrev pub well_linked : List String → PlanTask → Bool
well_linked known t = not (mem t.id t.dependencies) && all (λ d. mem d known) t.dependencies

-- The `while` loop. `result` and the set `complete` hold the same ids. `none` means that the fuel
-- ran out.
unfoldable pub kahn : ℕ → List PlanTask → List String → Option (Result PlanError (List String))
kahn zero tasks complete = none
kahn (suc fuel) tasks complete =
    let rest = kahn fuel tasks (complete ++ ready tasks complete) in
    if ltb (length complete) (length tasks)
    then (if length (ready tasks complete) == 0 then some (err cyclic_dependencies) else rest)
    else some (ok complete)

unfoldable pub topological_order : WorkOrderPlan → Option (Result PlanError (List String))
topological_order plan =
    if distinct (ids plan.tasks)
    then (if all (well_linked (ids plan.tasks)) plan.tasks
        then kahn (suc (length plan.tasks)) plan.tasks []
        else some (err unknown_dependency))
    else some (err duplicate_task_id)

abbrev ordered :
    WorkOrderPlan
    → Option (Result PlanError (List String))
    → Option (Result PlanError WorkOrderPlan)
ordered plan none = none
ordered plan (some (ok order)) = some (ok plan)
ordered plan (some (err e)) = some (err e)

abbrev checked : Result PlanError WorkOrderPlan → Option (Result PlanError WorkOrderPlan)
checked (err e) = some (err e)
checked (ok plan) = ordered plan (topological_order plan)

abbrev source_items : Option (List Value) → Result PlanError (List Value)
source_items none = err bad_task_count
source_items (some items) =
    if leb 1 (length items) && leb (length items) max_tasks then ok items else err bad_task_count

-- The payload up to the call of `topological_order`.
unfoldable pub read_plan : Value → Result PlanError WorkOrderPlan
read_plan (dict payload) = do
  guard (keys_are ("title" ∷ "tasks" ∷ []) payload) bad_plan_fields
  title ← text (present "title" payload) 200
  items ← source_items (sequence (present "tasks" payload))
  tasks ← plan_tasks 0 items
  ok (record { title = title; tasks = tasks })
read_plan _ = err bad_plan_fields

unfoldable pub plan_from_payload : Value → Option (Result PlanError WorkOrderPlan)
plan_from_payload payload = checked (read_plan payload)

-- The grants of a run: `permissions` of the execution settings.
pub record Permissions : Type 0 where
  pub workspace_write : Bool
  pub command_execute : Bool
  pub mcp_execute : Bool
  pub delegate : Bool

abbrev pub no_permissions : Permissions
no_permissions = record {
  workspace_write = false;
  command_execute = false;
  mcp_execute = false;
  delegate = false;
}

-- What `execution_settings` returns, its frozen profiles left out: no request reads them.
pub record ExecutionSettings : Type 0 where
  pub permissions : Permissions
  pub profile : Option String
  pub effort : String
  pub deadline_seconds : ℕ
  pub context : Option Value

pub record DispatchRequest : Type 0 where
  pub conversation_id : Option String
  pub prompt : String
  pub mode : String
  pub profile : Option String
  pub effort : String
  pub deadline_seconds : ℕ
  pub permissions : Permissions
  pub idempotency_key : String
  pub context : Option Value

-- `a or b` of two optional texts: an empty text is false.
abbrev first_text : Option String → Option String → Option String
first_text none b = b
first_text (some a) b = if str_eq a "" then b else some a

-- `dispatch_request` on settings that `execution_settings` has accepted.
unfoldable pub dispatch_request : PlanTask → ExecutionSettings → String → DispatchRequest
dispatch_request task settings admission_key = record {
  conversation_id = none;
  prompt = task.prompt;
  mode = task.mode;
  profile = first_text task.profile_id settings.profile;
  effort = settings.effort;
  deadline_seconds = settings.deadline_seconds;
  permissions = if str_eq task.access "write" then settings.permissions else no_permissions;
  idempotency_key = admission_key;
  context = settings.context;
}
