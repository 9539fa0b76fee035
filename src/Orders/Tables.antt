-- ===== src/Orders/Tables.antt =====
-- The rows of the work-order tables. The rows that one order owns stand in its record: a task row with
-- its rows of `work_order_dependencies` and `work_order_task_bindings`, an attempt with its dispatch
-- intent. Time stamps are left out.
use doppel_agent.Prelude.{ℕ, String, Bool, true, false, List, Option, Result}
use doppel_agent.Py.{Value}
use doppel_agent.Plans.{PlanTask, WorkOrderPlan, PlanError, ExecutionSettings, DispatchRequest}
use doppel_agent.Runs.Tables.{Run}

-- `MAX_ATTEMPTS_PER_TASK`
abbrev pub max_attempts_per_task : ℕ
max_attempts_per_task = 3

pub data OrderStatus : Type 0 where
  draft queued running paused succeeded failed cancelled : OrderStatus

pub data TaskStatus : Type 0 where
  pending dispatching running awaiting_approval succeeded failed cancelled blocked : TaskStatus

pub data AttemptStatus : Type 0 where
  reserved accepted running awaiting_approval succeeded failed cancelled interrupted : AttemptStatus

pub data IntentState : Type 0 where
  pending admitted abandoned : IntentState

-- `execution_json`: the accepted settings, the frozen profiles with the text of each, and the whole
-- as canonical text.
pub record Execution : Type 0 where
  pub settings : ExecutionSettings
  pub profiles : List (String × String)
  pub json : String

-- A row of `work_order_tasks` in the plan `revision`, whose definition runs as `execution_revision`.
pub record TaskRow : Type 0 where
  pub revision : ℕ
  pub task : PlanTask
  pub status : TaskStatus
  pub retry_requested : Bool
  pub execution_revision : ℕ

-- A row of `work_order_attempts` with its row of `work_order_dispatch_intents`: both get the same
-- `run_id`.
pub record Attempt : Type 0 where
  pub attempt_id : String
  pub revision : ℕ
  pub task_id : String
  pub attempt_number : ℕ
  pub run_id : Option String
  pub status : AttemptStatus
  pub admission_key : String
  pub request : DispatchRequest
  pub state : IntentState
  pub profile : Option String
  pub input_snapshot : Option String

-- A row of `work_order_context_bindings`
pub record Binding : Type 0 where
  pub descriptor : Option Value
  pub snapshot : Option String

-- A row of `work_orders` with what it owns; tasks and attempts in the order of their insertion.
pub record Order : Type 0 where
  pub title : String
  pub status : OrderStatus
  pub active_revision : ℕ
  pub idempotency_key : Option String
  pub request : WorkOrderPlan
  pub execution : Execution
  pub dispatch_error : String
  pub plans : List (ℕ × WorkOrderPlan)
  pub tasks : List TaskRow
  pub contexts : List (ℕ × Binding)
  pub attempts : List Attempt

pub data OrderError : Type 0 where
  invalid_plan : PlanError → OrderError
  plan_check_unfinished invalid_id invalid_key key_reused not_found : OrderError
  invalid_revision revision_changed not_unstarted_draft : OrderError
  request_differs profile_or_scope_changed input_changed reappeared integrity : OrderError
  terminal_order draft_context frozen_profiles started_changed : OrderError
  not_draft invalid_transition attempt_limit binding_missing : OrderError
  resolver_required context_refused : OrderError
  invalid_error_code not_settled intent_missing not_pending : OrderError
  not_stopped still_draining task_missing not_latest_failed : OrderError

-- What the store reads beside its own tables: the rows of `runtime_runs`, the text `json.dumps` gives
-- for a request, `input_resolver`, and `bind_predecessors` of context/predecessors.py.
pub record World : Type 0 where
  pub runs : List Run
  pub canonical : DispatchRequest → String
  pub resolve : Value → Result OrderError String
  pub bind : TaskRow → Option String → Result OrderError (Option String)

-- The statuses of the partial index `ix_work_order_active_attempt`
abbrev pub is_active : AttemptStatus → Bool
is_active reserved = true
is_active accepted = true
is_active AttemptStatus.running = true
is_active AttemptStatus.awaiting_approval = true
is_active interrupted = true
is_active _ = false

abbrev pub is_pending : TaskStatus → Bool
is_pending TaskStatus.pending = true
is_pending _ = false

abbrev pub is_blocked : TaskStatus → Bool
is_blocked blocked = true
is_blocked _ = false

abbrev pub is_succeeded : TaskStatus → Bool
is_succeeded TaskStatus.succeeded = true
is_succeeded _ = false

-- `IN ('failed','cancelled')`
abbrev pub is_lost : TaskStatus → Bool
is_lost TaskStatus.failed = true
is_lost TaskStatus.cancelled = true
is_lost _ = false

abbrev pub same_order_status : OrderStatus → OrderStatus → Bool
same_order_status draft draft = true
same_order_status queued queued = true
same_order_status OrderStatus.running OrderStatus.running = true
same_order_status paused paused = true
same_order_status OrderStatus.succeeded OrderStatus.succeeded = true
same_order_status OrderStatus.failed OrderStatus.failed = true
same_order_status OrderStatus.cancelled OrderStatus.cancelled = true
same_order_status _ _ = false

-- `status IN {"queued", "running"}`
abbrev pub is_open : OrderStatus → Bool
is_open queued = true
is_open OrderStatus.running = true
is_open _ = false
