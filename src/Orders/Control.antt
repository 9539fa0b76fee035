-- ===== src/Orders/Control.antt =====
-- `activate`, `control`, `reconcile`, `record_dispatch_error`, `abandon_unaccepted`, `retry_task`.
use doppel_agent.Prelude.{
  ℕ, String, Bool, true, false, ◌&&◌, ◌||◌, List, [], ◌∷◌, Option, none, some, str_eq, ◌==◌, ltb,
  if◌then◌else◌, mem, Result, ok, err, guard, ◌>>◌, ◌>>=◌,
}
use doppel_agent.Py.{Value}
use doppel_agent.Orders.Tables.{
  max_attempts_per_task, OrderStatus, draft, queued, paused, TaskStatus, AttemptStatus, IntentState,
  abandoned, TaskRow, Attempt, Binding, Execution, Order, OrderError, not_draft, invalid_transition,
  invalid_error_code, not_settled, intent_missing, not_pending, not_stopped, still_draining,
  task_missing, not_latest_failed, attempt_limit, World, is_pending, is_blocked, same_order_status,
}
use doppel_agent.Orders.Queries.{at_revision, find_row, active_count, latest, find_attempt}
use doppel_agent.Orders.States.{update_rows, set_task_state, set_task_retry, refresh_order}
use doppel_agent.Orders.Sync.{update_attempt, sync}

-- `_resolve_context`
abbrev pub resolve_context : World → Option Value → Result OrderError (Option String)
resolve_context world none = ok none
resolve_context world (some descriptor) = world.resolve descriptor >>= λ s. ok (some s)

-- `_save_context_binding`
unfoldable pub save_binding : ℕ → Binding → List (ℕ × Binding) → List (ℕ × Binding)
save_binding revision b [] = (revision, b) ∷ []
save_binding revision b ((r, old) ∷ rest) =
    let later = save_binding revision b rest in
    if r == revision then (r, b) ∷ rest else (r, old) ∷ later

abbrev pub activated : ℕ → Execution → Option String → Order → Order
activated revision options snapshot order = record order {
  status = queued;
  execution = options;
  contexts =
      save_binding revision (record { descriptor = options.settings.context; snapshot = snapshot })
        order.contexts;
}

unfoldable pub activate_draft : World → ℕ → Execution → Order → Result OrderError Order
activate_draft world revision options order = do
  snapshot ← resolve_context world options.settings.context
  ok (activated revision options snapshot order)

-- `activate`, on options that `execution_settings` has accepted
unfoldable pub activate : World → ℕ → Execution → Order → Result OrderError Order
activate world revision options order =
    at_revision revision order
    >> (if same_order_status order.status draft
        then activate_draft world revision options order
        else if str_eq order.execution.json options.json
        then ok order
        else err not_draft)

pub data Action : Type 0 where
  pause resume cancel : Action

abbrev pub controlled : Action → OrderStatus → Option OrderStatus
controlled pause queued = some paused
controlled pause OrderStatus.running = some paused
controlled pause paused = some paused
controlled resume paused = some queued
controlled cancel OrderStatus.succeeded = none
controlled cancel _ = some OrderStatus.cancelled
controlled _ _ = none

abbrev pub cancels : ℕ → TaskRow → Bool
cancels revision t = (t.revision == revision) && (is_pending t.status || is_blocked t.status)

abbrev pub cancel_row : TaskRow → TaskRow
cancel_row t = record t { status = TaskStatus.cancelled }

abbrev pub controlled_rows : Action → ℕ → List TaskRow → List TaskRow
controlled_rows cancel revision rows = update_rows (cancels revision) cancel_row rows
controlled_rows _ revision rows = rows

abbrev error_after : Action → String → String
error_after pause e = e
error_after _ e = ""

abbrev pub apply_control : Action → ℕ → OrderStatus → Order → Order
apply_control action revision after order = record order {
  status = after;
  tasks = controlled_rows action revision order.tasks;
  dispatch_error = error_after action order.dispatch_error;
}

abbrev pub controlled_order : Action → ℕ → Order → Option OrderStatus → Result OrderError Order
controlled_order action revision order none = err invalid_transition
controlled_order action revision order (some after) = ok (apply_control action revision after order)

-- `control`
unfoldable pub control : World → Action → ℕ → Order → Result OrderError Order
control world action revision order = do
  at_revision revision order
  synced ← sync world order
  at_revision revision synced
  controlled_order action revision synced (controlled action synced.status)

-- `reconcile`
unfoldable pub reconcile : World → Order → Result OrderError Order
reconcile world order = sync world order

abbrev error_codes : List String
error_codes =
    "admission_failed" ∷ "admission_rejected" ∷ "admission_not_persisted" ∷ "reconciliation_failed"
    ∷ "runtime_cancel_failed" ∷ []

abbrev pub stopped_status : OrderStatus → OrderStatus
stopped_status queued = paused
stopped_status OrderStatus.running = paused
stopped_status status = status

-- `record_dispatch_error`
unfoldable pub record_dispatch_error : String → Order → Result OrderError Order
record_dispatch_error code order =
    if mem code error_codes
    then ok (record order { status = stopped_status order.status; dispatch_error = code })
    else err invalid_error_code

abbrev pub abandoned_outcome : OrderStatus → AttemptStatus × TaskStatus
abandoned_outcome OrderStatus.cancelled = (AttemptStatus.cancelled, TaskStatus.cancelled)
abandoned_outcome _ = (AttemptStatus.failed, TaskStatus.failed)

abbrev pub abandon : OrderStatus → Attempt → Attempt
abandon status a = record a { state = abandoned; status = (abandoned_outcome status).0 }

abbrev pub abandon_attempt : Attempt → Order → Order
abandon_attempt a order = record order {
  attempts = update_attempt a.attempt_id (abandon order.status) order.attempts;
  tasks = set_task_state a.revision a.task_id (abandoned_outcome order.status).1 order.tasks;
}

abbrev pub abandon_found : Option Attempt → Order → Result OrderError Order
abandon_found none order = err intent_missing
abandon_found (some a) order = elim a.state [
  | IntentState.pending ↦ ok (refresh_order (abandon_attempt a order))
  | _ ↦ err not_pending
]

abbrev pub present_attempt : Option Attempt → Result OrderError (Unit {0})
present_attempt none = err intent_missing
present_attempt (some a) = ok tt

-- `abandon_unaccepted`, in the order that the attempt belongs to
unfoldable pub abandon_unaccepted : World → String → Bool → Order → Result OrderError Order
abandon_unaccepted world attempt settled order = do
  guard settled not_settled
  present_attempt (find_attempt attempt order.attempts)
  synced ← sync world order
  abandon_found (find_attempt attempt synced.attempts) synced

abbrev pub is_stopped : OrderStatus → Bool
is_stopped OrderStatus.failed = true
is_stopped paused = true
is_stopped _ = false

abbrev pub is_failed_attempt : AttemptStatus → Bool
is_failed_attempt AttemptStatus.failed = true
is_failed_attempt _ = false

abbrev pub reopens : ℕ → TaskRow → Bool
reopens revision t = (t.revision == revision) && is_blocked t.status

abbrev pub reopen_row : TaskRow → TaskRow
reopen_row t = record t { status = TaskStatus.pending }

-- the writes of `retry_task` before the order is refreshed
abbrev pub retried : ℕ → TaskRow → Order → Order
retried revision row order = record order {
  tasks =
      update_rows (reopens revision) reopen_row
        (set_task_retry row.execution_revision row.task.id TaskStatus.pending true order.tasks);
  status = paused;
}

-- The guards on the latest attempt of the task
abbrev pub retry_check : String → Option Attempt → Result OrderError (Unit {0})
retry_check expected none = err not_latest_failed
retry_check expected (some a) = do
  guard (str_eq a.attempt_id expected && is_failed_attempt a.status) not_latest_failed
  guard (ltb a.attempt_number max_attempts_per_task) attempt_limit

abbrev pub retry_row : String → ℕ → Option TaskRow → Order → Result OrderError Order
retry_row expected revision none order = err task_missing
retry_row expected revision (some row) order =
    retry_check expected (latest row.execution_revision row.task.id order.attempts)
    >> ok (refresh_order (retried revision row order))

-- `retry_task`
unfoldable pub retry_task : World → String → ℕ → String → Order → Result OrderError Order
retry_task world id revision expected order = do
  at_revision revision order
  synced ← sync world order
  at_revision revision synced
  guard (is_stopped synced.status) not_stopped
  guard (active_count synced.attempts == 0) still_draining
  retry_row expected revision (find_row revision id synced.tasks) synced
