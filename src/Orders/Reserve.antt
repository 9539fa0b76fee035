-- ===== src/Orders/Reserve.antt =====
-- `reserve_next`: the first ready task gets an attempt and its dispatch intent.
use doppel_agent.Prelude.{
  ℕ, suc, String, false, not, ◌&&◌, ◌||◌, List, [], ◌∷◌, ◌++◌, Option, none, some, ltb,
  if◌then◌else◌, is_some, lookup, Result, ok, err, guard, ◌>>◌, ◌>>=◌,
}
use Prim.Native.String.{◌++◌ as str_append}
use doppel_agent.Plans.{ExecutionSettings, DispatchRequest, dispatch_request}
use doppel_agent.Orders.Tables.{
  max_attempts_per_task, OrderStatus, dispatching, reserved, IntentState, TaskRow, Attempt, Binding,
  Order, OrderError, attempt_limit, binding_missing, integrity, World,
}
use doppel_agent.Orders.Queries.{
  at_revision, active_count, last_number, latest, find_attempt, find_binding, ready_rows,
}
use doppel_agent.Orders.States.{set_task_retry}
use doppel_agent.Orders.Sync.{sync}

abbrev pub admission_key : String → String
admission_key attempt = str_append "work-order:" attempt

-- A descriptor was resolved to a snapshot when it was bound.
abbrev pub is_bound : Option Binding → Result OrderError Binding
is_bound none = err binding_missing
is_bound (some b) =
    if is_some b.descriptor && not (is_some b.snapshot) then err binding_missing else ok b

-- `scope` with the context that the execution revision is bound to
abbrev bound_settings : Binding → ExecutionSettings → ExecutionSettings
bound_settings b s = record s { context = b.descriptor }

abbrev pub input_of : Option Attempt → Option String
input_of none = none
input_of (some a) = a.input_snapshot

-- A retry gets the input of the attempt before it.
abbrev pub frozen_input : World → ℕ → TaskRow → Binding → Order → Result OrderError (Option String)
frozen_input world number row b order =
    if ltb 1 number
    then ok (input_of (latest row.execution_revision row.task.id order.attempts))
    else world.bind row b.snapshot

abbrev pub frozen_profile : Option String → List (String × String) → Option String
frozen_profile none profiles = none
frozen_profile (some id) profiles = lookup id profiles

abbrev pub new_attempt :
    String → TaskRow → ℕ → DispatchRequest → Option String → Option String → Attempt
new_attempt id row number request profile input = record {
  attempt_id = id;
  revision = row.execution_revision;
  task_id = row.task.id;
  attempt_number = number;
  run_id = none;
  status = reserved;
  admission_key = admission_key id;
  request = request;
  state = IntentState.pending;
  profile = profile;
  input_snapshot = input;
}

abbrev pub with_attempt : Attempt → Order → Order
with_attempt a order = record order {
  attempts = order.attempts ++ (a ∷ []);
  tasks = set_task_retry a.revision a.task_id dispatching false order.tasks;
  status = OrderStatus.running;
}

-- The request of the attempt: the row's task under the settings, with the bound context.
abbrev pub request_of : String → TaskRow → Binding → Order → DispatchRequest
request_of id row b order =
    dispatch_request row.task (bound_settings b order.execution.settings) (admission_key id)

-- The insertion, refused by the primary key and by the unique index of active attempts.
unfoldable pub insert_attempt : Attempt → Order → Result OrderError (Order × Option Attempt)
insert_attempt a order =
    if is_some (find_attempt a.attempt_id order.attempts)
      || ltb 1 (active_count (with_attempt a order).attempts)
    then err integrity
    else ok (with_attempt a order, some a)

unfoldable pub reserve_row :
    World → String → TaskRow → Order → Result OrderError (Order × Option Attempt)
reserve_row world id row order =
    let number = suc (last_number row.execution_revision row.task.id order.attempts) in
    do
      guard (not (ltb max_attempts_per_task number)) attempt_limit
      b ← is_bound (find_binding row.execution_revision order.contexts)
      input ← frozen_input world number row b order
      insert_attempt
          (new_attempt id row number (request_of id row b order)
            (frozen_profile (request_of id row b order).profile order.execution.profiles) input)
          order

abbrev pub reserve_first :
    World → String → List TaskRow → Order → Result OrderError (Order × Option Attempt)
reserve_first world id [] order = ok (order, none)
reserve_first world id (row ∷ rows) order = reserve_row world id row order

-- `reserve_next`, with the id that is drawn for the attempt
unfoldable pub reserve_next :
    World → String → ℕ → Order → Result OrderError (Order × Option Attempt)
reserve_next world id revision order = do
  at_revision revision order
  synced ← sync world order
  at_revision revision synced
  reserve_first world id (ready_rows synced) synced
