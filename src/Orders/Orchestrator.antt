-- ===== src/Orders/Orchestrator.antt =====
-- src/doppel_agent/tasks/orchestrator.py: `_step` and `_cancel_order` of WorkOrderOrchestrator, which
-- run one after another under the admission lock. Each operation of the store is a transaction: one
-- that raises leaves the order as it was.
use doppel_agent.Prelude.{
  String, Bool, true, false, ◌&&◌, List, [], ◌∷◌, Option, none, some, str_eq, if◌then◌else◌, Result,
  ok, err, keep,
}
use doppel_agent.Py.{Value}
use doppel_agent.Plans.{DispatchRequest}
use doppel_agent.Runs.Tables.{Run}
use doppel_agent.Orders.Tables.{
  OrderStatus, IntentState, TaskRow, Attempt, Order, OrderError, World, is_active, is_open,
  same_order_status,
}
use doppel_agent.Orders.Reserve.{reserve_next}
use doppel_agent.Orders.Control.{reconcile, record_dispatch_error, abandon_unaccepted}

-- How `_create_run` ends: it returns, raises ValueError or KeyError, or raises another exception.
pub data Admission : Type 0 where
  returned rejected broken : Admission

-- The callbacks and what else a step reads. `create_run` and `cancel_run` change the table of runs;
-- `cancel_run` is none where it raises.
pub record Service : Type 0 where
  pub available : Bool
  pub create_run : DispatchRequest → List Run → Admission × List Run
  pub cancel_run : String → List Run → Option (List Run)
  pub canonical : DispatchRequest → String
  pub resolve : Value → Result OrderError String
  pub bind : TaskRow → Option String → Result OrderError (Option String)

abbrev pub world_of : Service → List Run → World
world_of service runs = record {
  runs = runs;
  canonical = service.canonical;
  resolve = service.resolve;
  bind = service.bind;
}

-- What a step leaves, with the exception that it raises.
pub record Stepped : Type 0 where
  pub order : Order
  pub runs : List Run
  pub raised : Option OrderError

abbrev pub leaves : Order → List Run → Stepped
leaves order runs = record { order = order; runs = runs; raised = none }

abbrev pub raises : OrderError → Order → List Run → Stepped
raises e order runs = record { order = order; runs = runs; raised = some e }

abbrev pub left_by : Result OrderError Order → Order → List Run → Stepped
left_by (ok after) order runs = leaves after runs
left_by (err e) order runs = raises e order runs

abbrev pub mark : String → Order → List Run → Stepped
mark code order runs = left_by (record_dispatch_error code order) order runs

abbrev pub is_waiting : Attempt → Bool
is_waiting a = elim a.state [ IntentState.pending ↦ true | _ ↦ false ]

-- `pending_intents`, in the order of their insertion
unfoldable pub pending_intents : Order → List Attempt
pending_intents order = keep is_waiting order.attempts

unfoldable pub has_attempt : String → List Attempt → Bool
has_attempt id [] = false
has_attempt id (a ∷ xs) =
    let rest = has_attempt id xs in if str_eq a.attempt_id id then true else rest

abbrev pub confirmed : Attempt → Order → List Run → Result OrderError Order → Stepped
confirmed a order runs (err e) = mark "reconciliation_failed" order runs
confirmed a order runs (ok after) =
    if has_attempt a.attempt_id (pending_intents after)
    then mark "admission_not_persisted" after runs
    else leaves after runs

-- the abandoned order is marked; an exception of `abandon_unaccepted` is passed on
abbrev pub settled_rejection : Order → List Run → Result OrderError Order → Stepped
settled_rejection order runs (err e) = raises e order runs
settled_rejection order runs (ok after) = mark "admission_rejected" after runs

abbrev pub refused : Service → Bool → Attempt → Order → List Run → Result OrderError Order → Stepped
refused service is_rejected a order runs (err e) = mark "reconciliation_failed" order runs
refused service is_rejected a order runs (ok after) =
    if has_attempt a.attempt_id (pending_intents after) && is_rejected
    then settled_rejection after runs
        (abandon_unaccepted (world_of service runs) a.attempt_id true after)
    else mark "admission_failed" after runs

-- the part behind `_create_run`
abbrev pub admitted_as : Service → Attempt → Order → Admission × List Run → Stepped
admitted_as service a order (returned, runs) =
    confirmed a order runs (reconcile (world_of service runs) order)
admitted_as service a order (rejected, runs) =
    refused service true a order runs (reconcile (world_of service runs) order)
admitted_as service a order (broken, runs) =
    refused service false a order runs (reconcile (world_of service runs) order)

unfoldable pub admit : Service → Attempt → Order → List Run → Stepped
admit service a order runs = admitted_as service a order (service.create_run a.request runs)

abbrev pub reserved_step :
    Service → Order → List Run → Result OrderError (Order × Option Attempt) → Stepped
reserved_step service order runs (err e) = raises e order runs
reserved_step service order runs (ok (after, none)) =
    left_by (reconcile (world_of service runs) after) after runs
reserved_step service order runs (ok (after, some a)) = admit service a after runs

abbrev pub intent_step : Service → String → Order → List Run → List Attempt → Stepped
intent_step service id order runs (a ∷ rest) = admit service a order runs
intent_step service id order runs [] =
    reserved_step service order runs
      (reserve_next (world_of service runs) id order.active_revision order)

-- the loop of `_cancel_order` over the attempts: false where `_cancel_run` raises
unfoldable pub cancel_runs : Service → List Attempt → List Run → Bool × List Run
cancel_runs service [] runs = (true, runs)
cancel_runs service (a ∷ xs) runs = elim a.run_id [
  | none ↦ cancel_runs service xs runs
  | some run ↦
      if is_active a.status
      then (elim (service.cancel_run run runs) [
        | none ↦ (false, runs)
        | some after ↦ cancel_runs service xs after
      ])
      else cancel_runs service xs runs
]

-- an exception of `abandon_unaccepted` ends the loop
abbrev pub abandoned_then : Result OrderError Order → Order → List Run → (Order → Stepped) → Stepped
abandoned_then (err e) order runs rest = raises e order runs
abandoned_then (ok after) order runs rest = rest after

-- the second loop, and the last `reconcile`
unfoldable pub abandon_intents : Service → List Attempt → Order → List Run → Stepped
abandon_intents service [] order runs = left_by (reconcile (world_of service runs) order) order runs
abandon_intents service (a ∷ xs) order runs =
    abandoned_then (abandon_unaccepted (world_of service runs) a.attempt_id true order) order runs
      (λ after. abandon_intents service xs after runs)

abbrev pub cancelled_step : Service → Order → Bool × List Run → Stepped
cancelled_step service order (false, runs) = mark "runtime_cancel_failed" order runs
cancelled_step service order (true, runs) =
    abandon_intents service (pending_intents order) order runs

-- `_cancel_order`
unfoldable pub cancel_order : Service → Order → List Run → Stepped
cancel_order service order runs =
    cancelled_step service order (cancel_runs service order.attempts runs)

abbrev pub reconciled_step : Service → String → Order → List Run → Result OrderError Order → Stepped
reconciled_step service id order runs (err e) = mark "reconciliation_failed" order runs
reconciled_step service id order runs (ok after) =
    if same_order_status after.status OrderStatus.cancelled
    then cancel_order service after runs
    else if is_open after.status && service.available
    then intent_step service id after runs (pending_intents after)
    else leaves after runs

-- `_step`, with the id that is drawn if an attempt is made
unfoldable pub step : Service → String → Order → List Run → Stepped
step service id order runs =
    reconciled_step service id order runs (reconcile (world_of service runs) order)
