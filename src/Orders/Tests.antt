-- ===== src/Orders/Tests.antt =====
-- A work order of two tasks, the second behind the first.
use doppel_agent.Orders.Sync.{sync, sync_attempts, run_for, update_attempt, sync_run, sync_attempt}
use doppel_agent.Prelude.{
  String, ◌≡◌, ◌≢◌, ◌≤◌, arith, refl, Bool, true, false, List, [], ◌∷◌, Option, none, some, Result,
  ok, err, map, length, lookup, distinct, mem, lstrip, rstrip, rstrip_cons, strip,
}
use doppel_agent.Plans.{
  PlanTask, WorkOrderPlan, dispatch_request, dependency_ids, dependency_list, identifier,
  is_task_id, kahn, one_of, optional_text, plan_from_payload, plan_task, plan_tasks, read_plan,
  text, topological_order,
}
use doppel_agent.Runs.Tables.{Run, Status}
use doppel_agent.Orders.Tables.{
  OrderStatus, TaskStatus, AttemptStatus, IntentState, TaskRow, Attempt, Execution, Order,
  OrderError, World,
}
use doppel_agent.Orders.Queries.{
  find_row, at_revision, ready_rows, active_count, last_number, find_binding, find_attempt, latest,
}
use doppel_agent.Orders.States.{
  any_row, gets_blocked, refresh_order, refreshed_status, block_rows, block_round, update_rows,
  set_task_state, set_task_retry,
}
use doppel_agent.Orders.Settled.{IsKept, refresh_order-settles}
use doppel_agent.Orders.Revise.{
  new_order, replaced, payload, revalidate, insert_plan, replace_draft_plan,
}
use doppel_agent.Orders.Reserve.{reserve_next, reserve_row, insert_attempt}
use doppel_agent.Orders.Control.{
  cancel, activate, activate_draft, save_binding, control, reconcile, record_dispatch_error,
  abandon_unaccepted, retry_task,
}
use doppel_agent.Orders.Histories.{
  perform, activates, controls, reserves, reconciles, replaces, created, performed,
}
use doppel_agent.Orders.Dispatch.{IsDispatched, reserve_next-IsDispatched}
use doppel_agent.Orders.Statuses.{moves, perform-moves}
use doppel_agent.Orders.Cancelled.{perform-cancelled}
use doppel_agent.Orders.Stale.{now, edit-stale}
use doppel_agent.Orders.Orchestrator.{
  Service, returned, broken, pending_intents, cancel_order, step, has_attempt, admit, cancel_runs,
  abandon_intents,
}
use doppel_agent.Orders.Uncertain.{abandoned_count}
use doppel_agent.Orders.Rejected.{step-abandoned_count}
use doppel_agent.Orders.Closed.{with_create_run, step-with_create_run}
use doppel_agent.Orders.Settling.{cancel_order-settles}
use doppel_agent.Orders.Store.{create, create-same_key, find_key}
use doppel_agent.Orders.Attempts.{IsSound}
use doppel_agent.Orders.Sound.{Reach-IsSound}

abbrev task : String → List String → String → PlanTask
task id deps access = record {
  id = id;
  title = id;
  prompt = "do it";
  dependencies = deps;
  access = access;
  mode = "graph";
  profile_id = none;
}

abbrev plan : WorkOrderPlan
plan = record { title = "two steps"; tasks = task "a" [] "read" ∷ task "b" ("a" ∷ []) "write" ∷ [] }

abbrev draft_order : Order
draft_order = new_order plan (some "key")

abbrev world : World
world = record {
  runs = [];
  canonical = λ r. "{}";
  resolve = λ v. ok "snapshot";
  bind = λ row snapshot. ok snapshot;
}

abbrev options : Execution
options = record {
  settings = record {
    permissions = record {
      workspace_write = true;
      command_execute = false;
      mcp_execute = false;
      delegate = false;
    };
    profile = none;
    effort = "quick";
    deadline_seconds = 60;
    context = none;
  };
  profiles = [];
  json = "{quick}";
}

abbrev order_of : Result OrderError Order → Order
order_of (ok order) = order
order_of (err e) = draft_order

abbrev queued_order : Order
queued_order = order_of (perform world (activates 1 options) draft_order)

activated : perform world (activates 1 options) draft_order ≡ ok queued_order
unfolding perform new_order activate at_revision activate_draft
activated = refl

abbrev running_order : Order
running_order = order_of (perform world (reserves "x1" 1) queued_order)

dispatched : perform world (reserves "x1" 1) queued_order ≡ ok running_order
unfolding at_revision find_row active_count last_number latest find_attempt find_binding ready_rows
    update_rows set_task_state set_task_retry block_round any_row block_rows refreshed_status
    refresh_order run_for update_attempt sync_run sync_attempt sync_attempts sync insert_attempt
    reserve_row reserve_next save_binding activate_draft activate control reconcile
    record_dispatch_error abandon_unaccepted retry_task perform new_order dispatch_request lookup
    mem
dispatched = refl

Reach-IsSound_example : IsSound running_order
Reach-IsSound_example = Reach-IsSound running_order (
    performed world (reserves "x1" 1)
      (performed world (activates 1 options) (created plan (some "key")) activated) dispatched)

abbrev spare : Attempt
spare = record {
  attempt_id = "";
  revision = 0;
  task_id = "";
  attempt_number = 0;
  run_id = none;
  status = AttemptStatus.reserved;
  admission_key = "";
  request = dispatch_request (task "a" [] "read") options.settings "";
  state = IntentState.pending;
  profile = none;
  input_snapshot = none;
}

abbrev attempt_of : Result OrderError (Order × Option Attempt) → Attempt
attempt_of (ok (order, some a)) = a
attempt_of _ = spare

abbrev first_attempt : Attempt
first_attempt = attempt_of (reserve_next world "x1" 1 queued_order)

reserve_next-IsDispatched_example :
    IsDispatched world "x1" 1 queued_order running_order first_attempt
unfolding at_revision find_row active_count last_number latest find_attempt find_binding ready_rows
    update_rows set_task_state set_task_retry block_round any_row block_rows refreshed_status
    refresh_order run_for update_attempt sync_run sync_attempt sync_attempts sync insert_attempt
    reserve_row reserve_next save_binding activate_draft activate control reconcile
    record_dispatch_error abandon_unaccepted retry_task perform new_order dispatch_request lookup
    mem
reserve_next-IsDispatched_example =
    reserve_next-IsDispatched world "x1" 1 queued_order running_order first_attempt refl

abbrev row_of : String → TaskStatus → List String → TaskRow
row_of id status deps = record {
  revision = 1;
  task = task id deps "read";
  status = status;
  retry_requested = false;
  execution_revision = 1;
}

-- the row of the last task stands before those it depends on
abbrev spoiled_order : Order
spoiled_order = record queued_order {
  tasks =
      row_of "c" TaskStatus.pending ("b" ∷ [])
      ∷ row_of "b" TaskStatus.pending ("a" ∷ [])
      ∷ row_of "a" TaskStatus.failed []
      ∷ [];
}

refresh_order-settles_example :
    IsKept 1
      (refresh_order spoiled_order).tasks
      (row_of "c" TaskStatus.pending ("b" ∷ []))
      (find_row 1 "c" (refresh_order spoiled_order).tasks)
    × (any_row
          (gets_blocked 1 (refresh_order spoiled_order).tasks)
          (refresh_order spoiled_order).tasks
        ≡ false)
unfolding find_row perform activate at_revision new_order activate_draft
refresh_order-settles_example =
    refresh_order-settles spoiled_order "c" (row_of "c" TaskStatus.pending ("b" ∷ [])) refl

blocked_behind :
    map (λ t. t.status) (refresh_order spoiled_order).tasks
    ≡ TaskStatus.blocked ∷ TaskStatus.blocked ∷ TaskStatus.failed ∷ []
unfolding refresh_order block_rows any_row perform activate at_revision new_order activate_draft
    find_row block_round update_rows
blocked_behind = refl

abbrev cancelled_order : Order
cancelled_order = order_of (perform world (controls cancel 1) running_order)

cancelled_running : perform world (controls cancel 1) running_order ≡ ok cancelled_order
unfolding at_revision find_row active_count last_number latest find_attempt find_binding ready_rows
    update_rows set_task_state set_task_retry block_round any_row block_rows refreshed_status
    refresh_order run_for update_attempt sync_run sync_attempt sync_attempts sync insert_attempt
    reserve_row reserve_next save_binding activate_draft activate control reconcile
    record_dispatch_error abandon_unaccepted retry_task perform new_order dispatch_request lookup
    mem
cancelled_running = refl

perform-moves_example : moves running_order.status cancelled_order.status ≡ true
perform-moves_example =
    perform-moves world (controls cancel 1) running_order cancelled_order cancelled_running

perform-cancelled_example :
    (cancelled_order.status ≡ OrderStatus.cancelled)
    × (length cancelled_order.attempts ≡ length cancelled_order.attempts)
unfolding at_revision find_row active_count last_number latest find_attempt find_binding ready_rows
    update_rows set_task_state set_task_retry block_round any_row block_rows refreshed_status
    refresh_order run_for update_attempt sync_run sync_attempt sync_attempts sync insert_attempt
    reserve_row reserve_next save_binding activate_draft activate control reconcile
    record_dispatch_error abandon_unaccepted retry_task perform new_order dispatch_request lookup
    mem
perform-cancelled_example =
    perform-cancelled world reconciles cancelled_order cancelled_order refl refl

abbrev other_plan : WorkOrderPlan
other_plan = record { title = "one step"; tasks = task "a" [] "read" ∷ [] }

abbrev replaced_order : Order
replaced_order = replaced 2 other_plan draft_order

edit-stale_example : perform world (activates 1 options) replaced_order ≢ ok queued_order
unfolding perform replace_draft_plan insert_plan revalidate payload dependency_ids dependency_list
    dispatch_request identifier is_task_id kahn one_of optional_text plan_from_payload plan_task
    plan_tasks read_plan text topological_order lookup distinct mem lstrip rstrip rstrip_cons strip
    new_order
edit-stale_example =
    edit-stale world world (replaces other_plan 1) (activates 1 options) draft_order replaced_order
      replaced_order queued_order refl refl now refl

abbrev run : Attempt → Status → Bool → Run
run a status lease = record {
  run_id = "r1";
  thread_id = "t";
  status = status;
  mode = "graph";
  idempotency_key = some a.admission_key;
  request = record {
    canonical = "{}";
    prompt = "do it";
    headline = "do it";
    conversation_id = none;
    profile_id = none;
    context = none;
  };
  answer = "";
  error = "";
  interrupts = [];
  fallback = false;
  created_at = 0;
  updated_at = 0;
  started_at = none;
  finished_at = none;
  conversation_id = none;
  profile_snapshot = "";
  lease_active = lease;
  write_scope = false;
  input_snapshot = none;
  cancel_requested = false;
}

-- A service that admits each request as a queued run.
abbrev service : Service
service = record {
  available = true;
  create_run = λ request runs. (returned, run first_attempt Status.queued false ∷ runs);
  cancel_run = λ id runs. some runs;
  canonical = λ r. "{}";
  resolve = λ v. ok "snapshot";
  bind = λ row snapshot. ok snapshot;
}

-- one whose admissions break
abbrev breaking : Service
breaking = with_create_run (λ request runs. (broken, runs)) service

step-abandoned_count_example :
    abandoned_count (step breaking "x1" queued_order []).order.attempts
    ≤ abandoned_count queued_order.attempts
unfolding perform activate at_revision new_order activate_draft
step-abandoned_count_example =
    step-abandoned_count breaking "x1" queued_order [] (λ request runs e. ground (arith, e)) refl

-- one that has no room
abbrev away : Service
away = record service { available = false }

step-with_create_run_example :
    step (with_create_run (λ request runs. (broken, runs)) away) "x1" queued_order []
    ≡ step away "x1" queued_order []
unfolding perform activate at_revision new_order activate_draft
step-with_create_run_example =
    step-with_create_run (λ request runs. (broken, runs)) away "x1" queued_order [] refl

abbrev status_of : List Attempt → List AttemptStatus
status_of xs = map (λ a. a.status) xs

accepted_by_step :
    status_of (step service "x1" queued_order []).order.attempts ≡ AttemptStatus.accepted ∷ []
unfolding at_revision find_row active_count last_number latest find_attempt find_binding ready_rows
    update_rows set_task_state set_task_retry block_round any_row block_rows refreshed_status
    refresh_order run_for update_attempt sync_run sync_attempt sync_attempts sync insert_attempt
    reserve_row reserve_next save_binding activate_draft activate control reconcile
    record_dispatch_error abandon_unaccepted retry_task perform new_order dispatch_request lookup
    mem pending_intents has_attempt admit cancel_runs abandon_intents cancel_order step
accepted_by_step = refl

cancel_order-settles_example : pending_intents (cancel_order service cancelled_order []).order ≡ []
unfolding at_revision find_row active_count last_number latest find_attempt find_binding ready_rows
    update_rows set_task_state set_task_retry block_round any_row block_rows refreshed_status
    refresh_order run_for update_attempt sync_run sync_attempt sync_attempts sync insert_attempt
    reserve_row reserve_next save_binding activate_draft activate control reconcile
    record_dispatch_error abandon_unaccepted retry_task perform new_order dispatch_request lookup
    mem pending_intents has_attempt admit cancel_runs abandon_intents cancel_order step
cancel_order-settles_example = cancel_order-settles service cancelled_order [] [] refl refl

abbrev one_order : List (String × Order)
one_order = ("o1", new_order plan (some "key")) ∷ []

create-same_key_example : create plan (some "key") "o2" one_order ≡ ok (("o1", false), one_order)
unfolding create find_key revalidate payload dependency_ids dependency_list dispatch_request
    identifier is_task_id kahn one_of optional_text plan_from_payload plan_task plan_tasks read_plan
    text topological_order lookup distinct mem lstrip rstrip rstrip_cons strip new_order
create-same_key_example = create-same_key plan "key" "o1" "o2" "o1" true [] one_order refl
