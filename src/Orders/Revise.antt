-- ===== src/Orders/Revise.antt =====
-- `create`, `_insert_plan`, `replace_draft_plan` and `revise_plan`.
use doppel_agent.Prelude.{
  ℕ, suc, String, Bool, true, false, not, ◌&&◌, ◌||◌, List, [], ◌∷◌, ◌++◌, map, Option, none, some,
  str_eq, ◌==◌, leb, if◌then◌else◌, all, lookup, Result, ok, err, guard, ◌>>◌, ◌>>=◌,
}
use doppel_agent.Py.{Value, none_value, str, tuple, dict, end, field, Items, nil, cons}
use doppel_agent.Plans.{PlanTask, WorkOrderPlan, PlanError, plan_from_payload, no_permissions}
use doppel_agent.Orders.Tables.{
  OrderStatus, draft, paused, TaskStatus, TaskRow, Attempt, Binding, Execution, Order, OrderError,
  invalid_plan, plan_check_unfinished, not_unstarted_draft, invalid_revision, revision_changed,
  terminal_order, draft_context, frozen_profiles, started_changed, World, same_order_status,
}
use doppel_agent.Orders.Queries.{at_revision, find_row, find_binding}
use doppel_agent.Orders.States.{refresh_order}
use doppel_agent.Orders.Sync.{sync}
use doppel_agent.Orders.Control.{resolve_context, save_binding}

abbrev str_items : List String → Items
str_items [] = nil
str_items (s ∷ ss) = cons (str s) (str_items ss)

abbrev optional_str : Option String → Value
optional_str none = none_value
optional_str (some s) = str s

abbrev task_payload : PlanTask → Value
task_payload t = dict (
    field "id" (str t.id) (
      field "title" (str t.title) (
        field "prompt" (str t.prompt) (
          field "dependencies" (tuple (str_items t.dependencies)) (
            field "access" (str t.access)
              (field "mode" (str t.mode) (field "profile_id" (optional_str t.profile_id) end)))))))

abbrev task_payloads : List PlanTask → Items
task_payloads [] = nil
task_payloads (t ∷ ts) = cons (task_payload t) (task_payloads ts)

-- `plan.payload()`
unfoldable pub payload : WorkOrderPlan → Value
payload plan =
    dict (field "title" (str plan.title) (field "tasks" (tuple (task_payloads plan.tasks)) end))

abbrev checked_plan : Option (Result PlanError WorkOrderPlan) → Result OrderError WorkOrderPlan
checked_plan none = err plan_check_unfinished
checked_plan (some (err e)) = err (invalid_plan e)
checked_plan (some (ok plan)) = ok plan

-- `plan_from_payload(plan.payload())`
unfoldable pub revalidate : WorkOrderPlan → Result OrderError WorkOrderPlan
revalidate plan = checked_plan (plan_from_payload (payload plan))

abbrev pub same_strings : List String → List String → Bool
same_strings [] [] = true
same_strings (x ∷ xs) (y ∷ ys) = str_eq x y && same_strings xs ys
same_strings _ _ = false

abbrev pub same_profile : Option String → Option String → Bool
same_profile none none = true
same_profile (some a) (some b) = str_eq a b
same_profile _ _ = false

-- `==` of the dataclass
abbrev pub same_task : PlanTask → PlanTask → Bool
same_task a b =
    str_eq a.id b.id
    && (str_eq a.title b.title
        && (str_eq a.prompt b.prompt
            && (same_strings a.dependencies b.dependencies
                && (str_eq a.access b.access
                    && (str_eq a.mode b.mode && same_profile a.profile_id b.profile_id)))))

abbrev pub same_tasks : List PlanTask → List PlanTask → Bool
same_tasks [] [] = true
same_tasks (a ∷ xs) (b ∷ ys) = same_task a b && same_tasks xs ys
same_tasks _ _ = false

-- `request_json != encoded`
abbrev pub same_plan : WorkOrderPlan → WorkOrderPlan → Bool
same_plan a b = str_eq a.title b.title && same_tasks a.tasks b.tasks

abbrev pub new_row : ℕ → PlanTask → TaskRow
new_row revision t = record {
  revision = revision;
  task = t;
  status = TaskStatus.pending;
  retry_requested = false;
  execution_revision = revision;
}

-- `_insert_plan`, on the rows of the tasks
abbrev pub plan_rows : ℕ → List PlanTask → List TaskRow
plan_rows revision ts = map (new_row revision) ts

-- `_insert_plan`
unfoldable pub insert_plan : ℕ → WorkOrderPlan → Order → Order
insert_plan revision plan order = record order {
  plans = order.plans ++ ((revision, plan) ∷ []);
  tasks = order.tasks ++ plan_rows revision plan.tasks;
}

abbrev no_execution : Execution
no_execution = record {
  settings = record {
    permissions = no_permissions;
    profile = none;
    effort = "balanced";
    deadline_seconds = 600;
    context = none;
  };
  profiles = [];
  json = "{}";
}

-- The rows that `create` inserts for a validated plan. The settings `{}` of a draft stand for what
-- `execution_settings` reads from them.
unfoldable pub new_order : WorkOrderPlan → Option String → Order
new_order plan key = record {
  title = plan.title;
  status = draft;
  active_revision = 1;
  idempotency_key = key;
  request = plan;
  execution = no_execution;
  dispatch_error = "";
  plans = (1, plan) ∷ [];
  tasks = plan_rows 1 plan.tasks;
  contexts = [];
  attempts = [];
}

abbrev pub no_attempts : List Attempt → Bool
no_attempts [] = true
no_attempts (a ∷ xs) = false

abbrev pub replaced : ℕ → WorkOrderPlan → Order → Order
replaced revision plan order = record (insert_plan revision plan order) {
  title = plan.title;
  active_revision = revision;
}

-- `replace_draft_plan`
unfoldable pub replace_draft_plan : WorkOrderPlan → ℕ → Order → Result OrderError Order
replace_draft_plan new expected order = do
  guard (leb 1 expected) invalid_revision
  plan ← revalidate new
  guard (order.active_revision == expected) revision_changed
  guard (same_order_status order.status draft && no_attempts order.attempts) not_unstarted_draft
  ok (replaced (suc expected) plan order)

abbrev pub find_definition : String → List PlanTask → Option PlanTask
find_definition id [] = none
find_definition id (t ∷ ts) =
    let later = find_definition id ts in if str_eq t.id id then some t else later

abbrev same_definition : Option PlanTask → Option PlanTask → Bool
same_definition (some a) (some b) = same_task a b
same_definition _ _ = false

-- Whether the definition of every task with an attempt is in the new plan as it was.
unfoldable pub keeps_started : List Attempt → List PlanTask → List PlanTask → Bool
keeps_started [] old new = true
keeps_started (a ∷ xs) old new =
    same_definition (find_definition a.task_id new) (find_definition a.task_id old)
    && keeps_started xs old new

abbrev pub is_started : List Attempt → String → Bool
is_started [] id = false
is_started (a ∷ xs) id = str_eq a.task_id id || is_started xs id

-- The new row of a started task takes over execution revision, status and retry from the old one.
abbrev carried_from : Option TaskRow → TaskRow → TaskRow
carried_from none new = new
carried_from (some old) new = record new {
  status = old.status;
  retry_requested = old.retry_requested;
  execution_revision = old.execution_revision;
}

abbrev pub carried : ℕ → Order → TaskRow → TaskRow
carried expected order new =
    if is_started order.attempts new.task.id
    then carried_from (find_row expected new.task.id order.tasks) new
    else new

-- The optional parts of a revision: new profiles and a new context, and what `execution_settings`
-- makes of the settings with them.
pub record Changes : Type 0 where
  pub profiles : Option (List (String × String))
  pub context : Option Value
  pub with_context : Execution → Value → Result OrderError Execution
  pub with_profiles : Execution → List (String × String) → Result OrderError Execution

abbrev carried_binding : Option Binding → Binding
carried_binding none = record { descriptor = none; snapshot = none }
carried_binding (some b) = b

unfoldable pub rebound :
    World → Changes → Option Binding → Execution → Result OrderError (Execution × Binding)
rebound world changes old execution = elim changes.context [
  | none ↦ ok (execution, carried_binding old)
  | some context ↦ do
    accepted ← changes.with_context execution context
    snapshot ← resolve_context world accepted.settings.context
    ok (accepted, record { descriptor = accepted.settings.context; snapshot = snapshot })
]

abbrev same_text : Option String → String → Bool
same_text none b = false
same_text (some a) b = str_eq a b

abbrev keeps_profiles : List (String × String) → List (String × String) → Bool
keeps_profiles new old = all (λ p. same_text (lookup p.0 new) p.1) old

unfoldable pub reprofiled : Changes → Execution → Result OrderError Execution
reprofiled changes execution = elim changes.profiles [
  | none ↦ ok execution
  | some profiles ↦
      guard (keeps_profiles profiles execution.profiles) frozen_profiles
      >> changes.with_profiles execution profiles
]

abbrev pub find_plan : ℕ → List (ℕ × WorkOrderPlan) → Option WorkOrderPlan
find_plan revision [] = none
find_plan revision ((r, p) ∷ rest) =
    let later = find_plan revision rest in if r == revision then some p else later

-- the tasks of the plan that is replaced; every revision of an order has a plan
abbrev pub old_tasks : Option WorkOrderPlan → Result OrderError (List PlanTask)
old_tasks none = err revision_changed
old_tasks (some plan) = revalidate plan >>= λ p. ok p.tasks

abbrev pub is_terminal : OrderStatus → Bool
is_terminal OrderStatus.succeeded = true
is_terminal OrderStatus.cancelled = true
is_terminal _ = false

abbrev pub revised_status : OrderStatus → OrderStatus
revised_status draft = draft
revised_status _ = paused

-- the writes of `revise_plan` before the order is refreshed
abbrev pub revised : ℕ → WorkOrderPlan → Execution → Binding → Order → Order
revised expected plan execution b order = record order {
  title = plan.title;
  status = revised_status order.status;
  active_revision = suc expected;
  execution = execution;
  plans = order.plans ++ ((suc expected, plan) ∷ []);
  tasks = order.tasks ++ map (carried expected order) (plan_rows (suc expected) plan.tasks);
  contexts = save_binding (suc expected) b order.contexts;
}

abbrev pub is_given : Option Value → Bool
is_given none = false
is_given (some v) = true

unfoldable pub revise_synced : World → WorkOrderPlan → Changes → ℕ → Order → Result OrderError Order
revise_synced world plan changes expected order = do
  guard (not (is_terminal order.status)) terminal_order
  guard (not (is_given changes.context && same_order_status order.status draft)) draft_context
  (execution, b) ← rebound world changes (find_binding expected order.contexts) order.execution
  final ← reprofiled changes execution
  old ← old_tasks (find_plan expected order.plans)
  guard (keeps_started order.attempts old plan.tasks) started_changed
  ok (refresh_order (revised expected plan final b order))

-- `revise_plan`
unfoldable pub revise_plan : World → WorkOrderPlan → Changes → ℕ → Order → Result OrderError Order
revise_plan world new changes expected order = do
  plan ← revalidate new
  at_revision expected order
  synced ← sync world order
  at_revision expected synced
  revise_synced world plan changes expected synced
