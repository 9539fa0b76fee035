-- ===== src/Orders/States.antt =====
-- `_set_task_state` and `_refresh_order`.
use doppel_agent.Prelude.{
  ℕ, zero, suc, String, Bool, false, not, ◌&&◌, ◌||◌, List, [], ◌∷◌, Option, none, some, str_eq,
  ◌==◌, if◌then◌else◌, length, all,
}
use doppel_agent.Orders.Tables.{
  OrderStatus, draft, paused, TaskStatus, blocked, TaskRow, Order, is_pending, is_blocked,
  is_succeeded, is_lost,
}
use doppel_agent.Orders.Queries.{find_row}

-- The projections of one execution definition in the plans that carry it.
abbrev pub projects : ℕ → String → TaskRow → Bool
projects execution id t = (t.execution_revision == execution) && str_eq t.task.id id

-- `UPDATE work_order_tasks ... WHERE` the test holds
unfoldable pub update_rows : (TaskRow → Bool) → (TaskRow → TaskRow) → List TaskRow → List TaskRow
update_rows test f [] = []
update_rows test f (t ∷ ts) = (if test t then f t else t) ∷ update_rows test f ts

-- `_set_task_state` without `retry_requested`: a task that waits for its retry keeps its status.
unfoldable pub set_task_state : ℕ → String → TaskStatus → List TaskRow → List TaskRow
set_task_state execution id status =
    update_rows (λ t. projects execution id t && not t.retry_requested)
      (λ t. record t { status = status })

-- `_set_task_state` with `retry_requested`
unfoldable pub set_task_retry : ℕ → String → TaskStatus → Bool → List TaskRow → List TaskRow
set_task_retry execution id status requested =
    update_rows (projects execution id)
      (λ t. record t { status = status; retry_requested = requested })

abbrev pub spoils : Option TaskRow → Bool
spoils none = false
spoils (some p) = is_lost p.status || is_blocked p.status

-- Whether the round of the propagation blocks the row.
abbrev pub gets_blocked : ℕ → List TaskRow → TaskRow → Bool
gets_blocked revision rows t =
    (t.revision == revision)
    && (is_pending t.status
        && not (all (λ d. not (spoils (find_row revision d rows))) t.task.dependencies))

abbrev pub block : TaskRow → TaskRow
block t = record t { status = blocked }

-- One statement of the loop of `_refresh_order`
unfoldable pub block_round : ℕ → List TaskRow → List TaskRow
block_round revision rows = update_rows (gets_blocked revision rows) block rows

-- `rowcount` of the statement is not zero
unfoldable pub any_row : (TaskRow → Bool) → List TaskRow → Bool
any_row test [] = false
any_row test (t ∷ ts) = test t || any_row test ts

-- The loop. It stops for want of fuel only where a further round would change a row.
unfoldable pub block_rows : ℕ → ℕ → List TaskRow → List TaskRow
block_rows zero revision rows = rows
block_rows (suc fuel) revision rows =
    let rest = block_rows fuel revision (block_round revision rows) in
    if any_row (gets_blocked revision rows) rows then rest else rows

-- Whether the row belongs to another plan or passes the test on its status.
abbrev pub within_plan : ℕ → (TaskStatus → Bool) → TaskRow → Bool
within_plan revision test t = not (t.revision == revision) || test t.status

abbrev pub lost_at : ℕ → TaskRow → Bool
lost_at revision t = (t.revision == revision) && is_lost t.status

-- the status that `_refresh_order` gives an order for the rows of its active plan
unfoldable pub refreshed_status : OrderStatus → ℕ → List TaskRow → OrderStatus
refreshed_status draft revision rows = draft
refreshed_status OrderStatus.cancelled revision rows = OrderStatus.cancelled
refreshed_status status revision rows =
    if all (within_plan revision is_succeeded) rows
    then OrderStatus.succeeded
    else if any_row (lost_at revision) rows
    then (elim status [ paused ↦ paused | _ ↦ OrderStatus.failed ])
    else status

-- Each round but the last blocks a row, so one round for each row and one more are enough.
abbrev pub blocked_rows : Order → List TaskRow
blocked_rows order = block_rows (suc (length order.tasks)) order.active_revision order.tasks

-- `_refresh_order`
unfoldable pub refresh_order : Order → Order
refresh_order order = record order {
  tasks = blocked_rows order;
  status = refreshed_status order.status order.active_revision (blocked_rows order);
}
