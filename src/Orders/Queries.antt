-- ===== src/Orders/Queries.antt =====
-- The statements that find rows: `_order`, `_ready`, the numbers and the latest of attempts.
use doppel_agent.Prelude.{
  ℕ, suc, String, Bool, false, not, ◌&&◌, List, [], ◌∷◌, Option, none, some, str_eq, ◌==◌, ltb, leb,
  if◌then◌else◌, Result, guard, ◌>>◌, all, keep,
}
use doppel_agent.Orders.Tables.{
  TaskRow, Attempt, Binding, Order, OrderError, invalid_revision, revision_changed, is_active,
  is_pending, is_succeeded, is_open,
}

-- `_order` with an expected revision
unfoldable pub at_revision : ℕ → Order → Result OrderError (Unit {0})
at_revision revision order = do
  guard (leb 1 revision) invalid_revision
  guard (order.active_revision == revision) revision_changed

-- The row of the task `id` in the plan `revision`
unfoldable pub find_row : ℕ → String → List TaskRow → Option TaskRow
find_row revision id [] = none
find_row revision id (t ∷ ts) =
    let later = find_row revision id ts in
    if (t.revision == revision) && str_eq t.task.id id then some t else later

-- how many attempts the index `ix_work_order_active_attempt` holds of the order
unfoldable pub active_count : List Attempt → ℕ
active_count [] = 0
active_count (a ∷ xs) = let rest = active_count xs in if is_active a.status then suc rest else rest

-- Whether an attempt is one of the task `id` under the execution revision.
abbrev pub is_of : ℕ → String → Attempt → Bool
is_of revision id a = (a.revision == revision) && str_eq a.task_id id

-- `COALESCE(MAX(attempt_number),0)`
unfoldable pub last_number : ℕ → String → List Attempt → ℕ
last_number revision id [] = 0
last_number revision id (a ∷ xs) =
    let rest = last_number revision id xs in
    if is_of revision id a && ltb rest a.attempt_number then a.attempt_number else rest

-- `ORDER BY attempt_number DESC LIMIT 1`
unfoldable pub latest : ℕ → String → List Attempt → Option Attempt
latest revision id [] = none
latest revision id (a ∷ xs) =
    let rest = latest revision id xs in
    if is_of revision id a
    then elim rest [
      | none ↦ some a
      | some b ↦ if leb a.attempt_number b.attempt_number then some b else some a
    ]
    else rest

unfoldable pub find_attempt : String → List Attempt → Option Attempt
find_attempt id [] = none
find_attempt id (a ∷ xs) =
    let later = find_attempt id xs in if str_eq a.attempt_id id then some a else later

-- `_context_binding`, without the revision it was first made for
unfoldable pub find_binding : ℕ → List (ℕ × Binding) → Option Binding
find_binding revision [] = none
find_binding revision ((r, b) ∷ rest) =
    let later = find_binding revision rest in if r == revision then some b else later

-- Whether the parent of a dependency keeps its task back: `parent.status!='succeeded'`.
abbrev pub holds_back : Option TaskRow → Bool
holds_back none = false
holds_back (some p) = not (is_succeeded p.status)

abbrev pub is_free : ℕ → List TaskRow → TaskRow → Bool
is_free revision rows t =
    (t.revision == revision)
    && (is_pending t.status
        && all (λ d. not (holds_back (find_row revision d rows))) t.task.dependencies)

-- `_ready`: a plan has at most 64 tasks, so the limit of the query cuts nothing off
unfoldable pub ready_rows : Order → List TaskRow
ready_rows order =
    if is_open order.status && (active_count order.attempts == 0)
    then keep (is_free order.active_revision order.tasks) order.tasks
    else []
