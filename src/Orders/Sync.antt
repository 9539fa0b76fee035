-- ===== src/Orders/Sync.antt =====
-- `_sync`: the attempts take over what has become of their runs.
use doppel_agent.Prelude.{
  String, Bool, true, false, not, ◌&&◌, List, [], ◌∷◌, Option, none, some, str_eq, ltb,
  if◌then◌else◌, Result, ok, guard, ◌>>◌, ◌>>=◌,
}
use doppel_agent.Runs.Tables.{Status, queued, interrupted, completed, interrupted_expired, Run}
use doppel_agent.Orders.Tables.{
  TaskStatus, dispatching, AttemptStatus, accepted, IntentState, admitted, abandoned, TaskRow,
  Attempt, Order, OrderError, request_differs, profile_or_scope_changed, input_changed, reappeared,
  integrity, World,
}
use doppel_agent.Orders.Queries.{find_row, active_count, latest}
use doppel_agent.Orders.States.{set_task_state, refresh_order}

abbrev same_optional : Option String → Option String → Bool
same_optional none none = true
same_optional (some a) (some b) = str_eq a b
same_optional _ _ = false

-- `LEFT JOIN runtime_runs r ON r.idempotency_key=i.admission_key`
unfoldable pub run_for : String → List Run → Option Run
run_for key [] = none
run_for key (r ∷ rs) =
    let later = run_for key rs in
    if same_optional r.idempotency_key (some key) then some r else later

-- What a run says of its attempt and of its task. A run that has ended counts as running until its
-- lease is drained.
abbrev pub outcome : Status → Bool → AttemptStatus × TaskStatus
outcome queued lease = (accepted, dispatching)
outcome Status.running lease = (AttemptStatus.running, TaskStatus.running)
outcome interrupted lease = (AttemptStatus.awaiting_approval, TaskStatus.awaiting_approval)
outcome completed false = (AttemptStatus.succeeded, TaskStatus.succeeded)
outcome Status.failed false = (AttemptStatus.failed, TaskStatus.failed)
outcome Status.cancelled false = (AttemptStatus.cancelled, TaskStatus.cancelled)
outcome interrupted_expired false = (AttemptStatus.failed, TaskStatus.failed)
outcome _ true = (AttemptStatus.running, TaskStatus.running)

abbrev pub is_abandoned : IntentState → Bool
is_abandoned abandoned = true
is_abandoned _ = false

-- a frozen profile must be the one of the run, with write scope for write access alone
abbrev keeps_profile : Option String → String → Run → Bool
keeps_profile none access run = true
keeps_profile (some frozen) access run =
    str_eq run.profile_snapshot frozen
    && (if str_eq access "write" then run.write_scope else not run.write_scope)

unfoldable pub update_attempt : String → (Attempt → Attempt) → List Attempt → List Attempt
update_attempt id f [] = []
update_attempt id f (a ∷ xs) = (if str_eq a.attempt_id id then f a else a) ∷ update_attempt id f xs

abbrev pub settled : Run → Attempt → Attempt
settled run a = record a {
  state = admitted;
  run_id = some run.run_id;
  status = (outcome run.status run.lease_active).0;
}

abbrev is_named : String → Option Attempt → Bool
is_named id none = false
is_named id (some a) = str_eq a.attempt_id id

-- The writes of one round: the task follows its latest attempt only.
abbrev pub settle_attempt : Run → Attempt → Order → Order
settle_attempt run a order = record order {
  attempts = update_attempt a.attempt_id (settled run) order.attempts;
  tasks =
      if is_named a.attempt_id (latest a.revision a.task_id order.attempts)
      then set_task_state a.revision a.task_id (outcome run.status run.lease_active).1 order.tasks
      else order.tasks;
}

-- One row of the loop, whose attempt has a run; the unique index of active attempts is kept.
unfoldable pub sync_run : World → Attempt → TaskRow → Run → Order → Result OrderError Order
sync_run world a row run order = do
  guard (str_eq run.request.canonical (world.canonical a.request)) request_differs
  guard (keeps_profile a.profile row.task.access run) profile_or_scope_changed
  guard (same_optional a.input_snapshot run.input_snapshot) input_changed
  guard (not (is_abandoned a.state)) reappeared
  guard (not (ltb 1 (active_count (settle_attempt run a order).attempts))) integrity
  ok (settle_attempt run a order)

-- One row of the loop: an attempt without its task row is not joined, one without a run waits on.
unfoldable pub sync_attempt : World → Attempt → Order → Result OrderError Order
sync_attempt world a order = elim (find_row a.revision a.task_id order.tasks) [
  | none ↦ ok order
  | some row ↦ elim (run_for a.admission_key world.runs) [
    | none ↦ ok order
    | some run ↦ sync_run world a row run order
  ]
]

unfoldable pub sync_attempts : World → List Attempt → Order → Result OrderError Order
sync_attempts world [] order = ok order
sync_attempts world (a ∷ xs) order =
    sync_attempt world a order >>= λ after. sync_attempts world xs after

-- `_sync`
unfoldable pub sync : World → Order → Result OrderError Order
sync world order = sync_attempts world order.attempts order >>= λ after. ok (refresh_order after)
