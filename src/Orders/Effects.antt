-- ===== src/Orders/Effects.antt =====
-- The order that each operation leaves, where it returns.
use doppel_agent.Prelude.{
  ℕ, suc, String, ◌≡◌, refl, Bool, true, false, not, ◌&&◌, List, [], ◌∷◌, Option, none, some, arith,
  str_eq, ◌==◌, leb, if◌then◌else◌, ok, err, >>=-eq-ok, guard-eq-ok, inl, inr, ◌⊎◌, Bool-cases,
}
use doppel_agent.Plans.{WorkOrderPlan}
use doppel_agent.Orders.Tables.{
  OrderStatus, draft, IntentState, TaskRow, Attempt, Binding, Execution, Order, OrderError, World,
  same_order_status, not_unstarted_draft, invalid_revision, revision_changed, not_stopped,
  still_draining, terminal_order, draft_context, started_changed, not_settled,
}
use doppel_agent.Orders.Queries.{
  at_revision, active_count, ready_rows, find_row, latest, find_attempt, find_binding,
}
use doppel_agent.Orders.States.{refresh_order}
use doppel_agent.Orders.Sync.{sync}
use doppel_agent.Orders.Reserve.{reserve_first, reserve_next}
use doppel_agent.Orders.Control.{
  resolve_context, activated, activate_draft, activate, Action, controlled, controlled_order,
  apply_control, control, abandon_attempt, abandon_found, present_attempt, abandon_unaccepted,
  retried, retry_row, retry_check, retry_task, is_stopped,
}
use doppel_agent.Orders.Revise.{
  Changes, revalidate, rebound, reprofiled, old_tasks, find_plan, keeps_started, is_terminal,
  is_given, revised, revise_synced, revise_plan, no_attempts, replaced, replace_draft_plan,
}
use doppel_agent.Orders.Synced.{synced-eq-ok}
use doppel_agent.Orders.Reserved.{IsReserved, reserve_row-IsReserved}

at_revision-eq-ok :
    (revision : ℕ) (order : Order) (u : Unit {0})
    → at_revision revision order ≡ ok u
    → order.active_revision ≡ revision
unfolding at_revision
at_revision-eq-ok revision order u h = ground (arith, h)

pub activate-effect :
    (world : World) (revision : ℕ) (options : Execution) (order after : Order)
    → activate world revision options order ≡ ok after
    → (order.active_revision ≡ revision)
      × ((after ≡ order)
          ⊎ ((snapshot : Option String) × (same_order_status order.status draft ≡ true)
              × (after ≡ activated revision options snapshot order)))
unfolding activate activate_draft
activate-effect world revision options order after h =
    let first = >>=-eq-ok (at_revision revision order) _ h in
    (
      at_revision-eq-ok revision order first.0 first.1,
      by_status (Bool-cases (same_order_status order.status draft)) first.2,
    )
  where
    by_status :
        ((same_order_status order.status draft ≡ true)
          ⊎ (same_order_status order.status draft ≡ false))
        → (if same_order_status order.status draft
            then activate_draft world revision options order
            else if str_eq order.execution.json options.json
            then ok order
            else err OrderError.not_draft)
          ≡ ok after
        → (after ≡ order)
          ⊎ ((snapshot : Option String) × (same_order_status order.status draft ≡ true)
              × (after ≡ activated revision options snapshot order))
    by_status (inl d) k =
        let drafted : activate_draft world revision options order ≡ ok after =
          ground (arith, d, k) in
        let q = >>=-eq-ok (resolve_context world options.settings.context) _ drafted in
        inr (q.0, d, ground (arith, q.2))
    by_status (inr d) k = inl (ground (arith, d, k))

pub control-effect :
    (world : World) (action : Action) (revision : ℕ) (order after : Order)
    → control world action revision order ≡ ok after
    → (s : Order) × (status : OrderStatus) × (order.active_revision ≡ revision)
      × (sync world order ≡ ok s)
      × (controlled action s.status ≡ some status)
      × (after ≡ apply_control action revision status s)
unfolding control
control-effect world action revision order after h =
    let r =
      synced-eq-ok world revision order
        (λ s. controlled_order action revision s (controlled action s.status)) h in
    let q = by_status r.0 (controlled action r.0.status) r.2 in (r.0, q.0, r.3, r.1, q.1, q.2)
  where
    by_status :
        (s : Order) (o : Option OrderStatus)
        → controlled_order action revision s o ≡ ok after
        → (status : OrderStatus) × (o ≡ some status)
          × (after ≡ apply_control action revision status s)
    by_status s none k = absurd (ground (arith, k))
    by_status s (some status) k = (status, refl, ground (arith, k))

pub reserve_next-effect :
    (world : World) (id : String) (revision : ℕ) (order : Order) (r : Order × Option Attempt)
    → reserve_next world id revision order ≡ ok r
    → (s : Order) × (order.active_revision ≡ revision)
      × (sync world order ≡ ok s)
      × ((r ≡ (s, none))
          ⊎ ((row : TaskRow) × (rows : List TaskRow) × (ready_rows s ≡ row ∷ rows)
              × IsReserved world id row s r))
unfolding reserve_next
reserve_next-effect world id revision order r h =
    let q = synced-eq-ok world revision order (λ s. reserve_first world id (ready_rows s) s) h in
    (q.0, q.3, q.1, by_rows q.0 (ready_rows q.0) q.2 refl)
  where
    by_rows :
        (s : Order) (rows : List TaskRow)
        → reserve_first world id rows s ≡ ok r
        → ready_rows s ≡ rows
        → (r ≡ (s, none))
          ⊎ ((row : TaskRow) × (rest : List TaskRow) × (ready_rows s ≡ row ∷ rest)
              × IsReserved world id row s r)
    by_rows s [] k e = inl (ground (arith, k))
    by_rows s (row ∷ rows) k e = inr (row, rows, e, reserve_row-IsReserved world id row s r k)

pub abandon-effect :
    (world : World) (id : String) (settled : Bool) (order after : Order)
    → abandon_unaccepted world id settled order ≡ ok after
    → (s : Order) × (a : Attempt) × (sync world order ≡ ok s)
      × (find_attempt id s.attempts ≡ some a)
      × (a.state ≡ IntentState.pending)
      × (after ≡ refresh_order (abandon_attempt a s))
unfolding abandon_unaccepted
abandon-effect world id settled order after h =
    let first = guard-eq-ok settled not_settled _ h in
    let second = >>=-eq-ok (present_attempt (find_attempt id order.attempts)) _ first.1 in
    let third = >>=-eq-ok (sync world order) _ second.2 in
    let q = by_found third.0 (find_attempt id third.0.attempts) third.2 in
    (third.0, q.0, third.1, q.1, q.2, q.3)
  where
    by_state :
        (s : Order) (a : Attempt) (state : IntentState)
        → a.state ≡ state
        → abandon_found (some a) s ≡ ok after
        → (a.state ≡ IntentState.pending) × (after ≡ refresh_order (abandon_attempt a s))
    by_state s a IntentState.pending e k = (e, ground (arith, e, k))
    by_state s a IntentState.admitted e k = absurd (ground (arith, e, k))
    by_state s a IntentState.abandoned e k = absurd (ground (arith, e, k))

    by_found :
        (s : Order) (o : Option Attempt)
        → abandon_found o s ≡ ok after
        → (a : Attempt) × (o ≡ some a)
          × (a.state ≡ IntentState.pending)
          × (after ≡ refresh_order (abandon_attempt a s))
    by_found s none k = absurd (ground (arith, k))
    by_found s (some a) k = let q = by_state s a a.state refl k in (a, refl, q.0, q.1)

pub retry_task-effect :
    (world : World) (id : String) (revision : ℕ) (expected : String) (order after : Order)
    → retry_task world id revision expected order ≡ ok after
    → (s : Order) × (row : TaskRow) × (order.active_revision ≡ revision)
      × (sync world order ≡ ok s)
      × (is_stopped s.status ≡ true)
      × (active_count s.attempts ≡ 0)
      × (find_row revision id s.tasks ≡ some row)
      × (after ≡ refresh_order (retried revision row s))
unfolding retry_task
retry_task-effect world id revision expected order after h =
    let q = synced-eq-ok world revision order _ h in
    let first = guard-eq-ok (is_stopped q.0.status) not_stopped _ q.2 in
    let second = guard-eq-ok (active_count q.0.attempts == 0) still_draining _ first.1 in
    let w = by_row q.0 (find_row revision id q.0.tasks) second.1 in
    (q.0, w.0, q.3, q.1, first.0, ground (arith, second.0), w.1, w.2)
  where
    by_row :
        (s : Order) (o : Option TaskRow)
        → retry_row expected revision o s ≡ ok after
        → (row : TaskRow) × (o ≡ some row) × (after ≡ refresh_order (retried revision row s))
    by_row s none k = absurd (ground (arith, k))
    by_row s (some row) k =
        let q =
          >>=-eq-ok (retry_check expected (latest row.execution_revision row.task.id s.attempts)) _
            k in
        (row, refl, ground (arith, q.2))

pub replace-effect :
    (new : WorkOrderPlan) (expected : ℕ) (order after : Order)
    → replace_draft_plan new expected order ≡ ok after
    → (plan : WorkOrderPlan) × (order.active_revision ≡ expected)
      × (same_order_status order.status draft ≡ true)
      × (no_attempts order.attempts ≡ true)
      × (after ≡ replaced (suc expected) plan order)
unfolding replace_draft_plan
replace-effect new expected order after h =
    let first = guard-eq-ok (leb 1 expected) invalid_revision _ h in
    let second = >>=-eq-ok (revalidate new) _ first.1 in
    let third = guard-eq-ok (order.active_revision == expected) revision_changed _ second.2 in
    let fourth =
      guard-eq-ok (same_order_status order.status draft && no_attempts order.attempts)
        not_unstarted_draft _ third.1 in
    (
      second.0,
      ground (arith, third.0),
      ground (arith, fourth.0),
      ground (arith, fourth.0),
      ground (arith, fourth.1),
    )

pub revise-effect :
    (world : World) (new : WorkOrderPlan) (changes : Changes) (expected : ℕ) (order after : Order)
    → revise_plan world new changes expected order ≡ ok after
    → (s : Order) × (plan : WorkOrderPlan) × (execution : Execution) × (b : Binding)
      × (order.active_revision ≡ expected)
      × (sync world order ≡ ok s)
      × (is_terminal s.status ≡ false)
      × (after ≡ refresh_order (revised expected plan execution b s))
unfolding revise_plan revise_synced
revise-effect world new changes expected order after h =
    let first = >>=-eq-ok (revalidate new) _ h in
    let q = synced-eq-ok world expected order _ first.2 in
    let s = q.0 in
    let second = guard-eq-ok (not (is_terminal s.status)) terminal_order _ q.2 in
    let third =
      guard-eq-ok (not (is_given changes.context && same_order_status s.status draft)) draft_context
        _ second.1 in
    let fourth =
      >>=-eq-ok (rebound world changes (find_binding expected s.contexts) s.execution) _ third.1 in
    let fifth = >>=-eq-ok (reprofiled changes fourth.0.0) _ fourth.2 in
    let sixth = >>=-eq-ok (old_tasks (find_plan expected s.plans)) _ fifth.2 in
    let seventh =
      guard-eq-ok (keeps_started s.attempts sixth.0 first.0.tasks) started_changed _ sixth.2 in
    (s, first.0, fifth.0, fourth.0.1, q.3, q.1, ground (arith, second.0), ground (arith, seventh.1))
