-- ===== src/Orders/Cancelled.antt =====
-- An order that is cancelled dispatches nothing any more.
use doppel_agent.Prelude.{ℕ, String, ◌≡◌, Option, arith, ok, inl, inr, >>=-eq-ok, length}
use doppel_agent.Orders.Tables.{OrderStatus, Attempt, Execution, Order, World}
use doppel_agent.Orders.States.{refresh_order}
use doppel_agent.Orders.Sync.{sync}
use doppel_agent.Orders.Reserve.{reserve_next}
use doppel_agent.Orders.Control.{abandon, record_dispatch_error, reconcile, activate}
use doppel_agent.Orders.Revise.{insert_plan}
use doppel_agent.Orders.Synced.{count_of-update_attempt}
use doppel_agent.Orders.Sound.{abandon-IsUpdate}
use doppel_agent.Orders.Dispatch.{ready_rows-head}
use doppel_agent.Orders.Effects.{
  activate-effect, control-effect, reserve_next-effect, abandon-effect, retry_task-effect,
  replace-effect, revise-effect,
}
use doppel_agent.Orders.Statuses.{sync-settles, perform-moves}
use doppel_agent.Orders.Histories.{
  Operation, activates, controls, reserves, reconciles, records, abandons, retries, replaces,
  revises, perform,
}

sync-cancelled :
    (world : World) (order after : Order)
    → order.status ≡ OrderStatus.cancelled
    → sync world order ≡ ok after
    → after.status ≡ OrderStatus.cancelled
sync-cancelled world order after c h = ground (arith, c, (sync-settles world order after h).0)

reserved-attempts :
    (world : World) (id : String) (revision : ℕ) (order : Order) (r : Order × Option Attempt)
    → order.status ≡ OrderStatus.cancelled
    → reserve_next world id revision order ≡ ok r
    → length r.0.attempts ≡ length order.attempts
reserved-attempts world id revision order r c h =
    let q = reserve_next-effect world id revision order r h in
    elim q.3 [
      | inl same ↦ ground (arith, same, (sync-settles world order q.0 q.2).1)
      | inr (row, rows, ready, made) ↦ absurd (
          ground
            (arith, sync-cancelled world order q.0 c q.2, (ready_rows-head q.0 row rows ready).0))
    ]

activated-attempts :
    (world : World) (revision : ℕ) (options : Execution) (order after : Order)
    → activate world revision options order ≡ ok after
    → length after.attempts ≡ length order.attempts
activated-attempts world revision options order after h =
    elim (activate-effect world revision options order after h).1 [
      | inl same ↦ ground (arith, same)
      | inr (snapshot, d, made) ↦ ground (arith, made)
    ]

perform-attempts :
    (world : World) (operation : Operation) (order after : Order)
    → order.status ≡ OrderStatus.cancelled
    → perform world operation order ≡ ok after
    → length after.attempts ≡ length order.attempts
unfolding perform reconcile record_dispatch_error refresh_order insert_plan
perform-attempts world (activates revision options) order after c h =
    activated-attempts world revision options order after h
perform-attempts world (controls action revision) order after c h =
    let q = control-effect world action revision order after h in
    ground (arith, q.5, (sync-settles world order q.0 q.3).1)
perform-attempts world (reserves attempt revision) order after c h =
    let q = >>=-eq-ok (reserve_next world attempt revision order) (λ r. ok r.0) h in
    ground (arith, q.2, reserved-attempts world attempt revision order q.0 c q.1)
perform-attempts world reconciles order after c h = (sync-settles world order after h).1
perform-attempts world (records code) order after c h = ground (arith, h)
perform-attempts world (abandons attempt settled) order after c h =
    let q = abandon-effect world attempt settled order after h in
    ground (
      arith,
      q.5,
      (count_of-update_attempt 0 "" q.1.attempt_id (abandon q.0.status) q.0.attempts
          (abandon-IsUpdate q.0.status)).2,
      (sync-settles world order q.0 q.2).1,
    )
perform-attempts world (retries task revision expected) order after c h =
    let q = retry_task-effect world task revision expected order after h in
    ground (arith, q.7, (sync-settles world order q.0 q.3).1)
perform-attempts world (replaces plan revision) order after c h =
    let q = replace-effect plan revision order after h in ground (arith, q.4)
perform-attempts world (revises plan changes revision) order after c h =
    let q = revise-effect world plan changes revision order after h in
    ground (arith, q.7, (sync-settles world order q.0 q.5).1)

-- Whatever operation returns on a cancelled order, the order stays cancelled and gets no attempt.
pub perform-cancelled :
    (world : World) (operation : Operation) (order after : Order)
    → order.status ≡ OrderStatus.cancelled
    → perform world operation order ≡ ok after
    → (after.status ≡ OrderStatus.cancelled) × (length after.attempts ≡ length order.attempts)
perform-cancelled world operation order after c h = (
  ground (arith, c, perform-moves world operation order after h),
  perform-attempts world operation order after c h,
)
