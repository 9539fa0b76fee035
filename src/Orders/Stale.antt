-- ===== src/Orders/Stale.antt =====
-- An edit of the plan puts every request for an earlier revision out of date.
use doppel_agent.Prelude.{
  ℕ, suc, ◌≤◌, String, ◌≡◌, ◌≢◌, Bool, true, false, Option, none, some, arith, if◌then◌else◌, ok,
  inl, inr, >>=-eq-ok,
}
use doppel_agent.Orders.Tables.{Attempt, Execution, Order, World}
use doppel_agent.Orders.States.{refresh_order}
use doppel_agent.Orders.Sync.{sync}
use doppel_agent.Orders.Reserve.{reserve_next}
use doppel_agent.Orders.Control.{record_dispatch_error, reconcile, activate}
use doppel_agent.Orders.Revise.{insert_plan}
use doppel_agent.Orders.Synced.{sync-refreshed}
use doppel_agent.Orders.Effects.{
  activate-effect, control-effect, reserve_next-effect, abandon-effect, retry_task-effect,
  replace-effect, revise-effect,
}
use doppel_agent.Orders.Histories.{
  Operation, activates, controls, reserves, reconciles, records, abandons, retries, replaces,
  revises, perform,
}

-- The revision that a request expects.
abbrev pub expects : Operation → Option ℕ
expects (activates revision options) = some revision
expects (controls action revision) = some revision
expects (reserves attempt revision) = some revision
expects (retries task revision expected) = some revision
expects (replaces plan revision) = some revision
expects (revises plan changes revision) = some revision
expects _ = none

abbrev pub edits : Operation → Bool
edits (replaces plan revision) = true
edits (revises plan changes revision) = true
edits _ = false

sync-revision :
    (world : World) (order after : Order)
    → sync world order ≡ ok after
    → after.active_revision ≡ order.active_revision
unfolding refresh_order
sync-revision world order after h =
    let q = sync-refreshed world order after h in ground (arith, q.2, q.1.revision)

reserved-revision :
    (world : World) (id : String) (revision : ℕ) (order : Order) (r : Order × Option Attempt)
    → reserve_next world id revision order ≡ ok r
    → (r.0.active_revision ≡ order.active_revision) × (order.active_revision ≡ revision)
reserved-revision world id revision order r h =
    let q = reserve_next-effect world id revision order r h in
    let same = sync-revision world order q.0 q.2 in
    elim q.3 [
      | inl e ↦ (ground (arith, e, same), q.1)
      | inr (row, rows, ready, made) ↦ (ground (arith, made.attempt, same), q.1)
    ]

activated-revision :
    (world : World) (revision : ℕ) (options : Execution) (order after : Order)
    → activate world revision options order ≡ ok after
    → (after.active_revision ≡ order.active_revision) × (order.active_revision ≡ revision)
activated-revision world revision options order after h =
    let q = activate-effect world revision options order after h in
    elim q.1 [
      | inl same ↦ (ground (arith, same), q.0)
      | inr (snapshot, d, made) ↦ (ground (arith, made), q.0)
    ]

abbrev AsExpected : Option ℕ → ℕ → Type 0
AsExpected none active = Unit
AsExpected (some revision) active = active ≡ revision

-- the revision that an operation leaves, and that it was the expected one before
perform-revision :
    (world : World) (operation : Operation) (order after : Order)
    → perform world operation order ≡ ok after
    → (after.active_revision
        ≡ (if edits operation then suc order.active_revision else order.active_revision))
      × AsExpected (expects operation) order.active_revision
unfolding perform reconcile record_dispatch_error refresh_order insert_plan
perform-revision world (activates revision options) order after h =
    activated-revision world revision options order after h
perform-revision world (controls action revision) order after h =
    let q = control-effect world action revision order after h in
    (ground (arith, q.5, sync-revision world order q.0 q.3), q.2)
perform-revision world (reserves attempt revision) order after h =
    let q = >>=-eq-ok (reserve_next world attempt revision order) (λ r. ok r.0) h in
    let r = reserved-revision world attempt revision order q.0 q.1 in
    (ground (arith, q.2, r.0), r.1)
perform-revision world reconciles order after h = (sync-revision world order after h, tt)
perform-revision world (records code) order after h = (ground (arith, h), tt)
perform-revision world (abandons attempt settled) order after h =
    let q = abandon-effect world attempt settled order after h in
    (ground (arith, q.5, sync-revision world order q.0 q.2), tt)
perform-revision world (retries task revision expected) order after h =
    let q = retry_task-effect world task revision expected order after h in
    (ground (arith, q.7, sync-revision world order q.0 q.3), q.2)
perform-revision world (replaces plan revision) order after h =
    let q = replace-effect plan revision order after h in (ground (arith, q.1, q.4), q.1)
perform-revision world (revises plan changes revision) order after h =
    let q = revise-effect world plan changes revision order after h in
    (ground (arith, q.4, q.7), q.4)

-- What further operations make of an order.
pub data Later (order : Order) : Order → Type 0 where
  now : Later order order
  next :
      {before after : Order} (world : World) (operation : Operation)
      → Later order before
      → perform world operation before ≡ ok after
      → Later order after

Later-revision :
    (order after : Order) → Later order after → order.active_revision ≤ after.active_revision
Later-revision order after now = omega arith
Later-revision order after (next world operation l h) =
    ground (arith, Later-revision order _ l, (perform-revision world operation _ after h).0)

-- After a plan was replaced or revised, no request that still expects the revision before it goes
-- through, whatever happens in between.
pub edit-stale :
    (world later_world : World) (edit request : Operation) (order edited later final : Order)
    → perform world edit order ≡ ok edited
    → edits edit ≡ true
    → Later edited later
    → expects request ≡ some order.active_revision
    → perform later_world request later ≢ ok final
edit-stale world later_world edit request order edited later final h e l x k = ground (
  arith,
  (perform-revision world edit order edited h).0,
  e,
  Later-revision edited later l,
  x,
  (perform-revision later_world request later final k).1,
)
