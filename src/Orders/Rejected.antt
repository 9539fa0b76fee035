-- ===== src/Orders/Rejected.antt =====
-- A step of the orchestrator abandons an intent upon a rejection only.
use doppel_agent.Prelude.{
  ℕ, ◌≤◌, String, ◌≡◌, ◌≢◌, refl, sym, ap, ◌∙◌, Bool, true, false, ◌&&◌, List, [], ◌∷◌, Option,
  none, some, arith, if◌then◌else◌, Result, ok, err,
}
use doppel_agent.Plans.{DispatchRequest}
use doppel_agent.Runs.Tables.{Run}
use doppel_agent.Orders.Tables.{
  OrderStatus, draft, paused, TaskRow, Attempt, Order, OrderError, World, is_open,
  same_order_status,
}
use doppel_agent.Orders.States.{refresh_order, refreshed_status, blocked_rows}
use doppel_agent.Orders.Synced.{sync-refreshed}
use doppel_agent.Orders.Reserve.{reserve_next}
use doppel_agent.Orders.Control.{reconcile, abandon_unaccepted}
use doppel_agent.Orders.Orchestrator.{
  Admission, returned, rejected, broken, Service, world_of, leaves, left_by, mark, pending_intents,
  has_attempt, confirmed, settled_rejection, refused, admitted_as, admit, reserved_step,
  intent_step, cancel_order, reconciled_step, step,
}
use doppel_agent.Orders.Uncertain.{
  abandoned_count, IsCareful, IsCareful-trans, reconcile-IsCareful, reserve_next-IsCareful,
  mark-IsCareful,
}

module _ (service : Service) where
  reconciled-IsCareful :
      (order : Order) (runs : List Run)
      → IsCareful order (left_by (reconcile (world_of service runs) order) order runs).order
  reconciled-IsCareful order runs = by_result (reconcile (world_of service runs) order) refl
    where
      by_result :
          (r : Result OrderError Order)
          → reconcile (world_of service runs) order ≡ r
          → IsCareful order (left_by r order runs).order
      by_result (err e) k = omega arith
      by_result (ok after) k = reconcile-IsCareful (world_of service runs) order after k

  confirmed-IsCareful :
      (a : Attempt) (order : Order) (runs : List Run) (r : Result OrderError Order)
      → reconcile (world_of service runs) order ≡ r
      → IsCareful order (confirmed a order runs r).order
  confirmed-IsCareful a order runs (err e) k = mark-IsCareful "reconciliation_failed" order runs
  confirmed-IsCareful a order runs (ok after) k =
      IsCareful-trans order after (confirmed a order runs (ok after)).order
        (reconcile-IsCareful (world_of service runs) order after k)
        (by_waiting (has_attempt a.attempt_id (pending_intents after)))
    where
      by_waiting :
          (b : Bool)
          → IsCareful after
              (if b then mark "admission_not_persisted" after runs else leaves after runs).order
      by_waiting true = mark-IsCareful "admission_not_persisted" after runs
      by_waiting false = omega arith

  -- an admission that broke is no rejection
  refused-IsCareful :
      (a : Attempt) (order : Order) (runs : List Run) (r : Result OrderError Order)
      → reconcile (world_of service runs) order ≡ r
      → IsCareful order (refused service false a order runs r).order
  refused-IsCareful a order runs (err e) k = mark-IsCareful "reconciliation_failed" order runs
  refused-IsCareful a order runs (ok after) k =
      IsCareful-trans order after (refused service false a order runs (ok after)).order
        (reconcile-IsCareful (world_of service runs) order after k)
        (by_waiting (has_attempt a.attempt_id (pending_intents after)))
    where
      by_waiting :
          (b : Bool)
          → IsCareful after
              (if b && false
                then settled_rejection after runs
                    (abandon_unaccepted (world_of service runs) a.attempt_id true after)
                else mark "admission_failed" after runs).order
      by_waiting true = mark-IsCareful "admission_failed" after runs
      by_waiting false = mark-IsCareful "admission_failed" after runs

  module _
      (accepts : (request : DispatchRequest) (runs : List Run)
        → (service.create_run request runs).0 ≢ rejected) where
    admit-IsCareful :
        (a : Attempt) (order : Order) (runs : List Run)
        → IsCareful order (admit service a order runs).order
    unfolding admit
    admit-IsCareful a order runs =
        by_outcome (service.create_run a.request runs) (accepts a.request runs)
      where
        by_outcome :
            (p : Admission × List Run)
            → (p.0 ≢ rejected)
            → IsCareful order (admitted_as service a order p).order
        by_outcome (returned, later) n =
            confirmed-IsCareful a order later (reconcile (world_of service later) order) refl
        by_outcome (rejected, later) n = absurd (n refl)
        by_outcome (broken, later) n =
            refused-IsCareful a order later (reconcile (world_of service later) order) refl

    intent-IsCareful :
        (id : String) (order : Order) (runs : List Run) (xs : List Attempt)
        → IsCareful order (intent_step service id order runs xs).order
    intent-IsCareful id order runs (a ∷ xs) = admit-IsCareful a order runs
    intent-IsCareful id order runs [] =
        by_result (reserve_next (world_of service runs) id order.active_revision order) refl
      where
        by_result :
            (r : Result OrderError (Order × Option Attempt))
            → reserve_next (world_of service runs) id order.active_revision order ≡ r
            → IsCareful order (reserved_step service order runs r).order
        by_result (err e) k = omega arith
        by_result (ok (after, none)) k =
            IsCareful-trans order after (reserved_step service order runs (ok (after, none))).order
              (reserve_next-IsCareful (world_of service runs) id order.active_revision order
                (after, none) k)
              (reconciled-IsCareful after runs)
        by_result (ok (after, some a)) k =
            IsCareful-trans order after (admit service a after runs).order
              (reserve_next-IsCareful (world_of service runs) id order.active_revision order
                (after, some a) k)
              (admit-IsCareful a after runs)

refreshed_status-open :
    (status : OrderStatus) (revision : ℕ) (rows : List TaskRow)
    → (same_order_status status OrderStatus.cancelled ≡ false
        → same_order_status (refreshed_status status revision rows) OrderStatus.cancelled ≡ false)
      × (is_open status ≡ false → is_open (refreshed_status status revision rows) ≡ false)
unfolding refreshed_status
refreshed_status-open draft revision rows = (λ h. refl, λ h. refl)
refreshed_status-open OrderStatus.cancelled revision rows = (λ h. h, λ h. refl)
refreshed_status-open OrderStatus.queued revision rows =
    (λ h. ground arith, λ h. absurd (ground (arith, h)))
refreshed_status-open OrderStatus.running revision rows =
    (λ h. ground arith, λ h. absurd (ground (arith, h)))
refreshed_status-open paused revision rows = (λ h. ground arith, λ h. ground arith)
refreshed_status-open OrderStatus.succeeded revision rows = (λ h. ground arith, λ h. ground arith)
refreshed_status-open OrderStatus.failed revision rows = (λ h. ground arith, λ h. ground arith)

pub reconcile-open :
    (world : World) (order after : Order)
    → reconcile world order ≡ ok after
    → (same_order_status order.status OrderStatus.cancelled ≡ false
        → same_order_status after.status OrderStatus.cancelled ≡ false)
      × (is_open order.status ≡ false → is_open after.status ≡ false)
unfolding reconcile refresh_order
reconcile-open world order after h =
    let q = sync-refreshed world order after h in
    let rows = blocked_rows q.0 in
    let made : refreshed_status order.status q.0.active_revision rows ≡ after.status =
      ap (λ status. refreshed_status status q.0.active_revision rows) (sym q.1.status)
      ∙ ap (λ (o : Order). o.status) q.2 in
    let f = refreshed_status-open order.status q.0.active_revision rows in
    (
      λ k. ap (λ status. same_order_status status OrderStatus.cancelled) (sym made) ∙ f.0 k,
      λ k. ap is_open (sym made) ∙ f.1 k,
    )

-- Where `_create_run` never rejects a request, however else it and the other callbacks end, a step on an
-- order that is not cancelled abandons no attempt: an admission that broke is not taken for a rejection.
pub step-abandoned_count :
    (service : Service) (id : String) (order : Order) (runs : List Run)
    → ((request : DispatchRequest) (rs : List Run) → (service.create_run request rs).0 ≢ rejected)
    → same_order_status order.status OrderStatus.cancelled ≡ false
    → abandoned_count (step service id order runs).order.attempts ≤ abandoned_count order.attempts
unfolding step
step-abandoned_count service id order runs accepts live =
    by_result (reconcile (world_of service runs) order) refl
  where
    by_result :
        (r : Result OrderError Order)
        → reconcile (world_of service runs) order ≡ r
        → IsCareful order (reconciled_step service id order runs r).order
    by_result (err e) k = mark-IsCareful "reconciliation_failed" order runs
    by_result (ok after) k =
        IsCareful-trans order after (reconciled_step service id order runs (ok after)).order
          (reconcile-IsCareful (world_of service runs) order after k)
          (by_status (same_order_status after.status OrderStatus.cancelled)
            (is_open after.status && service.available)
            ((reconcile-open (world_of service runs) order after k).0 live))
      where
        by_status :
            (b c : Bool)
            → b ≡ false
            → IsCareful after
                (if b
                  then cancel_order service after runs
                  else if c
                  then intent_step service id after runs (pending_intents after)
                  else leaves after runs).order
        by_status true c e = absurd (ground (arith, e))
        by_status false true e =
            intent-IsCareful service accepts id after runs (pending_intents after)
        by_status false false e = omega arith
