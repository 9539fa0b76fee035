-- ===== src/Orders/Closed.antt =====
-- A step makes a run for an order that is open and a service that is available only.
use doppel_agent.Prelude.{
  String, ◌≡◌, refl, ap, ◌∙◌, Bool, true, false, ◌&&◌, List, [], ◌∷◌, Option, none, some, arith,
  if◌then◌else◌, Result, ok, err,
}
use doppel_agent.Plans.{DispatchRequest}
use doppel_agent.Runs.Tables.{Run}
use doppel_agent.Orders.Tables.{OrderStatus, Attempt, Order, OrderError, is_open, same_order_status}
use doppel_agent.Orders.Control.{reconcile, abandon_unaccepted}
use doppel_agent.Orders.Orchestrator.{
  Admission, Service, world_of, leaves, pending_intents, intent_step, cancel_runs, abandoned_then,
  abandon_intents, cancelled_step, cancel_order, reconciled_step, step,
}
use doppel_agent.Orders.Rejected.{reconcile-open}

-- The service with another callback that makes runs.
abbrev pub with_create_run : (DispatchRequest → List Run → Admission × List Run) → Service → Service
with_create_run make service = record service { create_run = make }

cancel_runs-same :
    (make : DispatchRequest → List Run → Admission × List Run) (service : Service)
    (xs : List Attempt) (runs : List Run)
    → cancel_runs (with_create_run make service) xs runs ≡ cancel_runs service xs runs
unfolding cancel_runs
cancel_runs-same make service [] runs = refl
cancel_runs-same make service (a ∷ xs) runs =
    by_run a.run_id refl (λ rs. cancel_runs-same make service xs rs)
  where
    by_run :
        (o : Option String)
        → a.run_id ≡ o
        → ((rs : List Run)
            → cancel_runs (with_create_run make service) xs rs ≡ cancel_runs service xs rs)
        → cancel_runs (with_create_run make service) (a ∷ xs) runs
          ≡ cancel_runs service (a ∷ xs) runs
    by_run none k ih = ground (arith, k, ih runs)
    by_run (some run) k ih = by_cancel (service.cancel_run run runs) refl
      where
        by_cancel :
            (c : Option (List Run))
            → service.cancel_run run runs ≡ c
            → cancel_runs (with_create_run make service) (a ∷ xs) runs
              ≡ cancel_runs service (a ∷ xs) runs
        by_cancel none l = ground (arith, k, l, ih runs)
        by_cancel (some after) l = ground (arith, k, l, ih runs, ih after)

abandon_intents-same :
    (make : DispatchRequest → List Run → Admission × List Run) (service : Service)
    (xs : List Attempt) (order : Order) (runs : List Run)
    → abandon_intents (with_create_run make service) xs order runs
      ≡ abandon_intents service xs order runs
unfolding abandon_intents
abandon_intents-same make service [] order runs = refl
abandon_intents-same make service (a ∷ xs) order runs =
    by_result (abandon_unaccepted (world_of service runs) a.attempt_id true order)
      (λ after. abandon_intents-same make service xs after runs)
  where
    by_result :
        (r : Result OrderError Order)
        → ((after : Order)
            → abandon_intents (with_create_run make service) xs after runs
              ≡ abandon_intents service xs after runs)
        → abandoned_then r order runs
            (λ after. abandon_intents (with_create_run make service) xs after runs)
          ≡ abandoned_then r order runs (λ after. abandon_intents service xs after runs)
    by_result (err e) ih = refl
    by_result (ok after) ih = ih after

cancel_order-same :
    (make : DispatchRequest → List Run → Admission × List Run) (service : Service) (order : Order)
    (runs : List Run)
    → cancel_order (with_create_run make service) order runs ≡ cancel_order service order runs
unfolding cancel_order
cancel_order-same make service order runs =
    ap (cancelled_step (with_create_run make service) order)
      (cancel_runs-same make service order.attempts runs)
    ∙ by_cancelled (cancel_runs service order.attempts runs)
  where
    by_cancelled :
        (p : Bool × List Run)
        → cancelled_step (with_create_run make service) order p ≡ cancelled_step service order p
    by_cancelled (false, after) = refl
    by_cancelled (true, after) =
        abandon_intents-same make service (pending_intents order) order after

-- Where the service is not available or the order is not open, as where it is a draft, paused, ended or
-- cancelled, a step does not depend on `_create_run`: with any other one it leaves the same.
pub step-with_create_run :
    (make : DispatchRequest → List Run → Admission × List Run) (service : Service) (id : String)
    (order : Order) (runs : List Run)
    → (is_open order.status && service.available) ≡ false
    → step (with_create_run make service) id order runs ≡ step service id order runs
unfolding step
step-with_create_run make service id order runs closed =
    by_result (reconcile (world_of service runs) order) refl
  where
    by_result :
        (r : Result OrderError Order)
        → reconcile (world_of service runs) order ≡ r
        → reconciled_step (with_create_run make service) id order runs r
          ≡ reconciled_step service id order runs r
    by_result (err e) k = refl
    by_result (ok after) k =
        by_status (same_order_status after.status OrderStatus.cancelled)
          (is_open after.status && service.available)
          (still (is_open order.status) (is_open after.status) service.available
            (reconcile-open (world_of service runs) order after k).1 closed)
      where
        still : (x y z : Bool) → (x ≡ false → y ≡ false) → (x && z) ≡ false → (y && z) ≡ false
        still x y z f h = ground (arith, f, h)

        by_status :
            (b c : Bool)
            → c ≡ false
            → (if b
                then cancel_order (with_create_run make service) after runs
                else if c
                then intent_step
                    (with_create_run make service)
                    id
                    after
                    runs
                    (pending_intents after)
                else leaves after runs)
              ≡ (if b
                  then cancel_order service after runs
                  else if c
                  then intent_step service id after runs (pending_intents after)
                  else leaves after runs)
        by_status true c e = cancel_order-same make service after runs
        by_status false true e = absurd (ground (arith, e))
        by_status false false e = refl
