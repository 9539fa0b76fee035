-- ===== src/Orders/Sound.antt =====
-- In any history an order has at most one active attempt, no task has more than three under one
-- definition, and a draft has none.
use doppel_agent.Prelude.{
  ℕ, ◌≤◌, String, ◌≡◌, refl, Bool, true, false, List, [], ◌∷◌, Option, some, arith, ok, >>=-eq-ok,
  length, inl, inr,
}
use mathlib.Core.Path.{subst, sym}
use doppel_agent.Plans.{WorkOrderPlan}
use doppel_agent.Orders.Tables.{
  OrderStatus, draft, paused, Attempt, Execution, Order, World, is_active,
}
use doppel_agent.Orders.Queries.{active_count, last_number}
use doppel_agent.Orders.Sync.{update_attempt}
use doppel_agent.Orders.Reserve.{reserve_next}
use doppel_agent.Orders.Control.{
  activate, Action, pause, resume, cancel, controlled, control, record_dispatch_error, abandon,
  abandon_attempt, abandon_unaccepted, retried, retry_task, stopped_status, reconcile,
}
use doppel_agent.Orders.Revise.{
  Changes, revised, revise_plan, replace_draft_plan, new_order, insert_plan, revised_status,
}
use doppel_agent.Orders.Effects.{
  activate-effect, control-effect, reserve_next-effect, abandon-effect, retry_task-effect,
  replace-effect, revise-effect,
}
use doppel_agent.Orders.Synced.{count_of, IsUpdate, count_of-update_attempt}
use doppel_agent.Orders.Attempts.{
  is_draft, IsSound, refresh_order-IsSound, sync-IsSound, kept-IsSound, with_attempt-IsSound,
}
use doppel_agent.Orders.Histories.{
  Operation, activates, controls, reserves, reconciles, records, abandons, retries, replaces,
  revises, perform, Reach, created, performed,
}

activate-IsSound :
    (world : World) (revision : ℕ) (options : Execution) (order after : Order)
    → activate world revision options order ≡ ok after
    → IsSound order
    → IsSound after
activate-IsSound world revision options order after h s =
    elim (activate-effect world revision options order after h).1 [
      | inl same ↦ subst IsSound (sym same) s
      | inr (snapshot, d, made) ↦ kept-IsSound order after (ground (arith, made)) (λ k. d) s
    ]

controlled-draft :
    (action : Action) (before after : OrderStatus)
    → controlled action before ≡ some after
    → is_draft after ≡ false
controlled-draft pause before after h = ground (arith, h)
controlled-draft resume before after h = ground (arith, h)
controlled-draft cancel before after h = ground (arith, h)

control-IsSound :
    (world : World) (action : Action) (revision : ℕ) (order after : Order)
    → control world action revision order ≡ ok after
    → IsSound order
    → IsSound after
control-IsSound world action revision order after h s =
    let q = control-effect world action revision order after h in
    kept-IsSound q.0 after (ground (arith, q.5))
      (λ k. absurd (ground (arith, k, q.5, controlled-draft action q.0.status q.1 q.4)))
      (sync-IsSound world order q.0 q.3 s)

reserve_next-IsSound :
    (world : World) (id : String) (revision : ℕ) (order : Order) (r : Order × Option Attempt)
    → reserve_next world id revision order ≡ ok r
    → IsSound order
    → IsSound r.0
reserve_next-IsSound world id revision order r h s =
    let q = reserve_next-effect world id revision order r h in
    let synced : IsSound q.0 = sync-IsSound world order q.0 q.2 s in
    elim q.3 [
      | inl same ↦ subst (λ x. IsSound x.0) (sym same) synced
      | inr (row, rows, ready, made) ↦
          subst (λ x. IsSound x.0) (sym made.attempt)
            (with_attempt-IsSound _ q.0 refl made.limit (ground (arith, made.single, made.attempt))
              synced)
    ]

pub abandon-IsUpdate : (status : OrderStatus) → IsUpdate (abandon status)
unfolding IsUpdate
abandon-IsUpdate status a = (refl, refl, refl)

abandon-active : (status : OrderStatus) (a : Attempt) → is_active (abandon status a).status ≡ false
abandon-active draft a = refl
abandon-active OrderStatus.queued a = refl
abandon-active OrderStatus.running a = refl
abandon-active paused a = refl
abandon-active OrderStatus.succeeded a = refl
abandon-active OrderStatus.failed a = refl
abandon-active OrderStatus.cancelled a = refl

active_count-abandon :
    (status : OrderStatus) (id : String) (xs : List Attempt)
    → active_count (update_attempt id (abandon status) xs) ≤ active_count xs
unfolding active_count update_attempt
active_count-abandon status id [] = omega arith
active_count-abandon status id (a ∷ xs) =
    ground (arith, abandon-active status a, active_count-abandon status id xs)

abandon_attempt-IsSound :
    (a : Attempt) (order : Order) → IsSound order → IsSound (abandon_attempt a order)
abandon_attempt-IsSound a order s = record {
  single = omega (arith, s.single, active_count-abandon order.status a.attempt_id order.attempts);
  counted = λ r t. omega (arith, (same r t).0, (same r t).1, s.counted r t);
  limited = λ r t. omega (arith, (same r t).1, s.limited r t);
  undispatched = λ h. omega (arith, (same 0 "").2, s.undispatched h);
}
  where
    same :
        (revision : ℕ) (task : String)
        → (count_of revision task (abandon_attempt a order).attempts
            ≡ count_of revision task order.attempts)
          × (last_number revision task (abandon_attempt a order).attempts
              ≡ last_number revision task order.attempts)
          × (length (abandon_attempt a order).attempts ≡ length order.attempts)
    same revision task =
        count_of-update_attempt revision task a.attempt_id (abandon order.status) order.attempts
          (abandon-IsUpdate order.status)

abandon-IsSound :
    (world : World) (id : String) (settled : Bool) (order after : Order)
    → abandon_unaccepted world id settled order ≡ ok after
    → IsSound order
    → IsSound after
abandon-IsSound world id settled order after h s =
    let q = abandon-effect world id settled order after h in
    subst IsSound (sym q.5) (
      refresh_order-IsSound (abandon_attempt q.1 q.0)
        (abandon_attempt-IsSound q.1 q.0 (sync-IsSound world order q.0 q.2 s)))

retry_task-IsSound :
    (world : World) (id : String) (revision : ℕ) (expected : String) (order after : Order)
    → retry_task world id revision expected order ≡ ok after
    → IsSound order
    → IsSound after
retry_task-IsSound world id revision expected order after h s =
    let q = retry_task-effect world id revision expected order after h in
    subst IsSound (sym q.7) (
      refresh_order-IsSound (retried revision q.1 q.0) (
        kept-IsSound q.0 (retried revision q.1 q.0) refl (λ k. absurd (ground (arith, k)))
          (sync-IsSound world order q.0 q.3 s)))

replace-IsSound :
    (new : WorkOrderPlan) (expected : ℕ) (order after : Order)
    → replace_draft_plan new expected order ≡ ok after
    → IsSound order
    → IsSound after
unfolding insert_plan
replace-IsSound new expected order after h s =
    let q = replace-effect new expected order after h in
    kept-IsSound order after (ground (arith, q.4)) (λ k. q.2) s

revised_status-draft :
    (status : OrderStatus) → is_draft (revised_status status) ≡ true → is_draft status ≡ true
revised_status-draft draft h = refl
revised_status-draft OrderStatus.queued h = h
revised_status-draft OrderStatus.running h = h
revised_status-draft paused h = h
revised_status-draft OrderStatus.succeeded h = h
revised_status-draft OrderStatus.failed h = h
revised_status-draft OrderStatus.cancelled h = h

revise-IsSound :
    (world : World) (new : WorkOrderPlan) (changes : Changes) (expected : ℕ) (order after : Order)
    → revise_plan world new changes expected order ≡ ok after
    → IsSound order
    → IsSound after
revise-IsSound world new changes expected order after h s =
    let q = revise-effect world new changes expected order after h in
    subst IsSound (sym q.7) (
      refresh_order-IsSound (revised expected q.1 q.2 q.3 q.0) (
        kept-IsSound q.0 (revised expected q.1 q.2 q.3 q.0) refl (revised_status-draft q.0.status)
          (sync-IsSound world order q.0 q.5 s)))

stopped_status-draft :
    (status : OrderStatus) → is_draft (stopped_status status) ≡ true → is_draft status ≡ true
stopped_status-draft draft h = refl
stopped_status-draft OrderStatus.queued h = h
stopped_status-draft OrderStatus.running h = h
stopped_status-draft paused h = h
stopped_status-draft OrderStatus.succeeded h = h
stopped_status-draft OrderStatus.failed h = h
stopped_status-draft OrderStatus.cancelled h = h

record-IsSound :
    (code : String) (order after : Order)
    → record_dispatch_error code order ≡ ok after
    → IsSound order
    → IsSound after
unfolding record_dispatch_error
record-IsSound code order after h s =
    kept-IsSound order after (ground (arith, h))
      (λ k. stopped_status-draft order.status (ground (arith, h, k))) s

perform-IsSound :
    (world : World) (operation : Operation) (order after : Order)
    → perform world operation order ≡ ok after
    → IsSound order
    → IsSound after
unfolding perform reconcile
perform-IsSound world (activates revision options) order after h s =
    activate-IsSound world revision options order after h s
perform-IsSound world (controls action revision) order after h s =
    control-IsSound world action revision order after h s
perform-IsSound world (reserves attempt revision) order after h s =
    let q = >>=-eq-ok (reserve_next world attempt revision order) (λ r. ok r.0) h in
    subst IsSound (ground (arith, q.2))
      (reserve_next-IsSound world attempt revision order q.0 q.1 s)
perform-IsSound world reconciles order after h s = sync-IsSound world order after h s
perform-IsSound world (records code) order after h s = record-IsSound code order after h s
perform-IsSound world (abandons attempt settled) order after h s =
    abandon-IsSound world attempt settled order after h s
perform-IsSound world (retries task revision expected) order after h s =
    retry_task-IsSound world task revision expected order after h s
perform-IsSound world (replaces plan revision) order after h s =
    replace-IsSound plan revision order after h s
perform-IsSound world (revises plan changes revision) order after h s =
    revise-IsSound world plan changes revision order after h s

created-IsSound : (plan : WorkOrderPlan) (key : Option String) → IsSound (new_order plan key)
unfolding new_order count_of last_number active_count
created-IsSound plan key = record {
  single = omega arith;
  counted = λ r t. omega arith;
  limited = λ r t. omega arith;
  undispatched = λ h. refl;
}

-- In any history of an order, the runs changing in any way between its operations: at most one of
-- its attempts is active; a task has at most three attempts under one execution revision, as many
-- as their numbers allow; a draft has none.
pub Reach-IsSound : (order : Order) → Reach order → IsSound order
Reach-IsSound order (created plan key) = created-IsSound plan key
Reach-IsSound order (performed world operation r h) =
    perform-IsSound world operation _ order h (Reach-IsSound _ r)
