-- ===== src/Orders/Settling.antt =====
-- Cancelling an order leaves no intent that waits.
use doppel_agent.Prelude.{
  String, ◌≡◌, refl, true, false, List, [], ◌∷◌, Option, none, some, arith, eq_iff, Result, ok, err,
  All, >>=-eq-ok, keep,
}
use mathlib.Core.Path.{subst}
use doppel_agent.Runs.Tables.{Run}
use doppel_agent.Orders.Tables.{TaskRow, Attempt, Order, OrderError, World}
use doppel_agent.Orders.Queries.{find_row, find_attempt}
use doppel_agent.Orders.States.{refresh_order}
use doppel_agent.Orders.Sync.{
  run_for, update_attempt, settled, settle_attempt, sync_run, sync_attempt, sync_attempts, sync,
}
use doppel_agent.Orders.Control.{abandon, abandon_unaccepted, reconcile}
use doppel_agent.Orders.Effects.{abandon-effect}
use doppel_agent.Orders.Orchestrator.{
  Service, world_of, is_waiting, pending_intents, has_attempt, cancel_runs, abandoned_then,
  abandon_intents, cancel_order,
}

-- Every attempt of `ys` whose intent waits is one of `xs`.
unfoldable IsCovered : List Attempt → List Attempt → Type 0
IsCovered xs ys = All (λ y. is_waiting y ≡ true → has_attempt y.attempt_id xs ≡ true) ys

update-IsCovered :
    (f : Attempt → Attempt) (id : String) (xs ys : List Attempt)
    → ((a : Attempt) → is_waiting (f a) ≡ false)
    → IsCovered xs ys
    → IsCovered xs (update_attempt id f ys)
unfolding IsCovered update_attempt
update-IsCovered f id xs [] off h = tt
update-IsCovered f id xs (y ∷ ys) off h =
    (λ k. ground (arith, k, off y, h.0), update-IsCovered f id xs ys off h.1)

drop-IsCovered :
    (f : Attempt → Attempt) (a : Attempt) (xs ys : List Attempt)
    → ((b : Attempt) → is_waiting (f b) ≡ false)
    → IsCovered (a ∷ xs) ys
    → IsCovered xs (update_attempt a.attempt_id f ys)
unfolding IsCovered update_attempt has_attempt
drop-IsCovered f a xs [] off h = tt
drop-IsCovered f a xs (y ∷ ys) off h = (
  λ k.
      ground
        (arith, k, off y, h.0, eq_iff y.attempt_id a.attempt_id, eq_iff a.attempt_id y.attempt_id),
  drop-IsCovered f a xs ys off h.1,
)

sync_run-IsCovered :
    (world : World) (a : Attempt) (row : TaskRow) (run : Run) (order after : Order)
    (xs : List Attempt)
    → sync_run world a row run order ≡ ok after
    → IsCovered xs order.attempts
    → IsCovered xs after.attempts
unfolding sync_run
sync_run-IsCovered world a row run order after xs h c =
    let made : settle_attempt run a order ≡ after = ground (arith, h) in
    subst (λ o. IsCovered xs o.attempts) made
      (update-IsCovered (settled run) a.attempt_id xs order.attempts (λ b. refl) c)

sync_attempt-IsCovered :
    (world : World) (a : Attempt) (order after : Order) (xs : List Attempt)
    → sync_attempt world a order ≡ ok after
    → IsCovered xs order.attempts
    → IsCovered xs after.attempts
unfolding sync_attempt
sync_attempt-IsCovered world a order after xs h c =
    by_row (find_row a.revision a.task_id order.tasks) (run_for a.admission_key world.runs) refl
      refl
  where
    by_row :
        (o : Option TaskRow) (r : Option Run)
        → find_row a.revision a.task_id order.tasks ≡ o
        → run_for a.admission_key world.runs ≡ r
        → IsCovered xs after.attempts
    by_row none r e f =
        let same : order ≡ after = ground (arith, e, h) in
        subst (λ o. IsCovered xs o.attempts) same c
    by_row (some row) none e f =
        let same : order ≡ after = ground (arith, e, f, h) in
        subst (λ o. IsCovered xs o.attempts) same c
    by_row (some row) (some run) e f =
        sync_run-IsCovered world a row run order after xs (ground (arith, e, f, h)) c

sync_attempts-IsCovered :
    (world : World) (as_read : List Attempt) (order after : Order) (xs : List Attempt)
    → sync_attempts world as_read order ≡ ok after
    → IsCovered xs order.attempts
    → IsCovered xs after.attempts
unfolding sync_attempts
sync_attempts-IsCovered world [] order after xs h c =
    let same : order ≡ after = ground (arith, h) in subst (λ o. IsCovered xs o.attempts) same c
sync_attempts-IsCovered world (a ∷ as_read) order after xs h c =
    let q = >>=-eq-ok (sync_attempt world a order) (λ x. sync_attempts world as_read x) h in
    sync_attempts-IsCovered world as_read q.0 after xs q.2
      (sync_attempt-IsCovered world a order q.0 xs q.1 c)

sync-IsCovered :
    (world : World) (order after : Order) (xs : List Attempt)
    → sync world order ≡ ok after
    → IsCovered xs order.attempts
    → IsCovered xs after.attempts
unfolding sync refresh_order
sync-IsCovered world order after xs h c =
    let q = >>=-eq-ok (sync_attempts world order.attempts order) (λ x. ok (refresh_order x)) h in
    let made : refresh_order q.0 ≡ after = ground (arith, q.2) in
    subst (λ o. IsCovered xs o.attempts) made
      (sync_attempts-IsCovered world order.attempts order q.0 xs q.1 c)

find_attempt-id :
    (id : String) (xs : List Attempt) (a : Attempt)
    → find_attempt id xs ≡ some a
    → a.attempt_id ≡ id
unfolding find_attempt
find_attempt-id id [] a h = absurd (ground (arith, h))
find_attempt-id id (x ∷ xs) a h = ground (arith, h, eq_iff x.attempt_id id, find_attempt-id id xs a)

abandon-IsCovered :
    (world : World) (a : Attempt) (order after : Order) (xs : List Attempt)
    → abandon_unaccepted world a.attempt_id true order ≡ ok after
    → IsCovered (a ∷ xs) order.attempts
    → IsCovered xs after.attempts
unfolding refresh_order
abandon-IsCovered world a order after xs h c =
    let q = abandon-effect world a.attempt_id true order after h in
    let synced = sync-IsCovered world order q.0 (a ∷ xs) q.2 c in
    let same : q.1.attempt_id ≡ a.attempt_id = find_attempt-id a.attempt_id q.0.attempts q.1 q.3 in
    let dropped : IsCovered xs (update_attempt a.attempt_id (abandon q.0.status) q.0.attempts) =
      drop-IsCovered (abandon q.0.status) a xs q.0.attempts (λ b. refl) synced in
    let made : update_attempt a.attempt_id (abandon q.0.status) q.0.attempts ≡ after.attempts =
      ground (arith, q.5, same) in
    subst (IsCovered xs) made dropped

covered_by_none : (ys : List Attempt) → IsCovered [] ys → keep is_waiting ys ≡ []
unfolding IsCovered has_attempt
covered_by_none [] h = refl
covered_by_none (y ∷ ys) h = ground (arith, h.0, covered_by_none ys h.1)

abandon_intents-settles :
    (service : Service) (xs : List Attempt) (order : Order) (runs : List Run)
    → IsCovered xs order.attempts
    → (abandon_intents service xs order runs).raised ≡ none
    → pending_intents (abandon_intents service xs order runs).order ≡ []
unfolding abandon_intents pending_intents reconcile
abandon_intents-settles service [] order runs c h =
    by_result (sync (world_of service runs) order) refl
  where
    by_result :
        (r : Result OrderError Order)
        → sync (world_of service runs) order ≡ r
        → keep is_waiting (abandon_intents service [] order runs).order.attempts ≡ []
    by_result (err e) k = absurd (ground (arith, k, h))
    by_result (ok after) k =
        rw k (
          covered_by_none after.attempts
            (sync-IsCovered (world_of service runs) order after [] k c))
abandon_intents-settles service (a ∷ xs) order runs c h =
    by_result (abandon_unaccepted (world_of service runs) a.attempt_id true order) refl
      (λ after k.
        abandon_intents-settles service xs after runs
          (abandon-IsCovered (world_of service runs) a order after xs k c) (ground (arith, k, h)))
      h
  where
    by_result :
        (r : Result OrderError Order)
        → abandon_unaccepted (world_of service runs) a.attempt_id true order ≡ r
        → ((after : Order)
            → abandon_unaccepted (world_of service runs) a.attempt_id true order ≡ ok after
            → keep is_waiting (abandon_intents service xs after runs).order.attempts ≡ [])
        → (abandoned_then r order runs (λ after. abandon_intents service xs after runs)).raised
          ≡ none
        → keep is_waiting
            (abandoned_then r order runs
              (λ after. abandon_intents service xs after runs)).order.attempts
          ≡ []
    by_result (err e) k f g = absurd (ground (arith, g))
    by_result (ok after) k f g = f after k

kept-IsCovered :
    (xs ys : List Attempt)
    → ((id : String) → has_attempt id (keep is_waiting ys) ≡ true → has_attempt id xs ≡ true)
    → IsCovered xs ys
unfolding IsCovered has_attempt
kept-IsCovered xs [] f = tt
kept-IsCovered xs (y ∷ ys) f = (
  λ k. f y.attempt_id (ground (arith, k, eq_iff y.attempt_id y.attempt_id)),
  kept-IsCovered xs ys (λ id h. f id (ground (arith, h))),
)

-- Where the callbacks of `_cancel_order` return and nothing is raised, every intent of the order is
-- settled: admitted or abandoned.
pub cancel_order-settles :
    (service : Service) (order : Order) (runs later : List Run)
    → cancel_runs service order.attempts runs ≡ (true, later)
    → (cancel_order service order runs).raised ≡ none
    → pending_intents (cancel_order service order runs).order ≡ []
unfolding cancel_order pending_intents
cancel_order-settles service order runs later e h = rw e (
    abandon_intents-settles service (keep is_waiting order.attempts) order later
      (kept-IsCovered (keep is_waiting order.attempts) order.attempts (λ id k. k))
      (ground (arith, e, h)))
