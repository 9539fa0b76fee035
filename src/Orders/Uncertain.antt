-- ===== src/Orders/Uncertain.antt =====
-- Which of the store's operations leave no more attempts abandoned.
use doppel_agent.Prelude.{
  ℕ, ◌+◌, ◌≤◌, String, ◌≡◌, refl, sym, ap, false, List, [], ◌∷◌, ◌++◌, Option, none, some, arith,
  if◌then◌else◌, inl, inr, ◌⊎◌, ok, >>=-eq-ok,
}
use mathlib.Core.Path.{subst}
use doppel_agent.Runs.Tables.{Run}
use doppel_agent.Orders.Tables.{TaskRow, Attempt, Order, World}
use doppel_agent.Orders.Queries.{find_row, ready_rows}
use doppel_agent.Orders.States.{refresh_order}
use doppel_agent.Orders.Sync.{
  is_abandoned, run_for, update_attempt, settled, settle_attempt, sync_run, sync_attempt,
  sync_attempts, sync,
}
use doppel_agent.Orders.Reserve.{reserve_next}
use doppel_agent.Orders.Reserved.{IsReserved}
use doppel_agent.Orders.Effects.{reserve_next-effect}
use doppel_agent.Orders.Control.{reconcile, record_dispatch_error}
use doppel_agent.Orders.Orchestrator.{mark}

-- How many attempts have an abandoned intent.
abbrev pub abandoned_count : List Attempt → ℕ
abandoned_count [] = 0
abandoned_count (a ∷ xs) = (if is_abandoned a.state then 1 else 0) + abandoned_count xs

abandoned_count-update :
    (f : Attempt → Attempt) (id : String) (xs : List Attempt)
    → ((a : Attempt) → is_abandoned (f a).state ≡ false)
    → abandoned_count (update_attempt id f xs) ≤ abandoned_count xs
unfolding update_attempt
abandoned_count-update f id [] off = omega arith
abandoned_count-update f id (x ∷ xs) off = ground (arith, off x, abandoned_count-update f id xs off)

abandoned_count-append :
    (xs : List Attempt) (a : Attempt)
    → is_abandoned a.state ≡ false
    → abandoned_count (xs ++ (a ∷ [])) ≡ abandoned_count xs
abandoned_count-append [] a h = ground (arith, h)
abandoned_count-append (x ∷ xs) a h = ground (arith, abandoned_count-append xs a h)

-- No more attempts are abandoned afterwards.
abbrev pub IsCareful : Order → Order → Type 0
IsCareful before after = abandoned_count after.attempts ≤ abandoned_count before.attempts

IsCareful-same : (a b : Order) → b.attempts ≡ a.attempts → IsCareful a b
IsCareful-same a b e = omega (arith, ap abandoned_count e)

pub IsCareful-trans : (a b c : Order) → IsCareful a b → IsCareful b c → IsCareful a c
IsCareful-trans a b c f g = omega (arith, f, g)

sync_attempt-IsCareful :
    (world : World) (a : Attempt) (order after : Order)
    → sync_attempt world a order ≡ ok after
    → IsCareful order after
unfolding sync_attempt sync_run
sync_attempt-IsCareful world a order after h =
    by_row (find_row a.revision a.task_id order.tasks) (run_for a.admission_key world.runs) refl
      refl
  where
    by_row :
        (o : Option TaskRow) (r : Option Run)
        → find_row a.revision a.task_id order.tasks ≡ o
        → run_for a.admission_key world.runs ≡ r
        → IsCareful order after
    by_row none r e f =
        let same : order ≡ after = ground (arith, e, h) in
        IsCareful-same order after (ap (λ (o : Order). o.attempts) (sym same))
    by_row (some row) none e f =
        let same : order ≡ after = ground (arith, e, f, h) in
        IsCareful-same order after (ap (λ (o : Order). o.attempts) (sym same))
    by_row (some row) (some run) e f =
        let k : sync_run world a row run order ≡ ok after = ground (arith, e, f, h) in
        let made : settle_attempt run a order ≡ after = ground (arith, k) in
        subst (λ o. IsCareful order o) made
          (abandoned_count-update (settled run) a.attempt_id order.attempts (λ b. refl))

sync_attempts-IsCareful :
    (world : World) (xs : List Attempt) (order after : Order)
    → sync_attempts world xs order ≡ ok after
    → IsCareful order after
unfolding sync_attempts
sync_attempts-IsCareful world [] order after h =
    let same : order ≡ after = ground (arith, h) in
    IsCareful-same order after (ap (λ (o : Order). o.attempts) (sym same))
sync_attempts-IsCareful world (a ∷ xs) order after h =
    let q = >>=-eq-ok (sync_attempt world a order) (λ x. sync_attempts world xs x) h in
    IsCareful-trans order q.0 after (sync_attempt-IsCareful world a order q.0 q.1)
      (sync_attempts-IsCareful world xs q.0 after q.2)

pub reconcile-IsCareful :
    (world : World) (order after : Order) → reconcile world order ≡ ok after → IsCareful order after
unfolding reconcile sync refresh_order
reconcile-IsCareful world order after h =
    let q = >>=-eq-ok (sync_attempts world order.attempts order) (λ x. ok (refresh_order x)) h in
    let made : refresh_order q.0 ≡ after = ground (arith, q.2) in
    subst (λ o. IsCareful order o) made (sync_attempts-IsCareful world order.attempts order q.0 q.1)

appended-IsCareful :
    (before after : Order) (a : Attempt)
    → after.attempts ≡ before.attempts ++ (a ∷ [])
    → is_abandoned a.state ≡ false
    → IsCareful before after
appended-IsCareful before after a e h =
    omega (arith, ap abandoned_count e, abandoned_count-append before.attempts a h)

pub reserve_next-IsCareful :
    (world : World) (id : String) (revision : ℕ) (order : Order) (r : Order × Option Attempt)
    → reserve_next world id revision order ≡ ok r
    → IsCareful order r.0
unfolding reconcile
reserve_next-IsCareful world id revision order r h =
    let q = reserve_next-effect world id revision order r h in
    IsCareful-trans order q.0 r.0 (reconcile-IsCareful world order q.0 q.2) (by_case q.0 q.3)
  where
    by_case :
        (s : Order)
        → (r ≡ (s, none))
          ⊎ ((row : TaskRow) × (rows : List TaskRow) × (ready_rows s ≡ row ∷ rows)
              × IsReserved world id row s r)
        → IsCareful s r.0
    by_case s (inl e) = IsCareful-same s r.0 (ap (λ (x : Order × Option Attempt). x.0.attempts) e)
    by_case s (inr (row, rows, e, k)) =
        appended-IsCareful s r.0 _ (ap (λ (x : Order × Option Attempt). x.0.attempts) k.attempt)
          refl

pub mark-IsCareful :
    (code : String) (order : Order) (runs : List Run) → IsCareful order (mark code order runs).order
unfolding record_dispatch_error
mark-IsCareful code order runs = IsCareful-same order (mark code order runs).order (ground arith)
