-- ===== src/Orders/Synced.antt =====
-- What `_sync` keeps of an order: its attempts with their numbers, and at most one of them active.
use doppel_agent.Prelude.{
  ℕ, suc, ◌≤◌, String, ◌≡◌, refl, List, [], ◌∷◌, Option, none, some, arith, if◌then◌else◌, Result,
  ok, ◌>>=◌, ◌>>◌, >>=-eq-ok, length,
}
use mathlib.Core.Path.{subst}
use doppel_agent.Runs.Tables.{Run}
use doppel_agent.Orders.Tables.{TaskRow, Attempt, Order, OrderError, World}
use doppel_agent.Orders.Queries.{at_revision, find_row, active_count, is_of, last_number}
use doppel_agent.Orders.States.{refresh_order}
use doppel_agent.Orders.Sync.{
  run_for, update_attempt, settled, settle_attempt, sync_run, sync_attempt, sync_attempts, sync,
}

-- how many attempts a task has under an execution revision
unfoldable pub count_of : ℕ → String → List Attempt → ℕ
count_of revision id [] = 0
count_of revision id (a ∷ xs) =
    let rest = count_of revision id xs in if is_of revision id a then suc rest else rest

-- an update that leaves a task its attempts and their numbers
unfoldable pub IsUpdate : (Attempt → Attempt) → Type 0
IsUpdate f =
    (a : Attempt)
    → ((f a).revision ≡ a.revision)
      × ((f a).task_id ≡ a.task_id)
      × ((f a).attempt_number ≡ a.attempt_number)

pub count_of-update_attempt :
    (revision : ℕ) (task id : String) (f : Attempt → Attempt) (xs : List Attempt)
    → IsUpdate f
    → (count_of revision task (update_attempt id f xs) ≡ count_of revision task xs)
      × (last_number revision task (update_attempt id f xs) ≡ last_number revision task xs)
      × (length (update_attempt id f xs) ≡ length xs)
unfolding count_of last_number update_attempt IsUpdate
count_of-update_attempt revision task id f [] h = (refl, refl, refl)
count_of-update_attempt revision task id f (a ∷ xs) h =
    let ih = count_of-update_attempt revision task id f xs h in
    (ground (arith, h a, ih.0), ground (arith, h a, ih.1), ground (arith, ih.2))

-- What an operation on the attempts keeps of an order.
pub record IsAdvance (before after : Order) : Type 0 where
  pub counts :
      (revision : ℕ) (task : String)
      → count_of revision task after.attempts ≡ count_of revision task before.attempts
  pub lasts :
      (revision : ℕ) (task : String)
      → last_number revision task after.attempts ≡ last_number revision task before.attempts
  pub attempts : length after.attempts ≡ length before.attempts
  pub single : active_count before.attempts ≤ 1 → active_count after.attempts ≤ 1
  pub status : after.status ≡ before.status
  pub revision : after.active_revision ≡ before.active_revision

same-IsAdvance : (order : Order) → IsAdvance order order
same-IsAdvance order = record {
  counts = λ r t. refl;
  lasts = λ r t. refl;
  attempts = refl;
  single = λ h. h;
  status = refl;
  revision = refl;
}

IsAdvance-trans : (a b c : Order) → IsAdvance a b → IsAdvance b c → IsAdvance a c
IsAdvance-trans a b c f g = record {
  counts = λ r t. ground (arith, f.counts r t, g.counts r t);
  lasts = λ r t. ground (arith, f.lasts r t, g.lasts r t);
  attempts = ground (arith, f.attempts, g.attempts);
  single = λ h. g.single (f.single h);
  status = ground (arith, f.status, g.status);
  revision = ground (arith, f.revision, g.revision);
}

settled-IsUpdate : (run : Run) (a : Attempt) → IsUpdate (settled run)
unfolding IsUpdate
settled-IsUpdate run a b = (refl, refl, refl)

sync_run-IsAdvance :
    (world : World) (a : Attempt) (row : TaskRow) (run : Run) (order after : Order)
    → sync_run world a row run order ≡ ok after
    → IsAdvance order after
unfolding sync_run
sync_run-IsAdvance world a row run order after h =
    let made : settle_attempt run a order ≡ after = ground (arith, h) in
    let few : active_count (settle_attempt run a order).attempts ≤ 1 = ground (arith, h) in
    subst (IsAdvance order) made (record {
      counts = λ r t.
          (count_of-update_attempt r t a.attempt_id (settled run) order.attempts
            (settled-IsUpdate run a)).0;
      lasts = λ r t.
          (count_of-update_attempt r t a.attempt_id (settled run) order.attempts
            (settled-IsUpdate run a)).1;
      attempts =
          (count_of-update_attempt 0 "" a.attempt_id (settled run) order.attempts
            (settled-IsUpdate run a)).2;
      single = λ k. few;
      status = refl;
      revision = refl;
    })

sync_attempt-IsAdvance :
    (world : World) (a : Attempt) (order after : Order)
    → sync_attempt world a order ≡ ok after
    → IsAdvance order after
unfolding sync_attempt
sync_attempt-IsAdvance world a order after h =
    by_row (find_row a.revision a.task_id order.tasks) (run_for a.admission_key world.runs) refl
      refl
  where
    by_row :
        (o : Option TaskRow) (r : Option Run)
        → find_row a.revision a.task_id order.tasks ≡ o
        → run_for a.admission_key world.runs ≡ r
        → IsAdvance order after
    by_row none r e f =
        let same : order ≡ after = ground (arith, e, h) in
        subst (IsAdvance order) same (same-IsAdvance order)
    by_row (some row) none e f =
        let same : order ≡ after = ground (arith, e, f, h) in
        subst (IsAdvance order) same (same-IsAdvance order)
    by_row (some row) (some run) e f =
        sync_run-IsAdvance world a row run order after (ground (arith, e, f, h))

sync_attempts-IsAdvance :
    (world : World) (xs : List Attempt) (order after : Order)
    → sync_attempts world xs order ≡ ok after
    → IsAdvance order after
unfolding sync_attempts
sync_attempts-IsAdvance world [] order after h =
    let same : order ≡ after = ground (arith, h) in
    subst (IsAdvance order) same (same-IsAdvance order)
sync_attempts-IsAdvance world (a ∷ xs) order after h =
    let step = >>=-eq-ok (sync_attempt world a order) (λ x. sync_attempts world xs x) h in
    IsAdvance-trans order step.0 after (sync_attempt-IsAdvance world a order step.0 step.1)
      (sync_attempts-IsAdvance world xs step.0 after step.2)

-- `_sync` advances the attempts and refreshes the order.
pub sync-refreshed :
    (world : World) (order after : Order)
    → sync world order ≡ ok after
    → (advanced : Order) × IsAdvance order advanced × (refresh_order advanced ≡ after)
unfolding sync
sync-refreshed world order after h =
    let step = >>=-eq-ok (sync_attempts world order.attempts order) (λ x. ok (refresh_order x)) h in
    (
      step.0,
      sync_attempts-IsAdvance world order.attempts order step.0 step.1,
      ground (arith, step.2),
    )

-- The operations that begin with `_order`, `_sync` and `_order`.
pub synced-eq-ok {ℓ} :
    {B : Type ℓ} (world : World) (revision : ℕ) (order : Order) (rest : Order → Result OrderError B)
    {b : B}
    → (at_revision revision order >> (sync world order >>= λ s. at_revision revision s >> rest s))
      ≡ ok b
    → (s : Order) × (sync world order ≡ ok s) × (rest s ≡ ok b) × (order.active_revision ≡ revision)
unfolding at_revision
synced-eq-ok world revision order rest h =
    let first = >>=-eq-ok (at_revision revision order) _ h in
    let second = >>=-eq-ok (sync world order) _ first.2 in
    let third = >>=-eq-ok (at_revision revision second.0) _ second.2 in
    (second.0, second.1, third.2, ground (arith, first.1))
