-- ===== src/Orders/Dispatch.antt =====
-- What `reserve_next` promises of an attempt that it makes.
use doppel_agent.Prelude.{
  ℕ, suc, ◌≤◌, String, ◌≡◌, refl, Bool, true, false, not, List, [], ◌∷◌, ◌++◌, some, arith,
  if◌then◌else◌, ok, all, keep, inl, inr,
}
use doppel_agent.Plans.{dispatch_request}
use doppel_agent.Orders.Tables.{
  OrderStatus, reserved, IntentState, TaskRow, Attempt, Order, World, is_active, is_pending,
  is_open,
}
use doppel_agent.Orders.Queries.{
  find_row, active_count, last_number, holds_back, is_free, ready_rows,
}
use doppel_agent.Orders.Sync.{sync}
use doppel_agent.Orders.Reserve.{admission_key, reserve_next}
use doppel_agent.Orders.Effects.{reserve_next-effect}
use doppel_agent.Orders.Reserved.{IsReserved}

-- An attempt for a task of the current plan whose parents have all succeeded, while no other attempt
-- of the order is active.
pub record IsDispatched (world : World) (id : String) (revision : ℕ) (order after : Order)
    (a : Attempt) : Type 0 where
  pub synced : Order
  pub is_synced : sync world order ≡ ok synced
  pub row : TaskRow
  pub current : (row.revision ≡ synced.active_revision) × (order.active_revision ≡ revision)
  pub waiting : is_pending row.status ≡ true
  pub parents :
      all
        (λ d. not (holds_back (find_row synced.active_revision d synced.tasks)))
        row.task.dependencies
      ≡ true
  pub was_open : is_open synced.status ≡ true
  pub idle : active_count synced.attempts ≡ 0
  pub task : (a.task_id ≡ row.task.id) × (a.revision ≡ row.execution_revision)
  pub number :
      a.attempt_number ≡ suc (last_number row.execution_revision row.task.id synced.attempts)
  pub limit : a.attempt_number ≤ 3
  pub key : (a.admission_key ≡ admission_key id) × (a.request.idempotency_key ≡ a.admission_key)
  pub state : (a.status ≡ reserved) × (a.state ≡ IntentState.pending)
  pub attempts : after.attempts ≡ synced.attempts ++ (a ∷ [])
  pub alone : active_count after.attempts ≡ 1
  pub running : after.status ≡ OrderStatus.running

keep-head :
    (p : TaskRow → Bool) (xs : List TaskRow) (x : TaskRow) (ys : List TaskRow)
    → keep p xs ≡ x ∷ ys
    → p x ≡ true
keep-head p [] x ys h = absurd (ground (arith, h))
keep-head p (z ∷ zs) x ys h = ground (arith, h, keep-head p zs x ys)

both_counted :
    (b c : Bool) (m n : ℕ)
    → m ≡ (if c then suc n else n)
    → (if b then suc m else m)
      ≡ (if c then suc (if b then suc n else n) else (if b then suc n else n))
both_counted true true m n h = omega (arith, h)
both_counted true false m n h = omega (arith, h)
both_counted false true m n h = omega (arith, h)
both_counted false false m n h = omega (arith, h)

active_count-append :
    (xs : List Attempt) (a : Attempt)
    → active_count (xs ++ (a ∷ []))
      ≡ (if is_active a.status then suc (active_count xs) else active_count xs)
unfolding active_count
active_count-append [] a = refl
active_count-append (x ∷ xs) a =
    both_counted (is_active x.status) (is_active a.status) _ _ (active_count-append xs a)

pub ready_rows-head :
    (order : Order) (row : TaskRow) (rows : List TaskRow)
    → ready_rows order ≡ row ∷ rows
    → (is_open order.status ≡ true)
      × (active_count order.attempts ≡ 0)
      × (is_free order.active_revision order.tasks row ≡ true)
unfolding ready_rows
ready_rows-head order row rows h = (
  ground (arith, h),
  ground (arith, h),
  keep-head (is_free order.active_revision order.tasks) order.tasks row rows (ground (arith, h)),
)

-- An attempt that `reserve_next` returns is for a pending task of the plan in force whose
-- dependencies have all succeeded. It is the only active one of its order, which was open and now
-- runs, it is numbered behind the task's earlier attempts, at most 3, and its intent waits under a key of its own.
pub reserve_next-IsDispatched :
    (world : World) (id : String) (revision : ℕ) (order after : Order) (a : Attempt)
    → reserve_next world id revision order ≡ ok (after, some a)
    → IsDispatched world id revision order after a
unfolding dispatch_request
reserve_next-IsDispatched world id revision order after a h =
    let q = reserve_next-effect world id revision order (after, some a) h in
    elim q.3 [
      | inl same ↦ absurd (ground (arith, same))
      | inr (row, rows, ready, made) ↦
          reserved_row q.0 row q.1 q.2 (ready_rows-head q.0 row rows ready) made
    ]
  where
    reserved_row :
        (s : Order) (row : TaskRow)
        → order.active_revision ≡ revision
        → sync world order ≡ ok s
        → (is_open s.status ≡ true)
          × (active_count s.attempts ≡ 0)
          × (is_free s.active_revision s.tasks row ≡ true)
        → IsReserved world id row s (after, some a)
        → IsDispatched world id revision order after a
    reserved_row s row now e free made =
        let both = made.attempt in
        record {
          synced = s;
          is_synced = e;
          row = row;
          current = (ground (arith, free.2), now);
          waiting = ground (arith, free.2);
          parents = ground (arith, free.2);
          was_open = free.0;
          idle = free.1;
          task = (ground (arith, both), ground (arith, both));
          number = ground (arith, both);
          limit = ground (arith, both, made.limit);
          key = (ground (arith, both), ground (arith, both));
          state = (ground (arith, both), ground (arith, both));
          attempts = ground (arith, both);
          alone = ground (arith, both, free.1, active_count-append s.attempts a);
          running = ground (arith, both);
        }
