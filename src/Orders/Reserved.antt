-- ===== src/Orders/Reserved.antt =====
-- What `reserve_next` does to an order.
use doppel_agent.Prelude.{
  suc, ◌≤◌, String, ◌≡◌, refl, not, Option, none, some, arith, ltb, ok, >>=-eq-ok, guard-eq-ok,
}
use doppel_agent.Orders.Tables.{
  TaskRow, Attempt, Binding, Order, World, max_attempts_per_task, attempt_limit,
}
use doppel_agent.Orders.Queries.{active_count, last_number, latest, find_attempt, find_binding}
use doppel_agent.Orders.Reserve.{
  with_attempt, new_attempt, request_of, insert_attempt, reserve_row, is_bound, frozen_input,
  input_of, frozen_profile,
}

insert_attempt-eq-ok :
    (a : Attempt) (order : Order) (r : Order × Option Attempt)
    → insert_attempt a order ≡ ok r
    → (r ≡ (with_attempt a order, some a))
      × (find_attempt a.attempt_id order.attempts ≡ none)
      × (active_count (with_attempt a order).attempts ≤ 1)
unfolding insert_attempt
insert_attempt-eq-ok a order r h = by_found (find_attempt a.attempt_id order.attempts) refl
  where
    by_found :
        (o : Option Attempt)
        → find_attempt a.attempt_id order.attempts ≡ o
        → (r ≡ (with_attempt a order, some a))
          × (find_attempt a.attempt_id order.attempts ≡ none)
          × (active_count (with_attempt a order).attempts ≤ 1)
    by_found (some b) e = absurd (ground (arith, e, h))
    by_found none e = (ground (arith, e, h), e, ground (arith, e, h))

is_bound-eq-ok : (o : Option Binding) (b : Binding) → is_bound o ≡ ok b → o ≡ some b
is_bound-eq-ok none b h = absurd (ground (arith, h))
is_bound-eq-ok (some x) b h = ground (arith, h)

-- The attempt that a row gets, and the order with it.
pub record IsReserved (world : World) (id : String) (row : TaskRow) (order : Order)
    (r : Order × Option Attempt) : Type 0 where
  pub binding : Binding
  pub input : Option String
  pub bound : find_binding row.execution_revision order.contexts ≡ some binding
  pub limit : last_number row.execution_revision row.task.id order.attempts ≤ 2
  pub fresh : find_attempt id order.attempts ≡ none
  pub attempt : r ≡ (
    with_attempt
        (new_attempt id row
          (suc (last_number row.execution_revision row.task.id order.attempts))
          (request_of id row binding order)
          (frozen_profile (request_of id row binding order).profile order.execution.profiles)
          input)
        order,
    some (
        new_attempt id row
          (suc (last_number row.execution_revision row.task.id order.attempts))
          (request_of id row binding order)
          (frozen_profile (request_of id row binding order).profile order.execution.profiles)
          input),
  )
  pub retried_input :
      1 ≤ last_number row.execution_revision row.task.id order.attempts
      → input ≡ input_of (latest row.execution_revision row.task.id order.attempts)
  pub single : active_count r.0.attempts ≤ 1

pub reserve_row-IsReserved :
    (world : World) (id : String) (row : TaskRow) (order : Order) (r : Order × Option Attempt)
    → reserve_row world id row order ≡ ok r
    → IsReserved world id row order r
unfolding reserve_row
reserve_row-IsReserved world id row order r h =
    let number = suc (last_number row.execution_revision row.task.id order.attempts) in
    let first = guard-eq-ok (not (ltb max_attempts_per_task number)) attempt_limit _ h in
    let second =
      >>=-eq-ok (is_bound (find_binding row.execution_revision order.contexts)) _ first.1 in
    let third = >>=-eq-ok (frozen_input world number row second.0 order) _ second.2 in
    let made = insert_attempt-eq-ok _ order r third.2 in
    record {
      binding = second.0;
      input = third.0;
      bound = is_bound-eq-ok (find_binding row.execution_revision order.contexts) second.0 second.1;
      limit = ground (arith, first.0);
      fresh = made.1;
      attempt = made.0;
      retried_input = λ k. ground (arith, third.1, k);
      single = ground (arith, made.0, made.2);
    }
