-- ===== src/Orders/Attempts.antt =====
-- The invariant of the attempts of an order, and what keeps it.
use doppel_agent.Prelude.{
  ℕ, suc, ◌≤◌, String, ◌≡◌, refl, Bool, true, ◌&&◌, List, [], ◌∷◌, ◌++◌, arith, eq_iff, ltb,
  if◌then◌else◌, ok, length,
}
use mathlib.Core.Path.{subst}
use doppel_agent.Orders.Tables.{
  OrderStatus, draft, paused, TaskRow, Attempt, Order, World, same_order_status,
}
use doppel_agent.Orders.Queries.{active_count, is_of, last_number}
use doppel_agent.Orders.States.{refresh_order, refreshed_status, blocked_rows}
use doppel_agent.Orders.Sync.{sync}
use doppel_agent.Orders.Reserve.{with_attempt}
use doppel_agent.Orders.Synced.{count_of, IsAdvance, sync-refreshed}

abbrev pub is_draft : OrderStatus → Bool
is_draft status = same_order_status status draft

pub record IsSound (order : Order) : Type 0 where
  pub single : active_count order.attempts ≤ 1
  pub counted :
      (revision : ℕ) (task : String)
      → count_of revision task order.attempts ≤ last_number revision task order.attempts
  pub limited : (revision : ℕ) (task : String) → last_number revision task order.attempts ≤ 3
  pub undispatched : is_draft order.status ≡ true → length order.attempts ≡ 0

refreshed_status-draft :
    (status : OrderStatus) (revision : ℕ) (rows : List TaskRow)
    → is_draft (refreshed_status status revision rows) ≡ true
    → is_draft status ≡ true
unfolding refreshed_status
refreshed_status-draft draft revision rows h = refl
refreshed_status-draft OrderStatus.cancelled revision rows h = ground (arith, h)
refreshed_status-draft OrderStatus.queued revision rows h = ground (arith, h)
refreshed_status-draft OrderStatus.running revision rows h = ground (arith, h)
refreshed_status-draft paused revision rows h = ground (arith, h)
refreshed_status-draft OrderStatus.succeeded revision rows h = ground (arith, h)
refreshed_status-draft OrderStatus.failed revision rows h = ground (arith, h)

pub refresh_order-IsSound : (order : Order) → IsSound order → IsSound (refresh_order order)
unfolding refresh_order
refresh_order-IsSound order s = record {
  single = s.single;
  counted = s.counted;
  limited = s.limited;
  undispatched = λ h.
      s.undispatched
        (refreshed_status-draft order.status order.active_revision (blocked_rows order) h);
}

advance-IsSound : (before after : Order) → IsAdvance before after → IsSound before → IsSound after
advance-IsSound before after a s = record {
  single = a.single s.single;
  counted = λ r t. ground (arith, a.counts r t, a.lasts r t, s.counted r t);
  limited = λ r t. ground (arith, a.lasts r t, s.limited r t);
  undispatched = λ h. ground (arith, h, a.status, a.attempts, s.undispatched);
}

pub sync-IsSound :
    (world : World) (order after : Order)
    → sync world order ≡ ok after
    → IsSound order
    → IsSound after
sync-IsSound world order after h s =
    let r = sync-refreshed world order after h in
    subst IsSound r.2 (refresh_order-IsSound r.0 (advance-IsSound order r.0 r.1 s))

-- An order whose attempts are as they were.
pub kept-IsSound :
    (before after : Order)
    → after.attempts ≡ before.attempts
    → (is_draft after.status ≡ true → is_draft before.status ≡ true)
    → IsSound before
    → IsSound after
kept-IsSound before after e d s = record {
  single = ground (arith, e, s.single);
  counted = λ r t. ground (arith, e, s.counted r t);
  limited = λ r t. ground (arith, e, s.limited r t);
  undispatched = λ h. ground (arith, e, h, d, s.undispatched);
}

count_of-append :
    (revision : ℕ) (task : String) (xs : List Attempt) (a : Attempt)
    → count_of revision task (xs ++ (a ∷ [])) ≡ (
        if is_of revision task a
        then suc (count_of revision task xs)
        else count_of revision task xs)
unfolding count_of
count_of-append revision task [] a = ground arith
count_of-append revision task (x ∷ xs) a = ground (arith, count_of-append revision task xs a)

last_number-append :
    (revision : ℕ) (task : String) (xs : List Attempt) (a : Attempt)
    → last_number revision task (xs ++ (a ∷ [])) ≡ (
        if is_of revision task a && ltb (last_number revision task xs) a.attempt_number
        then a.attempt_number
        else last_number revision task xs)
unfolding last_number
last_number-append revision task [] a = ground arith
last_number-append revision task (x ∷ xs) a = ground (arith, last_number-append revision task xs a)

pub with_attempt-IsSound :
    (a : Attempt) (order : Order)
    → a.attempt_number ≡ suc (last_number a.revision a.task_id order.attempts)
    → last_number a.revision a.task_id order.attempts ≤ 2
    → active_count (with_attempt a order).attempts ≤ 1
    → IsSound order
    → IsSound (with_attempt a order)
with_attempt-IsSound a order n l one s = record {
  single = one;
  counted = λ r t. ground (
    arith,
    count_of-append r t order.attempts a,
    last_number-append r t order.attempts a,
    s.counted r t,
    n,
    eq_iff a.task_id t,
  );
  limited = λ r t.
      ground
        (arith, last_number-append r t order.attempts a, s.limited r t, n, l, eq_iff a.task_id t);
  undispatched = λ h. absurd (ground (arith, h));
}
