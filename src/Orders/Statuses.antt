-- ===== src/Orders/Statuses.antt =====
-- The statuses of an order as an abstract machine that every operation keeps to.
use doppel_agent.Prelude.{
  ℕ, suc, String, ◌≡◌, refl, Bool, true, false, ◌||◌, List, Option, some, arith, ok, inl, inr,
  >>=-eq-ok, length,
}
use doppel_agent.Orders.Tables.{
  Attempt, Execution, OrderStatus, draft, queued, paused, TaskRow, Order, World, same_order_status,
  is_open,
}
use doppel_agent.Orders.States.{refresh_order, refreshed_status, blocked_rows}
use doppel_agent.Orders.Sync.{sync}
use doppel_agent.Orders.Reserve.{reserve_next}
use doppel_agent.Orders.Control.{
  activate, Action, pause, resume, cancel, controlled, stopped_status, is_stopped,
  record_dispatch_error, reconcile, abandon_attempt, retried,
}
use doppel_agent.Orders.Revise.{is_terminal, revised_status, revised, insert_plan}
use doppel_agent.Orders.Synced.{sync-refreshed}
use doppel_agent.Orders.Dispatch.{ready_rows-head}
use doppel_agent.Orders.Effects.{
  activate-effect, control-effect, reserve_next-effect, abandon-effect, retry_task-effect,
  replace-effect, revise-effect,
}
use doppel_agent.Orders.Histories.{
  Operation, activates, controls, reserves, reconciles, records, abandons, retries, replaces,
  revises, perform,
}

-- The machine, as a table of the statuses that one operation may lead to.
abbrev pub moves : OrderStatus → OrderStatus → Bool
moves draft draft = true
moves draft queued = true
moves draft OrderStatus.cancelled = true
moves draft _ = false
moves queued draft = false
moves queued _ = true
moves OrderStatus.running draft = false
moves OrderStatus.running queued = false
moves OrderStatus.running _ = true
moves paused paused = true
moves paused queued = true
moves paused OrderStatus.succeeded = true
moves paused OrderStatus.failed = true
moves paused OrderStatus.cancelled = true
moves paused _ = false
moves OrderStatus.failed draft = false
moves OrderStatus.failed queued = false
moves OrderStatus.failed OrderStatus.running = false
moves OrderStatus.failed _ = true
moves OrderStatus.succeeded draft = false
moves OrderStatus.succeeded queued = false
moves OrderStatus.succeeded OrderStatus.running = false
moves OrderStatus.succeeded _ = true
moves OrderStatus.cancelled OrderStatus.cancelled = true
moves OrderStatus.cancelled _ = false

-- what `_refresh_order` may do to a status
abbrev pub settles : OrderStatus → OrderStatus → Bool
settles draft after = same_order_status after draft
settles OrderStatus.cancelled after = same_order_status after OrderStatus.cancelled
settles paused after =
    same_order_status after paused || same_order_status after OrderStatus.succeeded
settles before after =
    same_order_status after before
    || (same_order_status after OrderStatus.succeeded || same_order_status after OrderStatus.failed)

refreshed_status-settles :
    (status : OrderStatus) (revision : ℕ) (rows : List TaskRow)
    → settles status (refreshed_status status revision rows) ≡ true
unfolding refreshed_status
refreshed_status-settles draft revision rows = refl
refreshed_status-settles OrderStatus.cancelled revision rows = refl
refreshed_status-settles queued revision rows = ground arith
refreshed_status-settles OrderStatus.running revision rows = ground arith
refreshed_status-settles paused revision rows = ground arith
refreshed_status-settles OrderStatus.succeeded revision rows = ground arith
refreshed_status-settles OrderStatus.failed revision rows = ground arith

settles-moves : (a b : OrderStatus) → settles a b ≡ true → moves a b ≡ true
settles-moves draft b h = ground (arith, h)
settles-moves queued b h = ground (arith, h)
settles-moves OrderStatus.running b h = ground (arith, h)
settles-moves paused b h = ground (arith, h)
settles-moves OrderStatus.succeeded b h = ground (arith, h)
settles-moves OrderStatus.failed b h = ground (arith, h)
settles-moves OrderStatus.cancelled b h = ground (arith, h)

moves_refl : (a : OrderStatus) → moves a a ≡ true
moves_refl draft = refl
moves_refl queued = refl
moves_refl OrderStatus.running = refl
moves_refl paused = refl
moves_refl OrderStatus.succeeded = refl
moves_refl OrderStatus.failed = refl
moves_refl OrderStatus.cancelled = refl

controlled-moves :
    (action : Action) (a b c : OrderStatus)
    → settles a b ≡ true
    → controlled action b ≡ some c
    → moves a c ≡ true
controlled-moves pause draft b c h k = ground (arith, h, k)
controlled-moves pause queued b c h k = ground (arith, h, k)
controlled-moves pause OrderStatus.running b c h k = ground (arith, h, k)
controlled-moves pause paused b c h k = ground (arith, h, k)
controlled-moves pause OrderStatus.succeeded b c h k = ground (arith, h, k)
controlled-moves pause OrderStatus.failed b c h k = ground (arith, h, k)
controlled-moves pause OrderStatus.cancelled b c h k = ground (arith, h, k)
controlled-moves resume draft b c h k = ground (arith, h, k)
controlled-moves resume queued b c h k = ground (arith, h, k)
controlled-moves resume OrderStatus.running b c h k = ground (arith, h, k)
controlled-moves resume paused b c h k = ground (arith, h, k)
controlled-moves resume OrderStatus.succeeded b c h k = ground (arith, h, k)
controlled-moves resume OrderStatus.failed b c h k = ground (arith, h, k)
controlled-moves resume OrderStatus.cancelled b c h k = ground (arith, h, k)
controlled-moves cancel draft b c h k = ground (arith, h, k)
controlled-moves cancel queued b c h k = ground (arith, h, k)
controlled-moves cancel OrderStatus.running b c h k = ground (arith, h, k)
controlled-moves cancel paused b c h k = ground (arith, h, k)
controlled-moves cancel OrderStatus.succeeded b c h k = ground (arith, h, k)
controlled-moves cancel OrderStatus.failed b c h k = ground (arith, h, k)
controlled-moves cancel OrderStatus.cancelled b c h k = ground (arith, h, k)

opened-moves :
    (a b : OrderStatus) → settles a b ≡ true → is_open b ≡ true → moves a OrderStatus.running ≡ true
opened-moves draft b h k = absurd (ground (arith, h, k))
opened-moves queued b h k = refl
opened-moves OrderStatus.running b h k = refl
opened-moves paused b h k = absurd (ground (arith, h, k))
opened-moves OrderStatus.succeeded b h k = absurd (ground (arith, h, k))
opened-moves OrderStatus.failed b h k = absurd (ground (arith, h, k))
opened-moves OrderStatus.cancelled b h k = absurd (ground (arith, h, k))

stopped-moves : (a : OrderStatus) → moves a (stopped_status a) ≡ true
stopped-moves draft = refl
stopped-moves queued = refl
stopped-moves OrderStatus.running = refl
stopped-moves paused = refl
stopped-moves OrderStatus.succeeded = refl
stopped-moves OrderStatus.failed = refl
stopped-moves OrderStatus.cancelled = refl

settles-twice_moves :
    (a b c : OrderStatus) → settles a b ≡ true → settles b c ≡ true → moves a c ≡ true
settles-twice_moves draft b c h k = ground (arith, h, k)
settles-twice_moves queued b c h k = ground (arith, h, k)
settles-twice_moves OrderStatus.running b c h k = ground (arith, h, k)
settles-twice_moves paused b c h k = ground (arith, h, k)
settles-twice_moves OrderStatus.succeeded b c h k = ground (arith, h, k)
settles-twice_moves OrderStatus.failed b c h k = ground (arith, h, k)
settles-twice_moves OrderStatus.cancelled b c h k = ground (arith, h, k)

retried-moves :
    (a b c : OrderStatus)
    → settles a b ≡ true
    → is_stopped b ≡ true
    → settles paused c ≡ true
    → moves a c ≡ true
retried-moves draft b c h k m = absurd (ground (arith, h, k))
retried-moves queued b c h k m = ground (arith, m)
retried-moves OrderStatus.running b c h k m = ground (arith, m)
retried-moves paused b c h k m = ground (arith, m)
retried-moves OrderStatus.succeeded b c h k m = ground (arith, m)
retried-moves OrderStatus.failed b c h k m = ground (arith, m)
retried-moves OrderStatus.cancelled b c h k m = absurd (ground (arith, h, k))

revised-moves :
    (a b c : OrderStatus)
    → settles a b ≡ true
    → is_terminal b ≡ false
    → settles (revised_status b) c ≡ true
    → moves a c ≡ true
revised-moves a draft c h k m = ground (arith, h, k, m)
revised-moves a queued c h k m = ground (arith, h, k, m)
revised-moves a OrderStatus.running c h k m = ground (arith, h, k, m)
revised-moves a paused c h k m = ground (arith, h, k, m)
revised-moves a OrderStatus.succeeded c h k m = ground (arith, h, k, m)
revised-moves a OrderStatus.failed c h k m = ground (arith, h, k, m)
revised-moves a OrderStatus.cancelled c h k m = ground (arith, h, k, m)

-- the status that `_sync` leaves
pub sync-settles :
    (world : World) (order after : Order)
    → sync world order ≡ ok after
    → (settles order.status after.status ≡ true) × (length after.attempts ≡ length order.attempts)
unfolding refresh_order
sync-settles world order after h =
    let q = sync-refreshed world order after h in
    (
      ground (
        arith,
        q.2,
        q.1.status,
        refreshed_status-settles q.0.status q.0.active_revision (blocked_rows q.0),
      ),
      ground (arith, q.2, q.1.attempts),
    )

reserved-moves :
    (world : World) (id : String) (revision : ℕ) (order : Order) (r : Order × Option Attempt)
    → reserve_next world id revision order ≡ ok r
    → moves order.status r.0.status ≡ true
reserved-moves world id revision order r h =
    let q = reserve_next-effect world id revision order r h in
    let settled = (sync-settles world order q.0 q.2).0 in
    elim q.3 [
      | inl same ↦ ground (arith, same, settles-moves order.status q.0.status settled)
      | inr (row, rows, ready, made) ↦ ground (
        arith,
        made.attempt,
        opened-moves order.status q.0.status settled (ready_rows-head q.0 row rows ready).0,
      )
    ]

activated-moves :
    (world : World) (revision : ℕ) (options : Execution) (order after : Order)
    → activate world revision options order ≡ ok after
    → moves order.status after.status ≡ true
activated-moves world revision options order after h =
    elim (activate-effect world revision options order after h).1 [
      | inl same ↦ ground (arith, same, moves_refl order.status)
      | inr (snapshot, d, made) ↦ ground (arith, d, made)
    ]

-- Every operation that returns moves the status of its order as the machine does: a draft is
-- activated or cancelled, only a paused order is queued again, only an open one comes to run, and a
-- cancelled one stays cancelled.
pub perform-moves :
    (world : World) (operation : Operation) (order after : Order)
    → perform world operation order ≡ ok after
    → moves order.status after.status ≡ true
unfolding perform reconcile record_dispatch_error refresh_order insert_plan
perform-moves world (activates revision options) order after h =
    activated-moves world revision options order after h
perform-moves world (controls action revision) order after h =
    let q = control-effect world action revision order after h in
    ground (
      arith,
      q.5,
      controlled-moves action order.status q.0.status q.1 (sync-settles world order q.0 q.3).0 q.4,
    )
perform-moves world (reserves attempt revision) order after h =
    let q = >>=-eq-ok (reserve_next world attempt revision order) (λ r. ok r.0) h in
    ground (arith, q.2, reserved-moves world attempt revision order q.0 q.1)
perform-moves world reconciles order after h =
    settles-moves order.status after.status (sync-settles world order after h).0
perform-moves world (records code) order after h = ground (arith, h, stopped-moves order.status)
perform-moves world (abandons attempt settled) order after h =
    let q = abandon-effect world attempt settled order after h in
    let last =
      refreshed_status-settles q.0.status q.0.active_revision
        (blocked_rows (abandon_attempt q.1 q.0)) in
    ground (
      arith,
      q.5,
      settles-twice_moves order.status q.0.status after.status (sync-settles world order q.0 q.2).0
          (ground (arith, q.5, last)),
    )
perform-moves world (retries task revision expected) order after h =
    let q = retry_task-effect world task revision expected order after h in
    retried-moves order.status q.0.status after.status (sync-settles world order q.0 q.3).0 q.4 (
      ground (
        arith,
        q.7,
        refreshed_status-settles paused q.0.active_revision
            (blocked_rows (retried revision q.1 q.0)),
      ))
perform-moves world (replaces plan revision) order after h =
    let q = replace-effect plan revision order after h in
    ground (arith, q.4, moves_refl order.status)
perform-moves world (revises plan changes revision) order after h =
    let q = revise-effect world plan changes revision order after h in
    let last =
      refreshed_status-settles (revised_status q.0.status) (suc revision)
        (blocked_rows (revised revision q.1 q.2 q.3 q.0)) in
    revised-moves order.status q.0.status after.status (sync-settles world order q.0 q.5).0 q.6
      (ground (arith, q.7, last))
