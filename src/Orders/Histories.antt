-- ===== src/Orders/Histories.antt =====
-- Any history of one order: the operations of `WorkOrderStore` one after another, the runs being
-- others between each two.
use doppel_agent.Prelude.{ℕ, String, ◌≡◌, Bool, Option, Result, ok, ◌>>=◌}
use doppel_agent.Plans.{WorkOrderPlan}
use doppel_agent.Orders.Tables.{Execution, Order, OrderError, World}
use doppel_agent.Orders.Reserve.{reserve_next}
use doppel_agent.Orders.Control.{
  activate, Action, control, reconcile, record_dispatch_error, abandon_unaccepted, retry_task,
}
use doppel_agent.Orders.Revise.{Changes, replace_draft_plan, revise_plan, new_order}

pub data Operation : Type 0 where
  activates : (revision : ℕ) (options : Execution) → Operation
  controls : (action : Action) (revision : ℕ) → Operation
  reserves : (attempt : String) (revision : ℕ) → Operation
  reconciles : Operation
  records : (code : String) → Operation
  abandons : (attempt : String) (settled : Bool) → Operation
  retries : (task : String) (revision : ℕ) (expected : String) → Operation
  replaces : (plan : WorkOrderPlan) (revision : ℕ) → Operation
  revises : (plan : WorkOrderPlan) (changes : Changes) (revision : ℕ) → Operation

unfoldable pub perform : World → Operation → Order → Result OrderError Order
perform world (activates revision options) order = activate world revision options order
perform world (controls action revision) order = control world action revision order
perform world (reserves attempt revision) order =
    reserve_next world attempt revision order >>= λ r. ok r.0
perform world reconciles order = reconcile world order
perform world (records code) order = record_dispatch_error code order
perform world (abandons attempt settled) order = abandon_unaccepted world attempt settled order
perform world (retries task revision expected) order = retry_task world task revision expected order
perform world (replaces plan revision) order = replace_draft_plan plan revision order
perform world (revises plan changes revision) order = revise_plan world plan changes revision order

-- Orders that a history makes of one that `create` has inserted.
pub data Reach : Order → Type 0 where
  created : (plan : WorkOrderPlan) (key : Option String) → Reach (new_order plan key)
  performed :
      {order after : Order} (world : World) (operation : Operation)
      → Reach order
      → perform world operation order ≡ ok after
      → Reach after
