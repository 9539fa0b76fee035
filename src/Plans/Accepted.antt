-- ===== src/Plans/Accepted.antt =====
-- `plan_from_payload` as a whole, and `dispatch_request`.
use doppel_agent.Prelude.{String, ◌≡◌, ◌≢◌, refl, List, some, arith, eq_iff, Result, ok, err}
use doppel_agent.Py.{Value}
use doppel_agent.Plans.{
  PlanTask, WorkOrderPlan, PlanError, topological_order, read_plan, ordered, checked,
  plan_from_payload, ExecutionSettings, no_permissions, dispatch_request,
}
use doppel_agent.Plans.Topological.{IsSchedule, topological_order_total}
use doppel_agent.Plans.Validation.{IsReadPlan}

pub record IsValidPlan (plan : WorkOrderPlan) : Type 0 where
  pub read : IsReadPlan plan
  pub order : List String
  pub schedule : IsSchedule plan.tasks order

-- Every payload, of any shape, is answered: accepted or refused.
pub plan_from_payload_total :
    (payload : Value) → (r : Result PlanError WorkOrderPlan) × (plan_from_payload payload ≡ some r)
unfolding plan_from_payload
plan_from_payload_total payload = answer (read_plan payload) refl
  where
    answer_order :
        (p : WorkOrderPlan)
        → (r : Result PlanError (List String)) × (topological_order p ≡ some r)
        → (r : Result PlanError WorkOrderPlan) × (ordered p (topological_order p) ≡ some r)
    answer_order p (ok order, e) = (ok p, rw e refl)
    answer_order p (err x, e) = (err x, rw e refl)

    answer :
        (r : Result PlanError WorkOrderPlan)
        → read_plan payload ≡ r
        → (q : Result PlanError WorkOrderPlan) × (checked (read_plan payload) ≡ some q)
    answer (err x) e = (err x, rw e refl)
    answer (ok p) e = let (q, k) = answer_order p (topological_order_total p) in (q, rw e k)

-- The request of a task asks for no more than the settings grant, and for nothing at all unless
-- the task's access is `write`.
pub dispatch_request-grants :
    (task : PlanTask) (settings : ExecutionSettings) (key : String)
    → (task.access ≢ "write" → (dispatch_request task settings key).permissions ≡ no_permissions)
      × (task.access ≡ "write"
          → (dispatch_request task settings key).permissions ≡ settings.permissions)
unfolding dispatch_request
dispatch_request-grants task settings key = (
  λ other. ground (arith, eq_iff task.access "write"),
  λ same. ground (arith, eq_iff task.access "write"),
)
