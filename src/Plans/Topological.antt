-- ===== src/Plans/Topological.antt =====
-- `topological_order` as a whole: it returns or raises, what it returns, and why it raises.
use doppel_agent.Prelude.{
  suc, ◌≤◌, String, ◌≡◌, refl, inl, inr, true, List, [], ◌∷◌, some, arith, Bool-cases, length, all,
  All, All-map_both, mem, distinct, before, Within, Within-refl, distinct-covers, Result, ok, err,
}
use doppel_agent.Plans.{
  PlanTask, WorkOrderPlan, PlanError, duplicate_task_id, unknown_dependency, ids, well_linked,
  topological_order,
}
use doppel_agent.Plans.Order.{Progress, Progress-start, kahn_total, kahn-End}

pub length-ids : (tasks : List PlanTask) → length (ids tasks) ≡ length tasks
length-ids [] = refl
length-ids (t ∷ ts) = omega (arith, length-ids ts)

-- `topological_order` ends on every plan: it returns an order or raises.
pub topological_order_total :
    (plan : WorkOrderPlan)
    → (r : Result PlanError (List String)) × (topological_order plan ≡ some r)
unfolding topological_order
topological_order_total plan = elim (Bool-cases (distinct (ids plan.tasks))) [
  | inr repeated ↦ (err duplicate_task_id, rw repeated refl)
  | inl unique ↦ elim (Bool-cases (all (well_linked (ids plan.tasks)) plan.tasks)) [
    | inr dangling ↦ (err unknown_dependency, rw (unique, dangling) refl)
    | inl linked ↦
        let run = kahn_total plan.tasks (suc (length plan.tasks)) [] (omega arith) (omega arith) in
        (run.0, rw (unique, linked) run.1)
  ]
]

pub record IsSchedule (tasks : List PlanTask) (order : List String) : Type 0 where
  pub once : distinct order ≡ true
  pub known : Within order (ids tasks)
  pub every : Within (ids tasks) order
  pub behind : All (λ t. all (λ d. mem d (before t.id order)) t.dependencies ≡ true) tasks

All-Within :
    (tasks : List PlanTask) (order : List String)
    → Within (ids tasks) order
    → All (λ t. mem t.id order ≡ true) tasks
All-Within [] order w = tt
All-Within (t ∷ ts) order w = (w.0, All-Within ts order w.1)

IsSchedule-of_Progress :
    (tasks : List PlanTask) (order : List String)
    → Progress tasks order
    → length tasks ≤ length order
    → IsSchedule tasks order
IsSchedule-of_Progress tasks order inv long = record {
  once = inv.once;
  known = inv.known;
  every = every;
  behind =
      All-map_both tasks (λ t ordered here. ordered here) inv.ordered
        (All-Within tasks order every);
}
  where
    every : Within (ids tasks) order
    every = covered (ids tasks) (Within-refl (ids tasks))
      where
        covered : (xs : List String) → Within xs (ids tasks) → Within xs order
        covered [] w = tt
        covered (x ∷ xs) w = (
          distinct-covers order (ids tasks) x inv.once inv.known (omega (arith, length-ids tasks))
              w.0,
          covered xs w.1,
        )

-- The order that is returned names each task of the plan once and no other, and each dependency
-- of a task stands before the task.
pub topological_order-IsSchedule :
    (plan : WorkOrderPlan) (order : List String)
    → topological_order plan ≡ some (ok order)
    → IsSchedule plan.tasks order
unfolding topological_order
topological_order-IsSchedule plan order h = elim (Bool-cases (distinct (ids plan.tasks))) [
  | inr repeated ↦ absurd (ground arith)
  | inl unique ↦ elim (Bool-cases (all (well_linked (ids plan.tasks)) plan.tasks)) [
    | inr dangling ↦ absurd (ground arith)
    | inl linked ↦
        let (inv, long) =
          kahn-End plan.tasks unique (suc (length plan.tasks)) [] (ok order)
            (Progress-start plan.tasks) (ground arith) in
        IsSchedule-of_Progress plan.tasks order inv long
  ]
]
