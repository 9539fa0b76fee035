-- ===== src/Plans/Cycles.antt =====
-- `topological_order` raises for cycles only: a plan whose dependencies can be ranked is ordered.
use doppel_agent.Prelude.{
  ℕ, zero, suc, ◌<◌, String, ◌≡◌, refl, inl, inr, true, false, not, List, [], ◌∷◌, some, arith,
  Bool-cases, &&-split, &&-join, length, all, keep, All, All-map_both, All-always, All-mem, mem,
  distinct, Within, Within-refl, distinct-length-le, Result, ok, err, All-of_map,
}
use doppel_agent.Plans.{
  PlanTask, task_id, WorkOrderPlan, PlanError, ids, is_ready, well_linked, topological_order,
}
use doppel_agent.Plans.Order.{Progress-start, kahn-End}
use doppel_agent.Plans.Topological.{topological_order_total, length-ids}

-- `rank` puts every dependency of a task below the task.
abbrev pub IsRanked : (String → ℕ) → List PlanTask → Type 0
IsRanked rank tasks = All (λ t. All (λ d. rank d < rank t.id) t.dependencies) tasks

-- The dependencies of every task are ids of the plan.
abbrev IsLinked : List String → List PlanTask → Type 0
IsLinked known tasks = All (λ t. Within t.dependencies known) tasks

Within-of_all : (known ds : List String) → all (λ d. mem d known) ds ≡ true → Within ds known
Within-of_all known [] h = tt
Within-of_all known (d ∷ ds) h =
    let (here, rest) = &&-split (mem d known) (all (λ e. mem e known) ds) h in
    (here, Within-of_all known ds rest)

IsLinked-of_all :
    (known : List String) (tasks : List PlanTask)
    → all (well_linked known) tasks ≡ true
    → IsLinked known tasks
IsLinked-of_all known [] h = tt
IsLinked-of_all known (t ∷ ts) h =
    let (here, rest) = &&-split (well_linked known t) (all (well_linked known) ts) h in
    let (other, inside) =
      &&-split (not (mem t.id t.dependencies)) (all (λ d. mem d known) t.dependencies) here in
    (Within-of_all known t.dependencies inside, IsLinked-of_all known ts rest)

none_ready :
    (complete : List String) (tasks : List PlanTask)
    → length (ids (keep (is_ready complete) tasks)) ≡ 0
    → All (λ t. is_ready complete t ≡ false) tasks
none_ready complete [] h = tt
none_ready complete (t ∷ ts) h = elim (Bool-cases (is_ready complete t)) [
  | inl e ↦
      absurd
        (let h' : suc (length (ids (keep (is_ready complete) ts))) ≡ 0 = rw e at h in omega arith)
  | inr e ↦ (e, none_ready complete ts (rw e at h))
]

all_of_below :
    (complete : List String) (ds : List String)
    → All (λ d. mem d complete ≡ true) ds
    → all (λ d. mem d complete) ds ≡ true
all_of_below complete [] h = refl
all_of_below complete (d ∷ ds) h = &&-join _ _ h.0 (all_of_below complete ds h.1)

module _ (rank : String → ℕ) (tasks : List PlanTask) (complete : List String)
    (ranked : IsRanked rank tasks) (linked : IsLinked (ids tasks) tasks)
    (idle : All (λ t. is_ready complete t ≡ false) tasks) where
  -- With no task ready, every task of a rank below `n` is complete, for every `n`.
  low_ranks_complete : (n : ℕ) → All (λ x. rank x < n → mem x complete ≡ true) (ids tasks)
  low_ranks_complete zero = All-always (ids tasks) (λ x h. absurd (omega arith))
  low_ranks_complete (suc n) =
      let steps : All
          (λ t.
            All (λ d. rank d < rank t.id) t.dependencies
            → rank t.id < suc n
            → mem t.id complete ≡ true)
          tasks =
        All-map_both tasks (λ t l i below. step (low_ranks_complete n) t below l i) linked idle in
      All-of_map (λ x. rank x < suc n → mem x complete ≡ true) task_id tasks
        (All-map_both tasks (λ t below rest. rest below) ranked steps)
    where
      step :
          All (λ x. rank x < n → mem x complete ≡ true) (ids tasks)
          → (t : PlanTask) → All (λ d. rank d < rank t.id) t.dependencies
          → Within t.dependencies (ids tasks)
          → is_ready complete t ≡ false
          → rank t.id < suc n
          → mem t.id complete ≡ true
      step lower t below inside waits low = elim (Bool-cases (mem t.id complete)) [
        | inl done ↦ done
        | inr left ↦
            let deps : all (λ d. mem d complete) t.dependencies ≡ true =
              all_of_below complete t.dependencies (
                All-map_both t.dependencies
                  (λ d b k.
                    All-mem (λ x. rank x < n → mem x complete ≡ true) (ids tasks) d lower k
                      (omega arith))
                  below inside) in
            absurd (ground (arith, left, deps, waits))
      ]

  all_complete : Within (ids tasks) complete
  all_complete = covered (ids tasks) (Within-refl (ids tasks))
    where
      covered : (xs : List String) → Within xs (ids tasks) → Within xs complete
      covered [] w = tt
      covered (x ∷ xs) w = (
        All-mem (λ y. rank y < suc (rank x) → mem y complete ≡ true) (ids tasks) x
            (low_ranks_complete (suc (rank x))) w.0 (omega arith),
        covered xs w.1,
      )

-- A plan with distinct ids and known dependencies that some ranking puts below their tasks is
-- ordered: no cycle is reported.
pub acyclic-topological_order :
    (plan : WorkOrderPlan) (rank : String → ℕ)
    → distinct (ids plan.tasks) ≡ true
    → all (well_linked (ids plan.tasks)) plan.tasks ≡ true
    → IsRanked rank plan.tasks
    → (order : List String) × (topological_order plan ≡ some (ok order))
unfolding topological_order
acyclic-topological_order plan rank unique linked ranked = conclude (topological_order_total plan)
  where
    conclude :
        (r : Result PlanError (List String)) × (topological_order plan ≡ some r)
        → (order : List String) × (topological_order plan ≡ some (ok order))
    conclude (ok order, e) = (order, e)
    conclude (err x, e) =
        let (which, stop) =
          kahn-End plan.tasks unique (suc (length plan.tasks)) [] (err x)
            (Progress-start plan.tasks) (rw (unique, linked) at e) in
        let (complete, inv, short, idle) = stop in
        let every =
          all_complete rank plan.tasks complete ranked
            (IsLinked-of_all (ids plan.tasks) plan.tasks linked)
            (none_ready complete plan.tasks idle) in
        absurd (
          omega (
            arith,
            length-ids plan.tasks,
            distinct-length-le (ids plan.tasks) complete unique every,
          ))
