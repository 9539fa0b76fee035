-- ===== src/Plans/Order.antt =====
-- `topological_order`: the order that it returns, and when it raises.
use doppel_agent.Prelude.{
  ℕ, zero, suc, ◌+◌, ◌≤◌, ◌<◌, String, ◌≡◌, refl, inl, inr, true, false, List, [], ◌++◌, some,
  arith, ltb, ◌==◌, Bool-cases, ltb→ge, ltb→lt, length, length-append, all, keep, All, All-map_both,
  All-append, mem, distinct, before, Within, mem-append, before-append_mem, before-append_other,
  distinct-append, All-always, All-of_map, All-keep_test, all-mem-append, Result, ok, err,
}
use mathlib.Core.Path.{subst}
use doppel_agent.Plans.{
  PlanTask, task_id, PlanError, cyclic_dependencies, ids, is_ready, ready, kahn,
}
use doppel_agent.Plans.Rounds.{distinct-ids-keep, Within-ids-keep, kept_of_mem}

-- Each task of `tasks` that `order` holds stands behind all of its dependencies.
abbrev pub IsOrdered : List PlanTask → List String → Type 0
IsOrdered tasks order =
    All (λ t. mem t.id order ≡ true → all (λ d. mem d (before t.id order)) t.dependencies ≡ true)
      tasks

pub record Progress (tasks : List PlanTask) (complete : List String) : Type 0 where
  pub once : distinct complete ≡ true
  pub known : Within complete (ids tasks)
  pub ordered : IsOrdered tasks complete

pub Progress-start : (tasks : List PlanTask) → Progress tasks []
unfolding mem distinct
Progress-start tasks = record {
  once = refl;
  known = tt;
  ordered = All-always tasks (λ t h. ground arith);
}

module _ (tasks : List PlanTask) (complete : List String) where
  ready_fresh : All (λ y. mem y complete ≡ false) (ready tasks complete)
  ready_fresh =
      All-of_map (λ y. mem y complete ≡ false) task_id (keep (is_ready complete) tasks)
        (All-keep_test (λ t. mem t.id complete ≡ false) (is_ready complete) tasks
          (λ t h. ground (arith, h)))

  -- A round adds the ready tasks behind the complete ones.
  Progress-round :
      distinct (ids tasks) ≡ true
      → Progress tasks complete
      → Progress tasks (complete ++ ready tasks complete)
  Progress-round unique inv = record {
    once =
        distinct-append complete (ready tasks complete) inv.once
          (distinct-ids-keep (is_ready complete) tasks unique) ready_fresh;
    known =
        All-append (λ x. mem x (ids tasks) ≡ true) complete (ready tasks complete) inv.known
          (Within-ids-keep (is_ready complete) tasks);
    ordered =
        All-map_both tasks (λ t old new. behind t old new) inv.ordered
          (kept_of_mem (is_ready complete) tasks unique);
  }
    where
      behind :
          (t : PlanTask)
          → (mem t.id complete ≡ true
              → all (λ d. mem d (before t.id complete)) t.dependencies ≡ true)
          → (mem t.id (ready tasks complete) ≡ true → is_ready complete t ≡ true)
          → mem t.id (complete ++ ready tasks complete) ≡ true
          → all (λ d. mem d (before t.id (complete ++ ready tasks complete))) t.dependencies ≡ true
      behind t old new here = elim (Bool-cases (mem t.id complete)) [
        | inl done ↦ rw (before-append_mem t.id complete (ready tasks complete) done) (old done)
        | inr open_still ↦
            rw (before-append_other t.id complete (ready tasks complete) open_still) (
              all-mem-append t.dependencies complete (before t.id (ready tasks complete))
                (ground (arith, new, mem-append t.id complete (ready tasks complete))))
      ]

module _ (tasks : List PlanTask) where
  -- One more than the tasks that are left is fuel enough: a round that goes on adds a task.
  pub kahn_total :
      (fuel : ℕ) (complete : List String)
      → 0 < fuel
      → length tasks < fuel + length complete
      → (r : Result PlanError (List String)) × (kahn fuel tasks complete ≡ some r)
  unfolding kahn
  kahn_total zero complete p h = (ok complete, absurd (omega arith))
  kahn_total (suc fuel) complete p h = elim (Bool-cases (ltb (length complete) (length tasks))) [
    | inr done ↦ (ok complete, rw done refl)
    | inl more ↦ elim (Bool-cases (length (ready tasks complete) == 0)) [
      | inl stuck ↦ (err cyclic_dependencies, rw (more, stuck) refl)
      | inr some_ready ↦
          let again =
            kahn_total fuel (complete ++ ready tasks complete) (ground (arith, more))
              (ground (arith, length-append complete (ready tasks complete))) in
          (again.0, rw (more, some_ready) again.1)
    ]
  ]

  -- Where the loop ends: an order of all the tasks, or a set that no task can be added to.
  abbrev pub End : Result PlanError (List String) → Type 0
  End (ok order) = Progress tasks order × (length tasks ≤ length order)
  End (err e) =
      (e ≡ cyclic_dependencies)
      × ((complete : List String) × Progress tasks complete
          × (length complete < length tasks)
          × (length (ready tasks complete) ≡ 0))

  pub kahn-End :
      distinct (ids tasks) ≡ true
      → (fuel : ℕ) (complete : List String) (r : Result PlanError (List String))
      → Progress tasks complete
      → kahn fuel tasks complete ≡ some r
      → End r
  unfolding kahn
  kahn-End unique zero complete r inv h = absurd (ground arith)
  kahn-End unique (suc fuel) complete r inv h =
      elim (Bool-cases (ltb (length complete) (length tasks))) [
        | inr done ↦
            let e : ok complete ≡ r = ground arith in
            subst End e (inv, ltb→ge (length complete) (length tasks) done)
        | inl more ↦ elim (Bool-cases (length (ready tasks complete) == 0)) [
          | inl stuck ↦
              let e : err cyclic_dependencies ≡ r = ground arith in
              subst End e (refl, (complete, inv, ltb→lt _ _ more, ground (arith, stuck)))
          | inr some_ready ↦
              kahn-End unique fuel (complete ++ ready tasks complete) r
                (Progress-round tasks complete unique inv) (ground arith)
        ]
      ]
