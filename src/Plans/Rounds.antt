-- ===== src/Plans/Rounds.antt =====
-- What one round of the loop in `topological_order` keeps.
use doppel_agent.Prelude.{
  String, ◌≡◌, refl, Bool, true, false, List, [], ◌∷◌, arith, eq_iff, if◌then◌else◌, keep, All,
  All-map, All-map_both, mem, distinct, Within, Within-weaken, mem-cons_self,
}
use doppel_agent.Plans.{PlanTask, ids}

module _ (p : PlanTask → Bool) where
  pub mem-ids-keep :
      (x : String) (tasks : List PlanTask)
      → mem x (ids tasks) ≡ false
      → mem x (ids (keep p tasks)) ≡ false
  unfolding mem
  mem-ids-keep x [] h = refl
  mem-ids-keep x (t ∷ ts) h = ground (arith, mem-ids-keep x ts)

  pub distinct-ids-keep :
      (tasks : List PlanTask) → distinct (ids tasks) ≡ true → distinct (ids (keep p tasks)) ≡ true
  unfolding distinct
  distinct-ids-keep [] h = refl
  distinct-ids-keep (t ∷ ts) h = ground (arith, mem-ids-keep t.id ts, distinct-ids-keep ts)

  pub Within-ids-keep : (tasks : List PlanTask) → Within (ids (keep p tasks)) (ids tasks)
  Within-ids-keep [] = tt
  Within-ids-keep (t ∷ ts) =
      split (p t) (Within-weaken (ids (keep p ts)) (ids ts) t.id (Within-ids-keep ts))
    where
      split :
          (b : Bool)
          → Within (ids (keep p ts)) (ids (t ∷ ts))
          → Within (ids (if b then t ∷ keep p ts else keep p ts)) (ids (t ∷ ts))
      split true w = (mem-cons_self t.id (ids ts), w)
      split false w = w

pub mem-ids_self : (tasks : List PlanTask) → All (λ t. mem t.id (ids tasks) ≡ true) tasks
unfolding mem
mem-ids_self [] = tt
mem-ids_self (t ∷ ts) =
    (ground (arith, eq_iff t.id t.id), All-map ts (λ u h. ground (arith, h)) (mem-ids_self ts))

-- With distinct ids, the id of a task is among the kept ids only if the task itself is kept.
pub kept_of_mem :
    (p : PlanTask → Bool) (tasks : List PlanTask)
    → distinct (ids tasks) ≡ true
    → All (λ t. mem t.id (ids (keep p tasks)) ≡ true → p t ≡ true) tasks
unfolding mem distinct
kept_of_mem p [] d = tt
kept_of_mem p (t ∷ ts) d = (
  λ h. ground (arith, mem-ids-keep p t.id ts),
  All-map_both ts (λ u later known h. ground (arith, later, known, eq_iff t.id u.id))
      (kept_of_mem p ts (ground arith)) (mem-ids_self ts),
)
