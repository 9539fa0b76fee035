-- ===== src/Plans/Validation.antt =====
-- What `plan_from_payload` guarantees of an accepted plan.
use doppel_agent.Prelude.{
  ℕ, suc, ◌+◌, ◌≤◌, String, ◌≡◌, refl, inl, inr, true, List, [], ◌∷◌, Option, none, some, arith,
  leb, Bool-cases, length, all, All, mem, distinct, text_length, utf8_length, Result, ok, ◌>>=◌,
  ◌>>◌, guard, >>=-eq-ok, guard-eq-ok,
}
use mathlib.Core.Path.{subst}
use doppel_agent.Py.{Value, none_value, str, tuple, dict, Items, get_or, keys_are}
use doppel_agent.Plans.{
  PlanTask, WorkOrderPlan, PlanError, bad_dependencies, repeated_dependency, known_dependencies,
  one_of, present, source_items, bad_plan_fields, max_total_prompt_bytes, max_tasks, text,
  is_task_id, dependency_ids, identifier, sequence, dependency_list, plan_task, plan_tasks, ids,
  read_plan,
}

-- A text field after `_text`: stripped, not empty.
text_nonempty : (v : Value) (m : ℕ) (t : String) → text v m ≡ ok t → (1 ≤ text_length t)
unfolding text
text_nonempty (str s) m t h = ground arith
text_nonempty none_value m t h = ground arith
text_nonempty _ m t h = ground arith

dependency_ids-ids :
    (vs : List Value) (ds : List String)
    → dependency_ids vs ≡ ok ds
    → (length ds ≡ length vs) × (all is_task_id ds ≡ true)
unfolding dependency_ids
dependency_ids-ids [] ds h = ground arith
dependency_ids-ids (str s ∷ vs) ds h = elim (Bool-cases (is_task_id s)) [
  | inr bad ↦ absurd (ground (arith, bad))
  | inl good ↦
      let (rest, e, out) =
        >>=-eq-ok (dependency_ids vs) (λ l. ok (s ∷ l)) {b = ds} (ground (arith, good)) in
      ground (arith, dependency_ids-ids vs rest e, out, good)
]
dependency_ids-ids (_ ∷ vs) ds h = ground arith

pub record IsValidDependencies (ds : List String) : Type 0 where
  pub few : length ds ≤ max_tasks
  pub named : all is_task_id ds ≡ true
  pub once : distinct ds ≡ true

dependency_list-IsValidDependencies :
    (v : Value) (ds : List String) → dependency_list v ≡ ok ds → IsValidDependencies ds
unfolding dependency_list
dependency_list-IsValidDependencies v ds h = known (sequence v) h
  where
    known : (o : Option (List Value)) → known_dependencies o ≡ ok ds → IsValidDependencies ds
    known none e = absurd (ground arith)
    known (some vs) e =
        let (few, rest) =
          guard-eq-ok (leb (length vs) max_tasks) bad_dependencies
            (do ids ← dependency_ids vs; guard (distinct ids) repeated_dependency; ok ids) e in
        let (ids, read, last) =
          >>=-eq-ok (dependency_ids vs) (λ ids. guard (distinct ids) repeated_dependency >> ok ids)
            rest in
        let (once, same) = guard-eq-ok (distinct ids) repeated_dependency (ok ids) last in
        ground (arith, few, once, same, dependency_ids-ids vs ids read)

-- What holds of one accepted task.
pub record IsValidTask (t : PlanTask) : Type 0 where
  pub id_format : is_task_id t.id ≡ true
  pub dependencies : IsValidDependencies t.dependencies
  pub access : mem t.access ("read" ∷ "write" ∷ []) ≡ true
  pub mode : mem t.mode ("legacy" ∷ "graph" ∷ "deep" ∷ []) ≡ true
  pub title : 1 ≤ text_length t.title
  pub prompt : 1 ≤ text_length t.prompt

identifier-is_task_id : (v : Value) (s : String) → identifier v ≡ ok s → is_task_id s ≡ true
unfolding identifier
identifier-is_task_id (str s) t h = ground arith
identifier-is_task_id none_value t h = ground arith
identifier-is_task_id _ t h = ground arith

one_of-mem :
    (names : List String) (v : Value) (s : String) → one_of names v ≡ ok s → mem s names ≡ true
unfolding one_of
one_of-mem names (str s) t h = ground arith
one_of-mem names none_value t h = ground arith
one_of-mem names _ t h = ground arith

plan_task-IsValid :
    (total : ℕ) (v : Value) (total' : ℕ) (t : PlanTask)
    → plan_task total v ≡ ok (total', t)
    → IsValidTask t × (total' ≡ total + utf8_length t.prompt) × (total' ≤ max_total_prompt_bytes)
unfolding plan_task
plan_task-IsValid total (dict item) total' t h = ground (
  arith,
  identifier-is_task_id (present "id" item) t.id,
  dependency_list-IsValidDependencies (get_or "dependencies" (tuple Items.nil) item) t.dependencies,
  one_of-mem ("read" ∷ "write" ∷ []) (get_or "access" (str "read") item) t.access,
  one_of-mem ("legacy" ∷ "graph" ∷ "deep" ∷ []) (get_or "mode" (str "graph") item) t.mode,
  text_nonempty (present "title" item) 200 t.title,
  text_nonempty (present "prompt" item) 100000 t.prompt,
)
plan_task-IsValid total none_value total' t h = ground arith
plan_task-IsValid total _ total' t h = ground arith

-- The bytes of the prompts of a plan.
abbrev pub prompt_bytes : List PlanTask → ℕ
prompt_bytes [] = 0
prompt_bytes (t ∷ ts) = utf8_length t.prompt + prompt_bytes ts

plan_tasks-IsValid :
    (total : ℕ) (vs : List Value) (tasks : List PlanTask)
    → total ≤ max_total_prompt_bytes
    → plan_tasks total vs ≡ ok tasks
    → (length tasks ≡ length vs)
      × All IsValidTask tasks
      × (total + prompt_bytes tasks ≤ max_total_prompt_bytes)
unfolding plan_tasks
plan_tasks-IsValid total [] [] fits h = (refl, tt, omega arith)
plan_tasks-IsValid total [] (t ∷ ts) fits h = absurd (ground arith)
plan_tasks-IsValid total (v ∷ vs) tasks fits h =
    let (step, read, rest) =
      >>=-eq-ok (plan_task total v)
        (λ (total', task). plan_tasks total' vs >>= λ ts. ok (task ∷ ts)) h in
    let (ts, more, same) =
      >>=-eq-ok (plan_tasks step.0 vs) (λ ts. ok (step.1 ∷ ts)) {b = tasks} rest in
    let (valid, sum, below) = plan_task-IsValid total v step.0 step.1 read in
    let (same_length, all_valid, bytes) = plan_tasks-IsValid step.0 vs ts below more in
    collect step.1 ts same valid same_length all_valid (omega arith)
  where
    collect :
        (t : PlanTask) (ts : List PlanTask)
        → ◌≡◌ {A = Result PlanError (List PlanTask)} (ok (t ∷ ts)) (ok tasks)
        → IsValidTask t
        → length ts ≡ length vs
        → All IsValidTask ts
        → total + (utf8_length t.prompt + prompt_bytes ts) ≤ max_total_prompt_bytes
        → (length tasks ≡ suc (length vs))
          × All IsValidTask tasks
          × (total + prompt_bytes tasks ≤ max_total_prompt_bytes)
    collect t ts same valid long every bytes =
        let e : (t ∷ ts) ≡ tasks = cc in
        subst
          (λ l.
            (length l ≡ suc (length vs))
            × All IsValidTask l
            × (total + prompt_bytes l ≤ max_total_prompt_bytes))
          e (omega arith, (valid, every), bytes)

pub record IsReadPlan (plan : WorkOrderPlan) : Type 0 where
  pub some_tasks : 1 ≤ length plan.tasks
  pub few_tasks : length plan.tasks ≤ max_tasks
  pub prompts : prompt_bytes plan.tasks ≤ max_total_prompt_bytes
  pub title : 1 ≤ text_length plan.title
  pub tasks : All IsValidTask plan.tasks

source_items-bounds :
    (o : Option (List Value)) (vs : List Value)
    → source_items o ≡ ok vs
    → (1 ≤ length vs) × (length vs ≤ max_tasks)
source_items-bounds none vs h = absurd (ground arith)
source_items-bounds (some xs) vs h = ground arith

pub read_plan-IsRead : (v : Value) (plan : WorkOrderPlan) → read_plan v ≡ ok plan → IsReadPlan plan
unfolding read_plan
read_plan-IsRead (dict payload) plan h =
    let (shape, rest) =
      guard-eq-ok (keys_are ("title" ∷ "tasks" ∷ []) payload) bad_plan_fields _ h in
    let (title, titled, rest₁) = >>=-eq-ok (text (present "title" payload) 200) _ {b = plan} rest in
    let (items, listed, rest₂) =
      >>=-eq-ok (source_items (sequence (present "tasks" payload))) _ {b = plan} rest₁ in
    let (tasks, read, same) = >>=-eq-ok (plan_tasks 0 items) _ {b = plan} rest₂ in
    let (long, valid, bytes) = plan_tasks-IsValid 0 items tasks (omega arith) read in
    ground (
      arith,
      same,
      source_items-bounds (sequence (present "tasks" payload)) items listed,
      text_nonempty (present "title" payload) 200 title titled,
      long,
      valid,
      bytes,
    )
read_plan-IsRead none_value plan h = absurd (ground arith)
read_plan-IsRead _ plan h = absurd (ground arith)
