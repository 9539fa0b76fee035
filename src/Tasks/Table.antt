-- ===== src/Tasks/Table.antt =====
-- The rows, `_get` and `_check_deps`.
use doppel_agent.Prelude.{
  ℕ, String, ◌≡◌, refl, Bool, true, false, Option, none, some, List, [], ◌∷◌, arith, str_eq, eq_iff,
  if◌then◌else◌, Result, ok, err, distinct,
}

pub data Status : Type 0 where
  pending running completed failed : Status

pub record Task : Type 0 where
  pub id : String
  pub run_id : String
  pub title : String
  pub status : Status
  pub attempts : ℕ
  pub result : String
  pub created_at : ℕ
  pub updated_at : ℕ

-- `tasks` in the order of the rowids, and the pairs of `dependencies`
pub record Db : Type 0 where
  pub tasks : List Task
  pub dependencies : List (String × String)

pub data TaskError : Type 0 where
  unknown_task duplicate_dependencies different_run invalid_title : TaskError
  not_pending self_dependency dependency_cycle : TaskError
  invalid_transition blocked integrity : TaskError

abbrev pub same_status : Status → Status → Bool
same_status pending pending = true
same_status running running = true
same_status completed completed = true
same_status failed failed = true
same_status _ _ = false

unfoldable pub find_task : String → List Task → Option Task
find_task id [] = none
find_task id (t ∷ ts) = let later = find_task id ts in if str_eq t.id id then some t else later

-- `UPDATE tasks SET ... WHERE id=?`
unfoldable pub update_task : String → (Task → Task) → List Task → List Task
update_task id f [] = []
update_task id f (t ∷ ts) = (if str_eq t.id id then f t else t) ∷ update_task id f ts

-- `_get`
unfoldable pub get_task : String → Db → Result TaskError Task
get_task id db = elim (find_task id db.tasks) [ none ↦ err unknown_task | some t ↦ ok t ]

-- the loop of `_check_deps`
unfoldable pub check_runs : String → List String → Db → Result TaskError (Unit {0})
check_runs run [] db = ok tt
check_runs run (d ∷ ds) db =
    let rest = check_runs run ds db in
    elim (get_task d db) [
      | err e ↦ err e
      | ok t ↦ if str_eq t.run_id run then rest else err different_run
    ]

-- `_check_deps`
unfoldable pub check_deps : String → List String → Db → Result TaskError (Unit {0})
check_deps run ds db = if distinct ds then check_runs run ds db else err duplicate_dependencies

abbrev pub pairs : String → List String → List (String × String)
pairs id [] = []
pairs id (d ∷ ds) = (id, d) ∷ pairs id ds

-- `SELECT depends_on FROM dependencies WHERE task_id=?`
unfoldable pub depends_on : String → List (String × String) → List String
depends_on id [] = []
depends_on id ((task, d) ∷ rest) =
    let later = depends_on id rest in if str_eq task id then d ∷ later else later

-- `DELETE FROM dependencies WHERE task_id=?`
unfoldable pub clear_dependencies : String → List (String × String) → List (String × String)
clear_dependencies id [] = []
clear_dependencies id ((task, d) ∷ rest) =
    let later = clear_dependencies id rest in if str_eq task id then later else (task, d) ∷ later

abbrev is_completed : Option Task → Bool
is_completed none = false
is_completed (some t) = same_status t.status completed

-- whether the task `id` is completed
abbrev pub done : String → List Task → Bool
done id ts = is_completed (find_task id ts)

pub find_task-update_task :
    (id other : String) (f : Task → Task) (ts : List Task)
    → ((t : Task) → (f t).id ≡ t.id)
    → find_task other (update_task id f ts) ≡ elim (find_task other ts) [
      | none ↦ none
      | some t ↦ if str_eq t.id id then some (f t) else some t
    ]
unfolding find_task update_task
find_task-update_task id other f [] keep = refl
find_task-update_task id other f (t ∷ ts) keep =
    ground (arith, keep t, find_task-update_task id other f ts keep)

pub find_task-id : (id : String) (ts : List Task) (t : Task) → find_task id ts ≡ some t → t.id ≡ id
unfolding find_task
find_task-id id [] t h = absurd (ground arith)
find_task-id id (x ∷ ts) t h = ground (arith, h, eq_iff x.id id, find_task-id id ts t)
