-- ===== src/Tasks/Finished.antt =====
-- A task that has started has all its dependencies completed, and stays so through every operation.
use doppel_agent.Prelude.{
  ℕ, String, ◌≡◌, refl, Bool, true, false, not, ◌&&◌, Option, none, some, List, [], ◌∷◌, arith,
  str_eq, eq_iff, mem, all, inl, inr, ◌⊎◌, Bool-cases,
}
use doppel_agent.Tasks.Table.{
  Status, pending, completed, Task, Db, same_status, find_task, update_task, depends_on, done,
  find_task-update_task, find_task-id,
}
use doppel_agent.Tasks.Manager.{
  Action, begin, complete, fail, retry, moved, source_of, target_of, is_start,
}

unfoldable pub IsFounded : Db → Type 0
IsFounded db =
    (id : String) (t : Task) (d : String)
    → find_task id db.tasks ≡ some t
    → same_status t.status pending ≡ false
    → mem d (depends_on id db.dependencies) ≡ true
    → done d db.tasks ≡ true

pub all-at :
    (p : String → Bool) (xs : List String) (x : String)
    → all p xs ≡ true
    → mem x xs ≡ true
    → p x ≡ true
unfolding mem
all-at p [] x h k = absurd (ground arith)
all-at p (y ∷ ys) x h k = ground (arith, h, k, eq_iff y x, all-at p ys x)

-- what an update of one row keeps of the completed tasks
pub done-update_task :
    (id d : String) (f : Task → Task) (ts : List Task)
    → ((t : Task) → (f t).id ≡ t.id)
    → ((t : Task)
        → find_task id ts ≡ some t
        → same_status t.status completed ≡ true
        → same_status (f t).status completed ≡ true)
    → done d ts ≡ true
    → done d (update_task id f ts) ≡ true
done-update_task id d f ts keep mono h = by_row (find_task d ts) refl
  where
    by_row : (o : Option Task) → find_task d ts ≡ o → done d (update_task id f ts) ≡ true
    by_row none e = absurd (ground (arith, e, h))
    by_row (some t) e = ground (
      arith,
      e,
      h,
      find_task-update_task id d f ts keep,
      find_task-id d ts t e,
      eq_iff t.id id,
      mono t,
    )

source_unfinished :
    (a : Action) (s : Status) → same_status s (source_of a) ≡ true → same_status s completed ≡ false
source_unfinished begin s h = ground (arith, h)
source_unfinished complete s h = ground (arith, h)
source_unfinished fail s h = ground (arith, h)
source_unfinished retry s h = ground (arith, h)

moved-done :
    (action : Action) (result : String) (now : ℕ) (task : Task) (db : Db) (d : String)
    → find_task task.id db.tasks ≡ some task
    → same_status task.status (source_of action) ≡ true
    → done d db.tasks ≡ true
    → done d (update_task task.id (moved action result now) db.tasks) ≡ true
moved-done action result now task db d e s h =
    done-update_task task.id d (moved action result now) db.tasks (λ t. refl)
      (λ t f c. absurd (ground (arith, e, f, c, source_unfinished action task.status s))) h

-- the dependencies of a task that an action moves to a status other than pending
moved-ready :
    (action : Action) (task : Task) (db : Db) (d : String)
    → same_status task.status (source_of action) ≡ true
    → (is_start action && not (all (λ x. done x db.tasks) (depends_on task.id db.dependencies)))
      ≡ false
    → same_status (target_of action) pending ≡ false
    → IsFounded db
    → find_task task.id db.tasks ≡ some task
    → mem d (depends_on task.id db.dependencies) ≡ true
    → done d db.tasks ≡ true
unfolding IsFounded
moved-ready begin task db d s g p inv e k =
    all-at (λ x. done x db.tasks) (depends_on task.id db.dependencies) d (ground (arith, g)) k
moved-ready complete task db d s g p inv e k = inv task.id task d e (ground (arith, s)) k
moved-ready fail task db d s g p inv e k = inv task.id task d e (ground (arith, s)) k
moved-ready retry task db d s g p inv e k = absurd (ground (arith, p))

pub updated-row :
    (id : String) (task t : Task) (f : Task → Task) (ts : List Task)
    → ((x : Task) → (f x).id ≡ x.id)
    → find_task task.id ts ≡ some task
    → find_task id (update_task task.id f ts) ≡ some t
    → ((id ≡ task.id) × (t ≡ f task)) ⊎ (find_task id ts ≡ some t)
updated-row id task t f ts keep e h = by_row (find_task id ts) refl
  where
    by_row :
        (o : Option Task)
        → find_task id ts ≡ o
        → ((id ≡ task.id) × (t ≡ f task)) ⊎ (find_task id ts ≡ some t)
    by_row none k = absurd (ground (arith, k, h, find_task-update_task task.id id f ts keep))
    by_row (some x) k = elim (Bool-cases (str_eq x.id task.id)) [
      | inl same ↦ inl (
          let e1 : id ≡ task.id =
            ground (arith, same, eq_iff x.id task.id, find_task-id id ts x k) in
          let e2 : x ≡ task = ground (arith, k, e, e1) in
          (e1, ground (arith, k, h, same, e2, find_task-update_task task.id id f ts keep)))
      | inr other ↦ inr (ground (arith, k, h, other, find_task-update_task task.id id f ts keep))
    ]

pub move-IsFounded :
    (action : Action) (result : String) (now : ℕ) (task : Task) (db : Db)
    → find_task task.id db.tasks ≡ some task
    → same_status task.status (source_of action) ≡ true
    → (is_start action && not (all (λ x. done x db.tasks) (depends_on task.id db.dependencies)))
      ≡ false
    → IsFounded db
    → IsFounded (record db { tasks = update_task task.id (moved action result now) db.tasks })
unfolding IsFounded
move-IsFounded action result now task db e s g inv id t d f ne k =
    elim (updated-row id task t (moved action result now) db.tasks (λ x. refl) e f) [
      | inl (same, row) ↦ moved-done action result now task db d e s (
          moved-ready action task db d s g (ground (arith, row, ne)) inv e
            (ground (arith, same, k)))
      | inr row ↦ moved-done action result now task db d e s (inv id t d row ne k)
    ]
