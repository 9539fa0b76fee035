-- ===== src/Tasks/Histories.antt =====
-- Any history of `create`, `set_dependencies` and `transition` on an empty table.
use doppel_agent.Prelude.{
  ℕ, String, ◌≡◌, refl, ap, true, false, not, ◌&&◌, Option, none, some, List, [], ◌∷◌, ◌++◌, arith,
  str_eq, eq_iff, if◌then◌else◌, ok, mem, all, inl, inr, ◌⊎◌, Bool-cases,
}
use mathlib.Core.Path.{subst}
use doppel_agent.Tasks.Table.{
  pending, Task, Db, same_status, find_task, update_task, get_task, pairs, depends_on,
  clear_dependencies, done, find_task-id,
}
use doppel_agent.Tasks.Manager.{
  new_task, create, rewired, set_dependencies, Action, moved, move, transition, source_of,
  action_of, is_start,
}
use doppel_agent.Tasks.Finished.{IsFounded, move-IsFounded, done-update_task, updated-row}

transition-IsFounded :
    (run id action result : String) (now : ℕ) (db after : Db)
    → transition run id action result now db ≡ ok after
    → IsFounded db
    → IsFounded after
unfolding transition get_task move
transition-IsFounded run id action result now db after h inv =
    by_task (find_task id db.tasks) (action_of action) refl refl
  where
    by_task :
        (o : Option Task) (a : Option Action)
        → find_task id db.tasks ≡ o
        → action_of action ≡ a
        → IsFounded after
    by_task none a e f = absurd (ground (arith, e, h))
    by_task (some task) none e f = absurd (ground (arith, e, f, h))
    by_task (some task) (some a) e f =
        let same : task.id ≡ id = find_task-id id db.tasks task e in
        let found : find_task task.id db.tasks ≡ some task = ground (arith, e, same) in
        let good : same_status task.status (source_of a) ≡ true = ground (arith, e, f, h) in
        let free : (is_start a
              && not (all (λ x. done x db.tasks) (depends_on task.id db.dependencies)))
            ≡ false =
          ground (arith, e, f, h) in
        let moved_db : record db { tasks = update_task task.id (moved a result now) db.tasks }
            ≡ after =
          ground (arith, e, f, h) in
        subst IsFounded moved_db (move-IsFounded a result now task db found good free inv)

depends_on-append :
    (id : String) (xs ys : List (String × String))
    → depends_on id (xs ++ ys) ≡ depends_on id xs ++ depends_on id ys
unfolding depends_on
depends_on-append id [] ys = refl
depends_on-append id ((t, d) ∷ xs) ys = ground (arith, depends_on-append id xs ys)

depends_on-pairs :
    (id other : String) (ds : List String)
    → str_eq id other ≡ false
    → depends_on other (pairs id ds) ≡ []
unfolding depends_on
depends_on-pairs id other [] h = refl
depends_on-pairs id other (d ∷ ds) h = ground (arith, h, depends_on-pairs id other ds)

depends_on-clear_dependencies :
    (id other : String) (xs : List (String × String))
    → str_eq id other ≡ false
    → depends_on other (clear_dependencies id xs) ≡ depends_on other xs
unfolding depends_on clear_dependencies
depends_on-clear_dependencies id other [] h = refl
depends_on-clear_dependencies id other ((t, d) ∷ xs) h = ground (
  arith,
  h,
  eq_iff t id,
  eq_iff t other,
  eq_iff id other,
  depends_on-clear_dependencies id other xs,
)

append_nil : {A : Type 0} (xs : List A) → xs ++ [] ≡ xs
append_nil [] = refl
append_nil (x ∷ xs) = ap (λ ys. x ∷ ys) (append_nil xs)

rewired-IsFounded :
    (task : Task) (deps : List String) (now : ℕ) (db : Db)
    → find_task task.id db.tasks ≡ some task
    → same_status task.status pending ≡ true
    → IsFounded db
    → IsFounded (rewired task.id deps now db)
unfolding IsFounded
rewired-IsFounded task deps now db e s inv id t d f ne k =
    done-update_task task.id d (λ x. record x { updated_at = now }) db.tasks (λ x. refl)
      (λ x g c. c) (earlier (Bool-cases (str_eq task.id id)))
  where
    earlier : (str_eq task.id id ≡ true) ⊎ (str_eq task.id id ≡ false) → done d db.tasks ≡ true
    earlier (inl same) =
        absurd
          (elim (updated-row id task t (λ x. record x { updated_at = now }) db.tasks (λ x. refl) e
            f) [
              | inl (z, row) ↦ ground (arith, row, ne, s)
              | inr row ↦ ground (arith, row, e, same, eq_iff task.id id, ne, s)
            ])
    earlier (inr other) =
        elim (updated-row id task t (λ x. record x { updated_at = now }) db.tasks (λ x. refl) e f) [
          | inl (z, row) ↦ absurd (ground (arith, row, ne, s))
          | inr row ↦ inv id t d row ne (
              ground (
                arith,
                k,
                depends_on-append id (clear_dependencies task.id db.dependencies)
                    (pairs task.id deps),
                depends_on-pairs task.id id deps other,
                depends_on-clear_dependencies task.id id db.dependencies other,
                append_nil (depends_on id db.dependencies),
              ))
        ]

set_dependencies-IsFounded :
    (id : String) (deps : List String) (now : ℕ) (db after : Db)
    → set_dependencies id deps now db ≡ ok after
    → IsFounded db
    → IsFounded after
unfolding set_dependencies get_task
set_dependencies-IsFounded id deps now db after h inv = by_task (find_task id db.tasks) refl
  where
    by_task : (o : Option Task) → find_task id db.tasks ≡ o → IsFounded after
    by_task none e = absurd (ground (arith, e, h))
    by_task (some task) e =
        let same : task.id ≡ id = find_task-id id db.tasks task e in
        let found : find_task task.id db.tasks ≡ some task = ground (arith, e, same) in
        let waits : same_status task.status pending ≡ true = ground (arith, e, h) in
        let made : rewired task.id deps now db ≡ after = ground (arith, e, h, same) in
        subst IsFounded made (rewired-IsFounded task deps now db found waits inv)

find_task-append :
    (id : String) (ts : List Task) (new : Task)
    → find_task id (ts ++ (new ∷ [])) ≡ elim (find_task id ts) [
      | none ↦ if str_eq new.id id then some new else none
      | some t ↦ some t
    ]
unfolding find_task
find_task-append id [] new = refl
find_task-append id (t ∷ ts) new = ground (arith, find_task-append id ts new)

added-IsFounded :
    (new : Task) (deps : List String) (db : Db)
    → find_task new.id db.tasks ≡ none
    → same_status new.status pending ≡ true
    → IsFounded db
    → IsFounded (record {
      tasks = db.tasks ++ (new ∷ []);
      dependencies = db.dependencies ++ pairs new.id deps;
    })
unfolding IsFounded
added-IsFounded new deps db e s inv id t d f ne k =
    by_row (find_task id db.tasks) (Bool-cases (str_eq new.id id)) refl
  where
    by_row :
        (o : Option Task)
        → (str_eq new.id id ≡ true) ⊎ (str_eq new.id id ≡ false)
        → find_task id db.tasks ≡ o
        → done d (db.tasks ++ (new ∷ [])) ≡ true
    by_row none b r = absurd (ground (arith, r, f, ne, s, find_task-append id db.tasks new))
    by_row (some x) (inl same) r = absurd (ground (arith, r, e, same, eq_iff new.id id))
    by_row (some x) (inr other) r =
        let before : done d db.tasks ≡ true =
          inv id t d (ground (arith, r, f, find_task-append id db.tasks new)) ne (
            ground (
              arith,
              k,
              depends_on-append id db.dependencies (pairs new.id deps),
              depends_on-pairs new.id id deps other,
              append_nil (depends_on id db.dependencies),
            )) in
        ground (arith, before, find_task-append d db.tasks new)

create-IsFounded :
    (run title : String) (deps : List String) (id : String) (now : ℕ) (db after : Db)
    (made : String)
    → create run title deps id now db ≡ ok (made, after)
    → IsFounded db
    → IsFounded after
unfolding create
create-IsFounded run title deps id now db after made h inv = by_task (find_task id db.tasks) refl
  where
    by_task : (o : Option Task) → find_task id db.tasks ≡ o → IsFounded after
    by_task (some task) e = absurd (ground (arith, e, h))
    by_task none e =
        subst IsFounded (ground (arith, e, h))
          (added-IsFounded (new_task id run title now) deps db e refl inv)

-- Tables that operations make of the empty one.
pub data Reach : Db → Type 0 where
  empty : Reach (record { tasks = []; dependencies = [] })
  creates :
      {db after : Db} (run title : String) (deps : List String) (id : String) (now : ℕ)
      (made : String)
      → Reach db
      → create run title deps id now db ≡ ok (made, after)
      → Reach after
  rewires :
      {db after : Db} (id : String) (deps : List String) (now : ℕ)
      → Reach db
      → set_dependencies id deps now db ≡ ok after
      → Reach after
  moves :
      {db after : Db} (run id action result : String) (now : ℕ)
      → Reach db
      → transition run id action result now db ≡ ok after
      → Reach after

empty-IsFounded : IsFounded (record { tasks = []; dependencies = [] })
unfolding IsFounded find_task
empty-IsFounded id t d f ne k = absurd (ground (arith, f))

founded : (db : Db) → Reach db → IsFounded db
founded db empty = empty-IsFounded
founded db (creates run title deps id now made r h) =
    create-IsFounded run title deps id now _ db made h (founded _ r)
founded db (rewires id deps now r h) = set_dependencies-IsFounded id deps now _ db h (founded _ r)
founded db (moves run id action result now r h) =
    transition-IsFounded run id action result now _ db h (founded _ r)

-- In any history of the manager, a task that has started, whether it runs, has completed or has
-- failed, has every dependency completed.
pub Reach-done :
    (db : Db) (id d : String) (t : Task)
    → Reach db
    → find_task id db.tasks ≡ some t
    → same_status t.status pending ≡ false
    → mem d (depends_on id db.dependencies) ≡ true
    → done d db.tasks ≡ true
unfolding IsFounded
Reach-done db id d t r e ne k = founded db r id t d e ne k
