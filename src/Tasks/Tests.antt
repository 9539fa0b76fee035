-- ===== src/Tasks/Tests.antt =====
-- A small table of tasks.
use doppel_agent.Prelude.{
  String, ◌≡◌, refl, true, [], ◌∷◌, some, Result, ok, err, mem, distinct, strip, lstrip, rstrip,
  rstrip_cons, lookup, names, remove,
}
use doppel_agent.Tasks.Table.{
  running, done, Db, Task, TaskError, blocked, dependency_cycle, find_task, update_task, get_task,
  check_runs, check_deps, depends_on,
}
use doppel_agent.Tasks.Cycle.{visit, visit_each, check_acyclic}
use doppel_agent.Tasks.Manager.{create, graph_of, set_dependencies, move, transition}
use doppel_agent.Tasks.Histories.{empty, creates, moves, Reach-done}

abbrev nothing : Db
nothing = record { tasks = []; dependencies = [] }

abbrev db_of : Result TaskError (String × Db) → Db
db_of (ok (id, db)) = db
db_of (err e) = nothing

abbrev or_nothing : Result TaskError Db → Db
or_nothing (ok db) = db
or_nothing (err e) = nothing

abbrev one : Db
one = db_of (create "run" " build " [] "a" 1 nothing)

abbrev two : Db
two = db_of (create "run" "test" ("a" ∷ []) "b" 2 one)

abbrev begun : Db
begun = or_nothing (transition "run" "a" "start" "" 3 two)

made_one : create "run" " build " [] "a" 1 nothing ≡ ok ("a", one)
unfolding create check_deps check_runs distinct find_task strip lstrip rstrip rstrip_cons
made_one = refl

made_two : create "run" "test" ("a" ∷ []) "b" 2 one ≡ ok ("b", two)
unfolding create check_deps check_runs get_task distinct mem find_task strip lstrip rstrip
    rstrip_cons
made_two = refl

made_begun : transition "run" "a" "start" "" 3 two ≡ ok begun
unfolding transition move create check_deps check_runs get_task distinct mem find_task update_task
    depends_on strip lstrip rstrip rstrip_cons
made_begun = refl

held_back : transition "run" "b" "start" "" 3 two ≡ err blocked
unfolding transition move create check_deps check_runs get_task distinct mem find_task update_task
    depends_on strip lstrip rstrip rstrip_cons
held_back = refl

cycle_refused : set_dependencies "a" ("b" ∷ []) 4 two ≡ err dependency_cycle
unfolding set_dependencies graph_of check_acyclic visit visit_each lookup names remove create
    check_deps check_runs get_task distinct mem find_task update_task depends_on strip lstrip rstrip
    rstrip_cons
cycle_refused = refl

abbrev built : Db
built = or_nothing (transition "run" "a" "complete" "ok" 4 begun)

abbrev tested : Db
tested = or_nothing (transition "run" "b" "start" "" 5 built)

made_built : transition "run" "a" "complete" "ok" 4 begun ≡ ok built
unfolding transition move create check_deps check_runs get_task distinct mem find_task update_task
    depends_on strip lstrip rstrip rstrip_cons
made_built = refl

made_tested : transition "run" "b" "start" "" 5 built ≡ ok tested
unfolding transition move create check_deps check_runs get_task distinct mem find_task update_task
    depends_on strip lstrip rstrip rstrip_cons
made_tested = refl

abbrev task_b : Task
task_b = record {
  id = "b";
  run_id = "run";
  title = "test";
  status = running;
  attempts = 1;
  result = "";
  created_at = 2;
  updated_at = 5;
}

found_b : find_task "b" tested.tasks ≡ some task_b
unfolding transition move create check_deps check_runs get_task distinct mem find_task update_task
    depends_on strip lstrip rstrip rstrip_cons
found_b = refl

needs_a : mem "a" (depends_on "b" tested.dependencies) ≡ true
unfolding transition move create check_deps check_runs get_task distinct mem find_task update_task
    depends_on strip lstrip rstrip rstrip_cons
needs_a = refl

Reach-done_example : done "a" tested.tasks ≡ true
Reach-done_example =
    Reach-done tested "b" "a" task_b
      (moves "run" "b" "start" "" 5
        (moves "run" "a" "complete" "ok" 4
          (moves "run" "a" "start" "" 3
            (creates "run" "test" ("a" ∷ []) "b" 2 "b"
              (creates "run" " build " [] "a" 1 "a" empty made_one) made_two)
            made_begun)
          made_built)
        made_tested)
      found_b refl needs_a
