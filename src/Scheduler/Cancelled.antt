-- ===== src/Scheduler/Cancelled.antt =====
-- Jobs that are cancelled while they wait.
use doppel_agent.Prelude.{
  ℕ, ◌<◌, String, ◌≡◌, refl, ◌∙◌, Bool, true, false, Option, none, some, List, [], ◌∷◌, arith,
}
use doppel_agent.Scheduler.{
  Scheduler, start, submit, take, run_of, drop_job, invoke, finish, cancel, cancel_queued,
  cancel_tasks, shutdown, join, put_stop,
}
use doppel_agent.Scheduler.Step.{
  Step, starts, submits, takes, invokes, finishes, cancels, shuts_down, joins, stops, Reach, here,
  next,
}
use doppel_agent.Scheduler.Futures.{Reach-KeepsJobs}

run_of-drop_job :
    (n m : ℕ) (busy : List (String × ℕ)) → run_of n busy ≡ none → run_of n (drop_job m busy) ≡ none
unfolding run_of drop_job
run_of-drop_job n m [] h = refl
run_of-drop_job n m ((run, k) ∷ rest) h = ground (arith, run_of-drop_job n m rest)

take-idle :
    (n : ℕ) (s : Scheduler)
    → (s.store n).token ≡ true
    → run_of n s.busy ≡ none
    → run_of n (take s).busy ≡ none
unfolding take run_of
take-idle n s h k = by_queue s.queue refl
  where
    by_queue : (q : List (Option ℕ)) → s.queue ≡ q → run_of n (take s).busy ≡ none
    by_queue [] e = ground (arith, e, k)
    by_queue (none ∷ rest) e = ground (arith, e, k)
    by_queue (some m ∷ rest) e = ground (arith, e, k, h)

cancel_queued-busy :
    (jobs : List (String × ℕ)) (s : Scheduler) → (cancel_queued jobs s).busy ≡ s.busy
unfolding cancel_queued
cancel_queued-busy [] s = refl
cancel_queued-busy ((run, n) ∷ rest) s = cancel_queued-busy rest _ ∙ ground arith

cancel_tasks-busy :
    (tasks : List (String × ℕ)) (s : Scheduler) → (cancel_tasks tasks s).busy ≡ s.busy
unfolding cancel_tasks
cancel_tasks-busy [] s = refl
cancel_tasks-busy ((run, n) ∷ rest) s = cancel_tasks-busy rest _

shutdown-busy : (p r : Bool) (s : Scheduler) → (shutdown p r s).busy ≡ s.busy
unfolding shutdown
shutdown-busy p r s = ground (
  arith,
  cancel_queued-busy s.jobs (record s { accepting = false }),
  cancel_tasks-busy s.tasks (record s { accepting = false }),
  cancel_tasks-busy (cancel_queued s.jobs (record s { accepting = false })).tasks
      (cancel_queued s.jobs (record s { accepting = false })),
)

Step-idle :
    (n : ℕ) (s t : Scheduler)
    → Step s t
    → (s.store n).token ≡ true
    → run_of n s.busy ≡ none
    → run_of n t.busy ≡ none
unfolding start submit invoke finish cancel join put_stop
Step-idle n s _ starts h k = ground (arith, k)
Step-idle n s _ (submits run) h k = ground (arith, k)
Step-idle n s _ takes h k = take-idle n s h k
Step-idle n s _ (invokes m) h k = ground (arith, k)
Step-idle n s _ (finishes m outcome d) h k = ground (arith, k, run_of-drop_job n m s.busy)
Step-idle n s _ (cancels run) h k = ground (arith, k)
Step-idle n s _ (shuts_down p r) h k = ground (arith, k, shutdown-busy p r s)
Step-idle n s _ (joins i) h k = ground (arith, k)
Step-idle n s _ (stops i) h k = ground (arith, k)

-- A job whose token is cancelled while no worker runs it is never run, whatever steps follow.
pub cancelled-idle :
    (n : ℕ) (s t : Scheduler)
    → Reach s t
    → n < s.created
    → (s.store n).token ≡ true
    → run_of n s.busy ≡ none
    → run_of n t.busy ≡ none
cancelled-idle n s t here l h k = k
cancelled-idle n s t (next {t = u} r step) l h k =
    Step-idle n u t step (((Reach-KeepsJobs s u r).kept n l).token h) (cancelled-idle n s u r l h k)
