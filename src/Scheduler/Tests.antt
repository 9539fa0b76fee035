-- ===== src/Scheduler/Tests.antt =====
-- Runs of the scheduler, with one and with two workers.
use doppel_agent.Prelude.{
  ℕ, length, ◌≡◌, arith, refl, false, none, [], ◌∷◌, ok, err, lookup, assign, pop,
}
use doppel_agent.Scheduler.{
  Scheduler, result, cancelled_future, new_scheduler, start, submit, take, invoke, finish, cancel,
  shutdown, run_of, drop_job, blank_job, queue_full, already_scheduled,
}
use doppel_agent.Scheduler.Step.{starts, submits, takes, invokes, finishes, Reach, here, next}
use doppel_agent.Scheduler.Bounds.{IsBounded, Reach-IsBounded}
use doppel_agent.Scheduler.Futures.{KeepsJobs, Reach-KeepsJobs}
use doppel_agent.Scheduler.Cancelled.{cancelled-idle}

abbrev fresh : ℕ → ℕ → Scheduler
fresh active capacity = record {
  max_active = active;
  queue_capacity = capacity;
  queue = [];
  unfinished = 0;
  has_workers = false;
  alive = 0;
  busy = [];
  store = λ n. blank_job;
  created = 0;
  jobs = [];
  tasks = [];
  statuses = [];
  accepting = false;
  peak_active_count = 0;
  accepted_count = 0;
  rejected_count = 0;
  drains = [];
}

fresh_made : new_scheduler 2 1 ≡ ok (fresh 2 1)
unfolding new_scheduler
fresh_made = refl

abbrev one_queued : Scheduler
one_queued = (submit "a" (start (fresh 2 1))).1

abbrev one_running : Scheduler
one_running = invoke 0 (take one_queued)

queue_bound : (submit "b" one_queued).0 ≡ err queue_full
unfolding submit start lookup assign
queue_bound = refl

scheduled_twice : (submit "a" one_running).0 ≡ err already_scheduled
unfolding submit start take invoke lookup assign run_of
scheduled_twice = refl

run_to : Reach (fresh 2 1) (finish 0 (result 7) one_running)
run_to =
    next (next (next (next (next here starts) (submits "a")) takes) (invokes 0))
      (finishes 0 (result 7) refl)

Reach-IsBounded_example : IsBounded 2 (finish 0 (result 7) one_running)
unfolding run_to
Reach-IsBounded_example =
    Reach-IsBounded 2 1 (fresh 2 1) (finish 0 (result 7) one_running) fresh_made run_to

Reach-KeepsJobs_example : KeepsJobs (fresh 2 1) (finish 0 (result 7) one_running)
Reach-KeepsJobs_example = Reach-KeepsJobs (fresh 2 1) (finish 0 (result 7) one_running) run_to

abbrev withdrawn : Scheduler
withdrawn = (cancel "a" one_queued).1

cancelled-idle_example : run_of 0 (take withdrawn).busy ≡ none
unfolding submit start cancel lookup assign run_of
cancelled-idle_example =
    cancelled-idle 0 withdrawn (take withdrawn) (next here takes) (ground arith) refl refl

-- An id that is submitted again while its cancelled task still winds down: two workers run it, and
-- the end of the first job removes the task of the second and reports it cancelled.
abbrev twice : Scheduler
twice = finish 0 cancelled_future (take (submit "a" (cancel "a" one_running).1).1)

twice_busy : twice.busy ≡ ("a", 1) ∷ []
unfolding submit start take invoke finish cancel lookup assign pop run_of drop_job
twice_busy = refl

twice_tasks : twice.tasks ≡ []
unfolding submit start take invoke finish cancel lookup assign pop run_of drop_job
twice_tasks = refl

twice-cancel : (cancel "a" twice).0 ≡ false
unfolding submit start take invoke finish cancel lookup assign pop run_of drop_job
twice-cancel = refl

-- A start while the worker of an earlier shutdown still ends: two jobs run, with one as `max_active`.
abbrev overlapping : Scheduler
overlapping =
    take (submit "b" (start (shutdown false false (take (submit "a" (start (fresh 1 2))).1)))).1

overlapping_tasks : length overlapping.tasks ≡ 2
unfolding submit start take shutdown lookup assign
overlapping_tasks = refl
