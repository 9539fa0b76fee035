-- ===== src/Scheduler/Bounds.antt =====
-- What bounds the scheduler: its queue, its running jobs and the count that `join` waits for.
use doppel_agent.Prelude.{
  ℕ, suc, ◌+◌, ◌-◌, ◌≤◌, ◌<◌, String, ◌≡◌, refl, Bool, true, false, Option, none, some, List, [],
  ◌∷◌, ◌++◌, arith, length, lookup, pop, assign, str_eq, mem, distinct, names, distinct-length-le,
  Within-of, length-names, length-pop_le, mem-names-assign, mem-names-pop, distinct-names-assign,
  distinct-names-pop, ok,
}
use mathlib.Core.Path.{subst}
use doppel_agent.Scheduler.{
  Scheduler, Drain, skip_job, run_job, Job, Status, Future, new_scheduler, start, submit, take,
  run_of, drop_job, invoke, finish, cancel, cancel_queued, cancel_tasks, cancel_token, shutdown,
  join, put_stop,
}
use doppel_agent.Scheduler.Step.{
  Step, starts, submits, takes, invokes, finishes, cancels, shuts_down, joins, stops, Reach, here,
  next, overlap, worker_limit,
}

-- With at most `limit` workers. The tasks are those of distinct run ids that a worker awaits.
pub record IsBounded (limit : ℕ) (s : Scheduler) : Type 0 where
  pub waiting : length s.queue ≤ s.queue_capacity
  pub running : length s.tasks ≤ s.peak_active_count
  pub peak : s.peak_active_count ≤ limit
  pub awaited : length s.busy ≤ s.alive
  pub workers : s.alive ≤ limit
  pub width : s.max_active ≤ limit
  pub counted : s.unfinished ≡ length s.queue + length s.busy
  pub own : distinct (names s.tasks) ≡ true
  pub backed : (run : String) → mem run (names s.tasks) ≡ true → mem run (names s.busy) ≡ true

length-snoc : {A : Type 0} (xs : List A) (x : A) → length (xs ++ (x ∷ [])) ≡ suc (length xs)
length-snoc [] x = refl
length-snoc (y ∷ xs) x = omega (arith, length-snoc xs x)

length-drop_job :
    (n : ℕ) (busy : List (String × ℕ)) (run : String)
    → run_of n busy ≡ some run
    → suc (length (drop_job n busy)) ≡ length busy
unfolding run_of drop_job
length-drop_job n [] run h = absurd (ground arith)
length-drop_job n ((r, m) ∷ rest) run h = ground (arith, length-drop_job n rest run)

mem-drop_job :
    (n : ℕ) (busy : List (String × ℕ)) (run other : String)
    → run_of n busy ≡ some run
    → str_eq run other ≡ false
    → mem other (names busy) ≡ true
    → mem other (names (drop_job n busy)) ≡ true
unfolding run_of drop_job mem names
mem-drop_job n [] run other h ne k = absurd (ground arith)
mem-drop_job n ((r, m) ∷ rest) run other h ne k = ground (arith, mem-drop_job n rest run other)

tasks-le :
    (tasks busy : List (String × ℕ))
    → distinct (names tasks) ≡ true
    → ((run : String) → mem run (names tasks) ≡ true → mem run (names busy) ≡ true)
    → length tasks ≤ length busy
tasks-le tasks busy d w = omega (
  arith,
  distinct-length-le (names tasks) (names busy) d (Within-of (names tasks) (names busy) w),
  length-names tasks,
  length-names busy,
)

start-IsBounded :
    {limit : ℕ}
    → (s : Scheduler) → IsBounded limit s
    → IsBounded (limit + overlap {s = s} starts) (start s)
unfolding start
start-IsBounded s h = ground (arith, h)

submit-IsBounded :
    {limit : ℕ}
    → (run : String) (s : Scheduler) → IsBounded limit s
    → IsBounded limit (submit run s).1
unfolding submit
submit-IsBounded run s h = ground (arith, length-snoc s.queue (some s.created))

backed-assign :
    (run : String) (n : ℕ) (tasks busy : List (String × ℕ))
    → ((r : String) → mem r (names tasks) ≡ true → mem r (names busy) ≡ true)
    → (r : String) → mem r (names (assign run n tasks)) ≡ true
    → mem r (names ((run, n) ∷ busy)) ≡ true
unfolding mem names
backed-assign run n tasks busy w r h = ground (arith, mem-names-assign run r n tasks, h, w r)

backed-pop :
    (run : String) (n : ℕ) (tasks busy : List (String × ℕ))
    → run_of n busy ≡ some run
    → ((r : String) → mem r (names tasks) ≡ true → mem r (names busy) ≡ true)
    → (r : String) → mem r (names (pop run tasks)) ≡ true
    → mem r (names (drop_job n busy)) ≡ true
backed-pop run n tasks busy e w r h =
    ground (arith, mem-names-pop run r tasks, h, w r, mem-drop_job n busy run r e)

skip_job-IsBounded :
    {limit : ℕ}
    → (n : ℕ) (job : Job) (s : Scheduler) (rest : List (Option ℕ)) → s.queue ≡ some n ∷ rest
    → IsBounded limit s
    → IsBounded limit (skip_job n job (record s { queue = rest }))
skip_job-IsBounded n job s rest e h = record {
  waiting = ground (arith, e, h.waiting);
  running = h.running;
  peak = h.peak;
  awaited = h.awaited;
  workers = h.workers;
  width = h.width;
  counted = ground (arith, e, h.counted);
  own = h.own;
  backed = h.backed;
}

run_job-IsBounded :
    {limit : ℕ}
    → (n : ℕ) (job : Job) (s : Scheduler) (rest : List (Option ℕ)) → length s.busy < s.alive
    → s.queue ≡ some n ∷ rest
    → IsBounded limit s
    → IsBounded limit (run_job n job (record s { queue = rest }))
run_job-IsBounded n job s rest free e h =
    let fewer : length (assign job.run_id n s.tasks) ≤ suc (length s.busy) =
      tasks-le (assign job.run_id n s.tasks) ((job.run_id, n) ∷ s.busy)
        (distinct-names-assign job.run_id n s.tasks h.own)
        (backed-assign job.run_id n s.tasks s.busy h.backed) in
    record {
      waiting = ground (arith, e, h.waiting);
      running = ground arith;
      peak = ground (arith, h.peak, h.workers, free, fewer);
      awaited = omega (arith, free);
      workers = h.workers;
      width = h.width;
      counted = ground (arith, e, h.counted);
      own = distinct-names-assign job.run_id n s.tasks h.own;
      backed = backed-assign job.run_id n s.tasks s.busy h.backed;
    }

stop-IsBounded :
    {limit : ℕ}
    → (s : Scheduler) (rest : List (Option ℕ)) → length s.busy < s.alive
    → s.queue ≡ none ∷ rest
    → IsBounded limit s
    → IsBounded limit
        (record s { queue = rest; alive = s.alive - 1; unfinished = s.unfinished - 1 })
stop-IsBounded s rest free e h = record {
  waiting = ground (arith, e, h.waiting);
  running = h.running;
  peak = h.peak;
  awaited = omega (arith, free);
  workers = omega (arith, h.workers);
  width = h.width;
  counted = ground (arith, e, h.counted);
  own = h.own;
  backed = h.backed;
}

take-IsBounded : {limit : ℕ} → (s : Scheduler) → IsBounded limit s → IsBounded limit (take s)
unfolding take
take-IsBounded {limit = limit} s h = by_queue s.queue refl
  where
    by_queue : (q : List (Option ℕ)) → s.queue ≡ q → IsBounded limit (take s)
    by_queue [] e = ground (arith, e, h)
    by_queue (none ∷ rest) e = ground (arith, e, h, stop-IsBounded {limit = limit} s rest)
    by_queue (some n ∷ rest) e = ground (
      arith,
      e,
      h,
      skip_job-IsBounded {limit = limit} n (s.store n) s rest,
      run_job-IsBounded {limit = limit} n (s.store n) s rest,
    )

finish-IsBounded :
    {limit : ℕ}
    → (n : ℕ) (outcome : Future) (s : Scheduler) → IsBounded limit s
    → IsBounded limit (finish n outcome s)
unfolding finish
finish-IsBounded {limit = limit} n outcome s h = by_run (run_of n s.busy) refl
  where
    by_run : (r : Option String) → run_of n s.busy ≡ r → IsBounded limit (finish n outcome s)
    by_run none e = rw (e, finish) h
    by_run (some run) e =
        rw (e, finish)
          record {
            waiting = h.waiting;
            running = omega (arith, h.running, length-pop_le run s.tasks);
            peak = h.peak;
            awaited = omega (arith, h.awaited, length-drop_job n s.busy run e);
            workers = h.workers;
            width = h.width;
            counted = omega (arith, h.counted, length-drop_job n s.busy run e);
            own = distinct-names-pop run s.tasks h.own;
            backed = backed-pop run n s.tasks s.busy e h.backed;
          }

-- What a step changes beside these fields does not matter.
unchanged :
    {limit : ℕ}
    → (store : ℕ → Job) (statuses : List (String × Status)) (accepting has_workers : Bool)
      (drains : List Drain) (s : Scheduler)
    → IsBounded limit s
    → IsBounded limit (record s {
      store = store;
      statuses = statuses;
      accepting = accepting;
      has_workers = has_workers;
      drains = drains;
    })
unchanged store statuses accepting has_workers drains s h = record {
  waiting = h.waiting;
  running = h.running;
  peak = h.peak;
  awaited = h.awaited;
  workers = h.workers;
  width = h.width;
  counted = h.counted;
  own = h.own;
  backed = h.backed;
}

cancel_queued-IsBounded :
    {limit : ℕ}
    → (jobs : List (String × ℕ)) (s : Scheduler) → IsBounded limit s
    → IsBounded limit (cancel_queued jobs s)
unfolding cancel_queued
cancel_queued-IsBounded [] s h = h
cancel_queued-IsBounded ((run, n) ∷ rest) s h = cancel_queued-IsBounded rest _ (ground (arith, h))

cancel_tasks-IsBounded :
    {limit : ℕ}
    → (tasks : List (String × ℕ)) (s : Scheduler) → IsBounded limit s
    → IsBounded limit (cancel_tasks tasks s)
unfolding cancel_tasks
cancel_tasks-IsBounded [] s h = h
cancel_tasks-IsBounded ((run, n) ∷ rest) s h =
    cancel_tasks-IsBounded rest (record s { store = cancel_token (lookup run s.jobs) s.store })
      (unchanged (cancel_token (lookup run s.jobs) s.store) s.statuses s.accepting s.has_workers
        s.drains s h)

shutdown-IsBounded :
    {limit : ℕ}
    → (p r : Bool) (s : Scheduler) → IsBounded limit s
    → IsBounded limit (shutdown p r s)
unfolding shutdown
shutdown-IsBounded {limit = limit} p r s h = ground (
  arith,
  h,
  cancel_queued-IsBounded {limit = limit} s.jobs (record s { accepting = false }),
  cancel_tasks-IsBounded {limit = limit} s.tasks (record s { accepting = false }),
  cancel_tasks-IsBounded {limit = limit}
      (cancel_queued s.jobs (record s { accepting = false })).tasks
      (cancel_queued s.jobs (record s { accepting = false })),
)

cancel-IsBounded :
    {limit : ℕ}
    → (run : String) (s : Scheduler) → IsBounded limit s
    → IsBounded limit (cancel run s).1
unfolding cancel
cancel-IsBounded run s h = ground (arith, h)

invoke-IsBounded :
    {limit : ℕ} → (n : ℕ) (s : Scheduler) → IsBounded limit s → IsBounded limit (invoke n s)
unfolding invoke
invoke-IsBounded n s h = ground (arith, h)

join-IsBounded :
    {limit : ℕ} → (i : ℕ) (s : Scheduler) → IsBounded limit s → IsBounded limit (join i s)
unfolding join
join-IsBounded i s h = ground (arith, h)

put_stop-IsBounded :
    {limit : ℕ} → (i : ℕ) (s : Scheduler) → IsBounded limit s → IsBounded limit (put_stop i s)
unfolding put_stop
put_stop-IsBounded i s h = ground (arith, h, length-snoc s.queue none)

wider : {limit : ℕ} {s : Scheduler} → IsBounded limit s → IsBounded (limit + 0) s
wider {limit = limit} {s = s} h = subst (λ n. IsBounded n s) (omega arith) h

Step-IsBounded :
    {limit : ℕ} {s t : Scheduler}
    → (step : Step s t) → IsBounded limit s
    → IsBounded (limit + overlap step) t
Step-IsBounded starts h = start-IsBounded _ h
Step-IsBounded (submits run) h = wider (submit-IsBounded run _ h)
Step-IsBounded takes h = wider (take-IsBounded _ h)
Step-IsBounded (invokes n) h = wider (invoke-IsBounded n _ h)
Step-IsBounded (finishes n outcome d) h = wider (finish-IsBounded n outcome _ h)
Step-IsBounded (cancels run) h = wider (cancel-IsBounded run _ h)
Step-IsBounded (shuts_down p r) h = wider (shutdown-IsBounded p r _ h)
Step-IsBounded (joins i) h = wider (join-IsBounded i _ h)
Step-IsBounded (stops i) h = wider (put_stop-IsBounded i _ h)

new_scheduler-IsBounded :
    (max_active queue_capacity : ℕ) (s : Scheduler)
    → new_scheduler max_active queue_capacity ≡ ok s
    → IsBounded s.max_active s
unfolding new_scheduler names distinct mem
new_scheduler-IsBounded max_active queue_capacity s h = ground (arith, h)

-- In any interleaving of callers and workers on a new scheduler, the waiting queue is within its
-- capacity, no more tasks are active than the recorded peak and no more jobs awaited than there are
-- workers, and the count that `join` waits for is that of the queued items and awaited jobs. Workers and
-- peak are at most `max_active`, and as many more for each start that came while workers of an earlier
-- shutdown were still ending.
pub Reach-IsBounded :
    (max_active queue_capacity : ℕ) (s t : Scheduler)
    → new_scheduler max_active queue_capacity ≡ ok s
    → (r : Reach s t) → IsBounded (worker_limit r) t
Reach-IsBounded max_active queue_capacity s t e here =
    new_scheduler-IsBounded max_active queue_capacity s e
Reach-IsBounded max_active queue_capacity s t e (next {t = u} r step) =
    Step-IsBounded step (Reach-IsBounded max_active queue_capacity s u e r)
