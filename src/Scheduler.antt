-- ===== src/Scheduler.antt =====
-- concurrency/scheduler.py: `AsyncRunScheduler`. Each function is what one coroutine does between two
-- of its suspensions; the lock is only held where nothing is awaited.
pub mod Step
pub mod Bounds
pub mod Futures
pub mod Cancelled
pub mod Tests
use doppel_agent.Prelude.{
  ℕ, zero, suc, ◌+◌, ◌-◌, String, Bool, true, false, not, ◌&&◌, ◌||◌, Option, none, some, List, [],
  ◌∷◌, ◌++◌, ltb, ◌==◌, if◌then◌else◌, is_some, length, lookup, assign, pop, Result, ok, err,
}

-- An `asyncio.Future`: pending, or what it was resolved with.
pub data Future : Type 0 where
  pending : Future
  result : ℕ → Future
  failure : ℕ → Future
  cancelled_future : Future

pub data Status : Type 0 where
  queued running completed failed cancelled : Status

-- `_Job`; the operation is what the environment resolves the job with
pub record Job : Type 0 where
  pub run_id : String
  pub future : Future
  pub token : Bool
  pub started : Bool

pub data SchedulerError : Type 0 where
  not_accepting already_scheduled queue_full limits_invalid : SchedulerError

-- A `shutdown` behind its lock: how often it still puts `_STOP`, and whether it awaits the queue's join
-- before.
pub record Drain : Type 0 where
  pub stops : ℕ
  pub joining : Bool

-- Jobs are numbered in the order of their creation; `none` in the queue is `_STOP`. `alive` counts the
-- worker coroutines that have not returned, and `busy` the jobs that they await,
-- each with its run id. `drains` are the calls of
-- `shutdown` that have not put their last `_STOP`: there are more where a start came in between.
pub record Scheduler : Type 0 where
  pub max_active : ℕ
  pub queue_capacity : ℕ
  pub queue : List (Option ℕ)
  pub unfinished : ℕ
  pub has_workers : Bool
  pub alive : ℕ
  pub busy : List (String × ℕ)
  pub store : ℕ → Job
  pub created : ℕ
  pub jobs : List (String × ℕ)
  pub tasks : List (String × ℕ)
  pub statuses : List (String × Status)
  pub accepting : Bool
  pub peak_active_count : ℕ
  pub accepted_count : ℕ
  pub rejected_count : ℕ
  pub drains : List Drain

abbrev pub blank_job : Job
blank_job = record { run_id = ""; future = pending; token = false; started = false }

-- `__init__`
unfoldable pub new_scheduler : ℕ → ℕ → Result SchedulerError Scheduler
new_scheduler max_active queue_capacity =
    if ltb max_active 1 || ltb queue_capacity 1
    then err limits_invalid
    else ok record {
      max_active = max_active;
      queue_capacity = queue_capacity;
      queue = [];
      unfinished = 0;
      has_workers = false;
      alive = 0;
      busy = [];
      store = λ n. blank_job;
      created = 0;
      jobs = [];
      tasks = [];
      statuses = [];
      accepting = false;
      peak_active_count = 0;
      accepted_count = 0;
      rejected_count = 0;
      drains = [];
    }

-- `start`
unfoldable pub start : Scheduler → Scheduler
start s =
    if s.has_workers
    then s
    else record s { accepting = true; has_workers = true; alive = s.alive + s.max_active }

abbrev pub update : ℕ → Job → (ℕ → Job) → ℕ → Job
update n job store m = if m == n then job else store m

abbrev pub is_final : Option Status → Bool
is_final none = false
is_final (some completed) = true
is_final (some failed) = true
is_final (some cancelled) = true
is_final (some _) = false

abbrev is_scheduled : String → Scheduler → Bool
is_scheduled run s = elim (lookup run s.jobs) [
  | none ↦ false
  | some n ↦ not (is_final (lookup run s.statuses))
]

-- `submit`; the handle that it returns is the new job's number
unfoldable pub submit : String → Scheduler → Result SchedulerError ℕ × Scheduler
submit run s =
    if not s.accepting
    then (err not_accepting, s)
    else if is_scheduled run s
    then (err already_scheduled, s)
    else if not (ltb (length s.queue) s.queue_capacity)
    then (err queue_full, record s { rejected_count = s.rejected_count + 1 })
    else (
      ok s.created,
      record s {
        queue = s.queue ++ (some s.created ∷ []);
        unfinished = s.unfinished + 1;
        store = update s.created (record blank_job { run_id = run }) s.store;
        created = s.created + 1;
        jobs = assign run s.created s.jobs;
        statuses = assign run queued s.statuses;
        accepted_count = s.accepted_count + 1;
      },
    )

-- `if not future.done(): ...`
abbrev pub settle : Future → Future → Future
settle pending f = f
settle done f = done

abbrev max : ℕ → ℕ → ℕ
max a b = if ltb a b then b else a

-- `_worker` with a job that was cancelled while it waited
abbrev pub skip_job : ℕ → Job → Scheduler → Scheduler
skip_job n job s = record s {
  unfinished = s.unfinished - 1;
  store = update n (record job { future = settle job.future cancelled_future }) s.store;
  statuses = assign job.run_id cancelled s.statuses;
}

-- with any other job, whose task it creates and awaits
abbrev pub run_job : ℕ → Job → Scheduler → Scheduler
run_job n job s =
    let tasks = assign job.run_id n s.tasks in
    record s {
      busy = (job.run_id, n) ∷ s.busy;
      tasks = tasks;
      peak_active_count = max s.peak_active_count (length tasks);
      statuses = assign job.run_id running s.statuses;
    }

abbrev pub begin_job : ℕ → Job → Scheduler → Scheduler
begin_job n job s = if job.token then skip_job n job s else run_job n job s

-- An idle worker takes the next item; at `_STOP` it returns.
unfoldable pub take : Scheduler → Scheduler
take s = if not (ltb (length s.busy) s.alive) then s else elim s.queue [
  | [] ↦ s
  | none ∷ rest ↦ record s { queue = rest; alive = s.alive - 1; unfinished = s.unfinished - 1 }
  | some n ∷ rest ↦ begin_job n (s.store n) (record s { queue = rest })
]

-- the run id of a job that a worker awaits
unfoldable pub run_of : ℕ → List (String × ℕ) → Option String
run_of n [] = none
run_of n ((run, m) ∷ rest) = let later = run_of n rest in if m == n then some run else later

unfoldable pub drop_job : ℕ → List (String × ℕ) → List (String × ℕ)
drop_job n [] = []
drop_job n ((run, m) ∷ rest) =
    let later = drop_job n rest in if m == n then rest else (run, m) ∷ later

-- `_invoke`: the job's task takes its first step
unfoldable pub invoke : ℕ → Scheduler → Scheduler
invoke n s =
    if is_some (run_of n s.busy)
    then record s { store = update n (record (s.store n) { started = true }) s.store }
    else s

abbrev status_of : Future → Status
status_of (result v) = completed
status_of (failure e) = failed
status_of _ = cancelled

-- `_worker` after `await task`: the task has returned, raised or been cancelled
unfoldable pub finish : ℕ → Future → Scheduler → Scheduler
finish n outcome s = elim (run_of n s.busy) [
  | none ↦ s
  | some run ↦ record s {
    busy = drop_job n s.busy;
    unfinished = s.unfinished - 1;
    store = update n (record (s.store n) { future = settle (s.store n).future outcome }) s.store;
    tasks = pop run s.tasks;
    statuses = assign run (status_of outcome) s.statuses;
  }
]

-- the job of a `cancel` that goes through; a task that is running gets its `cancel()`, which shows as
-- a later `finish`
abbrev cancel_job : Option ℕ → Job → Job
cancel_job (some task) job = record job { token = true }
cancel_job none job = record job { token = true; future = settle job.future cancelled_future }

-- `cancel`
unfoldable pub cancel : String → Scheduler → Bool × Scheduler
cancel run s = elim (lookup run s.jobs) [
  | none ↦ (false, s)
  | some n ↦ if is_final (lookup run s.statuses) then (false, s) else (
    true,
    record s {
      store = update n (cancel_job (lookup run s.tasks) (s.store n)) s.store;
      statuses = assign run cancelled s.statuses;
    },
  )
]

abbrev is_queued : Option Status → Bool
is_queued (some queued) = true
is_queued _ = false

-- the loop of `shutdown` over the jobs that wait
unfoldable pub cancel_queued : List (String × ℕ) → Scheduler → Scheduler
cancel_queued [] s = s
cancel_queued ((run, n) ∷ rest) s = cancel_queued rest (
    if is_queued (lookup run s.statuses)
    then record s {
      store = update n (cancel_job none (s.store n)) s.store;
      statuses = assign run cancelled s.statuses;
    }
    else s)

abbrev cancel_token : Option ℕ → (ℕ → Job) → ℕ → Job
cancel_token none store = store
cancel_token (some n) store = update n (record (store n) { token = true }) store

-- its loop over the running tasks
unfoldable pub cancel_tasks : List (String × ℕ) → Scheduler → Scheduler
cancel_tasks [] s = s
cancel_tasks ((run, task) ∷ rest) s =
    cancel_tasks rest (record s { store = cancel_token (lookup run s.jobs) s.store })

-- `shutdown` up to its first suspension
unfoldable pub shutdown : Bool → Bool → Scheduler → Scheduler
shutdown pending_too running_too s =
    let s' = record s { accepting = false } in
    if not s.has_workers
    then s'
    else let waiting = if pending_too then cancel_queued s.jobs s' else s' in
      let tasks = if running_too then cancel_tasks waiting.tasks waiting else waiting in
      record tasks {
        has_workers = false;
        drains = s.drains ++ (record { stops = s.max_active; joining = not pending_too } ∷ []);
      }

abbrev drain_at : ℕ → List Drain → Option Drain
drain_at n [] = none
drain_at zero (d ∷ ds) = some d
drain_at (suc n) (d ∷ ds) = drain_at n ds

abbrev set_drain : ℕ → Drain → List Drain → List Drain
set_drain n e [] = []
set_drain zero e (d ∷ ds) = e ∷ ds
set_drain (suc n) e (d ∷ ds) = d ∷ set_drain n e ds

-- `await self._queue.join()` of a shutdown
unfoldable pub join : ℕ → Scheduler → Scheduler
join i s = elim (drain_at i s.drains) [
  | none ↦ s
  | some d ↦
      if s.unfinished == 0
      then record s { drains = set_drain i (record d { joining = false }) s.drains }
      else s
]

-- one `await self._queue.put(self._STOP)` of a shutdown
unfoldable pub put_stop : ℕ → Scheduler → Scheduler
put_stop i s = elim (drain_at i s.drains) [
  | none ↦ s
  | some d ↦
      if d.joining || (d.stops == 0) || not (ltb (length s.queue) s.queue_capacity)
      then s
      else record s {
        queue = s.queue ++ (none ∷ []);
        unfinished = s.unfinished + 1;
        drains = set_drain i (record d { stops = d.stops - 1 }) s.drains;
      }
]

-- `status`
abbrev pub status : String → Scheduler → Option Status
status run s = lookup run s.statuses

-- `completion`: the future of the run's current job
abbrev pub completion : String → Scheduler → Option Future
completion run s = elim (lookup run s.jobs) [ none ↦ none | some n ↦ some (s.store n).future ]

-- `queued_count`
abbrev pub queued_count : Scheduler → ℕ
queued_count s = length s.queue

-- `active_count`
abbrev pub active_count : Scheduler → ℕ
active_count s = length s.tasks
