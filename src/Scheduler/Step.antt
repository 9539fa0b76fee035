-- ===== src/Scheduler/Step.antt =====
-- The interleavings of the scheduler: its callers and its workers take steps in any order. A start may
-- come while the workers of an earlier shutdown still end.
use doppel_agent.Prelude.{ℕ, ◌+◌, String, ◌≡◌, Bool, true, false, ◌||◌, ◌==◌, if◌then◌else◌}
use doppel_agent.Scheduler.{
  Scheduler, Future, pending, start, submit, take, invoke, finish, cancel, shutdown, join, put_stop,
}

abbrev pub is_done : Future → Bool
is_done pending = false
is_done _ = true

pub data Step (s : Scheduler) : Scheduler → Type 0 where
  starts : Step s (start s)
  submits : (run : String) → Step s (submit run s).1
  takes : Step s (take s)
  invokes : (n : ℕ) → Step s (invoke n s)
  finishes : (n : ℕ) (outcome : Future) → is_done outcome ≡ true → Step s (finish n outcome s)
  cancels : (run : String) → Step s (cancel run s).1
  shuts_down : (pending_too running_too : Bool) → Step s (shutdown pending_too running_too s)
  joins : (i : ℕ) → Step s (join i s)
  stops : (i : ℕ) → Step s (put_stop i s)

pub data Reach (s : Scheduler) : Scheduler → Type 0 where
  here : Reach s s
  next : {t u : Scheduler} → Reach s t → Step t u → Reach s u

-- The workers that a start adds to those of an earlier shutdown which have not returned.
abbrev pub overlap : {s t : Scheduler} → Step s t → ℕ
overlap {s = s} starts = if s.has_workers || (s.alive == 0) then 0 else s.max_active
overlap _ = 0

-- How many workers there may be at once: `max_active`, and as many again for every start that comes
-- before the workers of an earlier shutdown have returned.
abbrev pub worker_limit : {s t : Scheduler} → Reach s t → ℕ
worker_limit {s = s} here = s.max_active
worker_limit (next r step) = worker_limit r + overlap step
