-- ===== src/Runs/Claims.antt =====
-- `claim_interrupt`: a pending approval is decided or expires.
use doppel_agent.Prelude.{
  ℕ, ◌+◌, String, ◌≡◌, refl, Bool, true, false, not, ◌&&◌, ◌||◌, Option, none, some, [], ◌∷◌, ◌++◌,
  arith, eq_iff, if◌then◌else◌, is_some, Result, ok, err, mem, ltb,
}
use doppel_agent.Runs.Tables.{
  queued, interrupted, interrupted_expired, Run, Event, approval_expired, approval_decided, Db,
  RunError, unknown_run, not_waiting, wrong_interrupt, approval_expired_error, same_status,
  find_run, update_run, indexed, integrity, find_run-update_run, find_run-id,
}
use doppel_agent.Runs.Turns.{project_run, project_run-runs}

abbrev pub expire : ℕ → Run → Run
expire now run = record run {
  status = interrupted_expired;
  lease_active = false;
  updated_at = now;
  finished_at = some now;
}

abbrev pub requeue : ℕ → Run → Run
requeue now run = record run { status = queued; updated_at = now }

-- the writes of a claim that goes through: the row, its event, the projection
unfoldable pub settle_claim : Run → (Run → Run) → Event → Db → Db
settle_claim run f event db =
    project_run run.run_id
      (record db { runs = update_run run.run_id f db.runs; events = db.events ++ (event ∷ []) })

abbrev pub claim_event : Run → ℕ → String → String → Bool → Event
claim_event run now interrupt decision expired = record {
  run_id = run.run_id;
  thread_id = run.thread_id;
  timestamp = now;
  payload = if expired then approval_expired interrupt else approval_decided interrupt decision;
}

-- The expiry is committed before it is raised.
abbrev pub decide_claim : Run → String → String → ℕ → ℕ → Db → Result RunError (Option Run) × Db
decide_claim run interrupt decision ttl now db =
    let late = ltb (run.updated_at + ttl) now in
    let written =
      settle_claim run (if late then expire now else requeue now)
        (claim_event run now interrupt decision late) db in
    if not (indexed written.runs)
    then (err integrity, db)
    else if late
    then (err approval_expired_error, written)
    else (ok (find_run run.run_id written.runs), written)

-- `claim_interrupt`
unfoldable pub claim_interrupt :
    String → String → String → ℕ → ℕ → Db → Result RunError (Option Run) × Db
claim_interrupt id interrupt decision ttl now db = elim (find_run id db.runs) [
  | none ↦ (err unknown_run, db)
  | some run ↦
      if not (same_status run.status interrupted) || run.cancel_requested
      then (err not_waiting, db)
      else if not (mem interrupt run.interrupts)
      then (err wrong_interrupt, db)
      else decide_claim run interrupt decision ttl now db
]

-- whether the run waits for a decision
abbrev pub waits : Option Run → Bool
waits none = false
waits (some run) = same_status run.status interrupted && not run.cancel_requested

find_run-settle_claim :
    (run : Run) (f : Run → Run) (event : Event) (db : Db)
    → ((r : Run) → (f r).run_id ≡ r.run_id)
    → find_run run.run_id db.runs ≡ some run
    → find_run run.run_id (settle_claim run f event db).runs ≡ some (f run)
unfolding settle_claim
find_run-settle_claim run f event db keep e = ground (
  arith,
  project_run-runs run.run_id
      (record db { runs = update_run run.run_id f db.runs; events = db.events ++ (event ∷ []) }),
  find_run-update_run run.run_id run.run_id f db.runs keep,
  eq_iff run.run_id run.run_id,
)

-- the results of a claim that has written
abbrev pub is_decision : Result RunError (Option Run) → Bool
is_decision (ok run) = true
is_decision (err approval_expired_error) = true
is_decision (err e) = false

pub claim_interrupt-settles :
    (id interrupt decision : String) (ttl now : ℕ) (db : Db)
    → is_decision (claim_interrupt id interrupt decision ttl now db).0 ≡ true
    → (waits (find_run id db.runs) ≡ true)
      × (waits (find_run id (claim_interrupt id interrupt decision ttl now db).1.runs) ≡ false)
      × (is_some (find_run id (claim_interrupt id interrupt decision ttl now db).1.runs) ≡ true)
unfolding claim_interrupt
claim_interrupt-settles id interrupt decision ttl now db h = by_run (find_run id db.runs) refl
  where
    by_run :
        (o : Option Run)
        → find_run id db.runs ≡ o
        → (waits (find_run id db.runs) ≡ true)
          × (waits (find_run id (claim_interrupt id interrupt decision ttl now db).1.runs) ≡ false)
          × (is_some (find_run id (claim_interrupt id interrupt decision ttl now db).1.runs) ≡ true)
    by_run none e = absurd (ground (arith, e, h))
    by_run (some run) e = ground (
      arith,
      e,
      h,
      find_run-id id db.runs run e,
      find_run-settle_claim run (expire now) (claim_event run now interrupt decision true) db,
      find_run-settle_claim run (requeue now) (claim_event run now interrupt decision false) db,
    )

pub claim_interrupt-refused :
    (id interrupt decision : String) (ttl now : ℕ) (db : Db)
    → waits (find_run id db.runs) ≡ false
    → is_some (find_run id db.runs) ≡ true
    → claim_interrupt id interrupt decision ttl now db ≡ (err not_waiting, db)
unfolding claim_interrupt
claim_interrupt-refused id interrupt decision ttl now db h k = ground arith
