-- ===== src/Runs/Lasting.antt =====
-- What an accepted key and a decided approval mean after any further operations of the store.
use doppel_agent.Prelude.{
  ℕ, String, ◌≡◌, refl, ap, ◌∙◌, Bool, true, false, not, ◌&&◌, Option, none, some, List, [], ◌∷◌,
  arith, str_eq, if◌then◌else◌, is_some, ok, err, All,
}
use doppel_agent.Runs.Tables.{
  interrupted, Run, Request, Db, same_status, find_run, find_key, commit, not_waiting, key_reused,
}
use doppel_agent.Runs.Turns.{Fresh}
use doppel_agent.Runs.Store.{Acceptance, accept, create}
use doppel_agent.Runs.Claims.{claim_interrupt, waits, is_decision}
use doppel_agent.Runs.Keys.{accept-IsAccepted}
use doppel_agent.Runs.Histories.{
  Operation, creates, updates, cancels, releases, claims, recovers, perform, perform_all, leaves,
}
use doppel_agent.Runs.Kept.{Extends, find_key-Extends, is_settled, is_settled-Extends, not-eq-true}
use doppel_agent.Runs.Later.{
  create-Extends, update-Extends, cancel-Extends, release-Extends, claim-Extends, recover-Extends,
}
use doppel_agent.Runs.Keys.{find_key-accepted}
use doppel_agent.Runs.Claims.{claim_interrupt-settles, claim_interrupt-refused}

perform-Extends :
    (id : String) (calm : Bool) (o : Operation) (db : Db)
    → (calm ≡ true → leaves id o ≡ true)
    → Extends id calm db.runs (perform o db).runs
unfolding perform
perform-Extends id calm (creates a r fresh) db q = create-Extends id calm a r fresh db
perform-Extends id calm (updates other status answer error interrupts fallback now) db q =
    update-Extends id calm other status answer error interrupts fallback now db
      (λ c. not-eq-true (str_eq other id && same_status status interrupted) (q c))
perform-Extends id calm (cancels other now) db q = cancel-Extends id calm other now db
perform-Extends id calm (releases other) db q = release-Extends id calm other db
perform-Extends id calm (claims other interrupt decision ttl now) db q =
    claim-Extends id calm other interrupt decision ttl now db
perform-Extends id calm (recovers error now) db q = recover-Extends id calm error now db

-- A run keeps its key and its request through any operations.
find_key-perform_all :
    (os : List Operation) (key : String) (db : Db) (run : Run)
    → find_key key db.runs ≡ some run
    → (s : Run) × (find_key key (perform_all os db).runs ≡ some s)
      × (s.run_id ≡ run.run_id)
      × (s.request ≡ run.request)
unfolding perform_all
find_key-perform_all [] key db run h = (run, h, refl, refl)
find_key-perform_all (o ∷ os) key db run h =
    let (s, found, a, b) =
      find_key-Extends "" false key db.runs (perform o db).runs run
        (perform-Extends "" false o db (λ c. absurd (ground (arith, c)))) h in
    let (t, later, c, d) = find_key-perform_all os key (perform o db) s found in
    (t, later, c ∙ a, d ∙ b)

create-stored :
    (b : Acceptance) (q : Request) (other : Fresh) (db : Db) (row : Run) (key : String)
    → b.idempotency_key ≡ some key
    → str_eq key "" ≡ false
    → find_key key db.runs ≡ some row
    → create b q other db
      ≡ (if str_eq row.request.canonical q.canonical then ok ((row, false), db) else err key_reused)
unfolding create
create-stored b q other db row key f ne h = ground (arith, f, ne, h)

create-accepted :
    (a : Acceptance) (r : Request) (fresh : Fresh) (db after : Db) (run : Run) (key : String)
    → a.idempotency_key ≡ some key
    → str_eq key "" ≡ false
    → create a r fresh db ≡ ok ((run, true), after)
    → (find_key key after.runs ≡ some run) × (run.request ≡ r)
unfolding create commit
create-accepted a r fresh db after run key e ne h = by_row (find_key key db.runs) refl
  where
    by_row :
        (o : Option Run)
        → find_key key db.runs ≡ o
        → (find_key key after.runs ≡ some run) × (run.request ≡ r)
    by_row (some row) k = absurd (ground (arith, e, k, ne, h))
    by_row none k =
        let made : accept a r fresh db ≡ ok ((run, true), after) = ground (arith, e, k, ne, h) in
        let given = accept-IsAccepted a r fresh db run true after made in
        (find_key-accepted a r db run after key e k given, given.request)

-- A run that was accepted under a key answers every request with that key, whatever operations come in
-- between: the same request gets the run of that id and nothing is written, any other is refused.
pub create-replays :
    (a b : Acceptance) (r q : Request) (fresh other : Fresh) (db after : Db) (run : Run)
    (key : String) (os : List Operation)
    → a.idempotency_key ≡ some key
    → b.idempotency_key ≡ some key
    → str_eq key "" ≡ false
    → create a r fresh db ≡ ok ((run, true), after)
    → (row : Run) × (row.run_id ≡ run.run_id)
      × (create b q other (perform_all os after) ≡ (
          if str_eq r.canonical q.canonical
          then ok ((row, false), perform_all os after)
          else err key_reused))
create-replays a b r q fresh other db after run key os e f ne h =
    let (found, asked) = create-accepted a r fresh db after run key e ne h in
    let (row, later, same, request) = find_key-perform_all os key after run found in
    let answer = create-stored b q other (perform_all os after) row key f ne later in
    (row, same, ground (arith, answer, ap (λ (x : Request). x.canonical) (request ∙ asked)))

is_settled-perform_all :
    (id : String) (os : List Operation) (db : Db)
    → All (λ o. leaves id o ≡ true) os
    → is_settled id db.runs ≡ true
    → is_settled id (perform_all os db).runs ≡ true
unfolding perform_all
is_settled-perform_all id [] db q h = h
is_settled-perform_all id (o ∷ os) db q h =
    is_settled-perform_all id os (perform o db) q.1 (
      is_settled-Extends id db.runs (perform o db).runs (perform-Extends id true o db (λ c. q.0)) h)

settled-parts :
    (id : String) (runs : List Run)
    → is_settled id runs ≡ true
    → (waits (find_run id runs) ≡ false) × (is_some (find_run id runs) ≡ true)
settled-parts id runs h = by_parts (is_some (find_run id runs)) (waits (find_run id runs)) h
  where
    by_parts : (x y : Bool) → (x && not y) ≡ true → (y ≡ false) × (x ≡ true)
    by_parts x y k = (ground (arith, k), ground (arith, k))

-- A claim that has decided or expired an approval finds the run waiting. Whatever operations follow, as
-- long as none of them is an update that interrupts this run again, every claim on it, with whatever
-- interrupt, decision and time, is refused and changes nothing.
pub claim_interrupt-once :
    (id interrupt decision : String) (ttl now : ℕ) (db : Db) (os : List Operation)
    (other answer : String) (ttl' now' : ℕ)
    → is_decision (claim_interrupt id interrupt decision ttl now db).0 ≡ true
    → All (λ o. leaves id o ≡ true) os
    → (waits (find_run id db.runs) ≡ true)
      × (claim_interrupt id other answer ttl' now'
            (perform_all os (claim_interrupt id interrupt decision ttl now db).1)
          ≡ (err not_waiting, perform_all os (claim_interrupt id interrupt decision ttl now db).1))
claim_interrupt-once id interrupt decision ttl now db os other answer ttl' now' h q =
    let after = (claim_interrupt id interrupt decision ttl now db).1 in
    let (was, done, there) = claim_interrupt-settles id interrupt decision ttl now db h in
    let settled : is_settled id after.runs ≡ true = rw there (rw done refl) in
    let (late, found) =
      settled-parts id (perform_all os after).runs (is_settled-perform_all id os after q settled) in
    (was, claim_interrupt-refused id other answer ttl' now' (perform_all os after) late found)
