-- ===== src/Runs/Later.antt =====
-- Each operation of the store keeps the rows that are there.
use doppel_agent.Prelude.{
  ℕ, ◌+◌, ltb, mem, String, ◌≡◌, refl, sym, ap, ◌∙◌, Bool, true, false, not, ◌&&◌, ◌||◌, Option,
  none, some, List, [], ◌∷◌, ◌++◌, arith, str_eq, eq_iff, if◌then◌else◌, inl, inr, Bool-cases,
  Result, ok, err, map,
}
use mathlib.Core.Path.{subst}
use doppel_agent.Runs.Tables.{
  Status, interrupted, failed, Run, Request, Event, Db, RunError, same_status, is_at, find_run,
  update_run, indexed, commit, not_waiting, wrong_interrupt, approval_expired_error, integrity,
}
use doppel_agent.Runs.Turns.{Fresh, project_run-runs}
use doppel_agent.Runs.Store.{
  Acceptance, accept, keyed, create, set_status, update, request_cancel, released,
  release_conversation_turn,
}
use doppel_agent.Runs.Claims.{
  claim_interrupt, decide_claim, settle_claim, claim_event, expire, requeue,
}
use doppel_agent.Runs.Restart.{
  recover_incomplete, selected, fold_run, fail_run, matches, map-map, recover_rows-runs,
}
use doppel_agent.Runs.Keys.{accept-IsAccepted}
use doppel_agent.Runs.Histories.{left}
use doppel_agent.Runs.Kept.{
  IsKept, Extends, IsKept-refl, Extends-append, Extends-same, Extends-update_run, Extends-map,
}

module _ (id : String) (calm : Bool) where
  left-Extends :
      {A : Type 0} (x : Result RunError (A × Db)) (db : Db)
      → ((a : A) (after : Db) → x ≡ ok (a, after) → Extends id calm db.runs after.runs)
      → Extends id calm db.runs (left x db).runs
  left-Extends (ok (a, after)) db f = f a after refl
  left-Extends (err e) db f = Extends-same id calm db.runs db.runs refl

  pub create-Extends :
      (a : Acceptance) (r : Request) (fresh : Fresh) (db : Db)
      → Extends id calm db.runs (left (create a r fresh db) db).runs
  unfolding create commit
  create-Extends a r fresh db = by_row (keyed a.idempotency_key db.runs) refl
    where
      by_accept :
          (x : Result RunError ((Run × Bool) × Db))
          → accept a r fresh db ≡ x
          → Extends id calm db.runs (left (commit x) db).runs
      by_accept (err e) k = Extends-same id calm db.runs db.runs refl
      by_accept (ok ((run, new), after)) k = elim (Bool-cases (indexed after.runs)) [
        | inl good ↦ rw good (
            subst (Extends id calm db.runs)
              (sym (accept-IsAccepted a r fresh db run new after k).rows)
              (Extends-append id calm db.runs (run ∷ [])))
        | inr bad ↦ rw bad (Extends-same id calm db.runs db.runs refl)
      ]

      by_row :
          (o : Option Run)
          → keyed a.idempotency_key db.runs ≡ o
          → Extends id calm db.runs (left (create a r fresh db) db).runs
      by_row (some run) k =
          Extends-same id calm db.runs (left (create a r fresh db) db).runs (ground (arith, k))
      by_row none k =
          let same : create a r fresh db ≡ commit (accept a r fresh db) = rw (k, create) refl in
          subst (λ x. Extends id calm db.runs (left x db).runs) (sym same)
            (by_accept (accept a r fresh db) refl)

  pub update-Extends :
      (other : String) (status : Status) (answer error : String) (interrupts : List String)
      (fallback : Bool) (now : ℕ) (db : Db)
      → (calm ≡ true → (str_eq other id && same_status status interrupted) ≡ false)
      → Extends id calm db.runs
          (left (update other status answer error interrupts fallback now db) db).runs
  unfolding update commit
  update-Extends other status answer error interrupts fallback now db quiet =
      left-Extends (update other status answer error interrupts fallback now db) db (λ a after k.
        subst (Extends id calm db.runs) (sym (written a after k))
          (Extends-update_run id calm other set db.runs kept))
    where
      set : Run → Run
      set = set_status status answer error interrupts fallback now

      written :
          (a : Option Run) (after : Db)
          → update other status answer error interrupts fallback now db ≡ ok (a, after)
          → after.runs ≡ update_run other set db.runs
      written a after k =
          ground
            (arith, k, project_run-runs other (record db { runs = update_run other set db.runs }))

      kept : (r : Run) → is_at other r ≡ true → IsKept id calm r (set r)
      kept r at = record {
        same_id = refl;
        same_key = refl;
        same_request = refl;
        still = λ c mine h.
            let same : str_eq other id ≡ true =
              ground (arith, at, mine, eq_iff r.run_id other, eq_iff r.run_id id) in
            let other_status : same_status status interrupted ≡ false =
              ground (arith, quiet c, same) in
            rw other_status refl;
      }

  pub cancel-Extends :
      (other : String) (now : ℕ) (db : Db)
      → Extends id calm db.runs (request_cancel other now db).1.runs
  unfolding request_cancel
  cancel-Extends other now db =
      Extends-update_run id calm other
        (λ run. record run { cancel_requested = true; updated_at = now }) db.runs
        (λ r at. record {
          same_id = refl;
          same_key = refl;
          same_request = refl;
          still = λ c mine h. ground arith;
        })

  released-IsKept : (r : Run) → IsKept id calm r (released r)
  released-IsKept r = record {
    same_id = ground arith;
    same_key = ground arith;
    same_request = ground arith;
    still = λ c mine h. ground (arith, h);
  }

  pub release-Extends :
      (other : String) (db : Db) → Extends id calm db.runs (release_conversation_turn other db).runs
  unfolding release_conversation_turn
  release-Extends other db =
      Extends-update_run id calm other released db.runs (λ r at. released-IsKept r)

  idle-IsKept :
      (r s : Run)
      → s.run_id ≡ r.run_id
      → s.idempotency_key ≡ r.idempotency_key
      → s.request ≡ r.request
      → same_status s.status interrupted ≡ false
      → IsKept id calm r s
  idle-IsKept r s i k q h = record {
    same_id = i;
    same_key = k;
    same_request = q;
    still = λ c mine w. rw h refl;
  }

  settle_claim-Extends :
      (run : Run) (f : Run → Run) (event : Event) (db : Db)
      → ((r : Run) → IsKept id calm r (f r))
      → Extends id calm db.runs (settle_claim run f event db).runs
  unfolding settle_claim
  settle_claim-Extends run f event db k =
      subst (Extends id calm db.runs)
        (sym (
          project_run-runs run.run_id (record db {
            runs = update_run run.run_id f db.runs;
            events = db.events ++ (event ∷ []);
          })))
        (Extends-update_run id calm run.run_id f db.runs (λ r at. k r))

  either-Extends :
      (b : Bool) (x y : Result RunError (Option Run) × Db) (db : Db)
      → Extends id calm db.runs x.1.runs
      → Extends id calm db.runs y.1.runs
      → Extends id calm db.runs (if b then x else y).1.runs
  either-Extends true x y db h k = h
  either-Extends false x y db h k = k

  settled_as-IsKept :
      (late : Bool) (now : ℕ) (r : Run)
      → IsKept id calm r ((if late then expire now else requeue now) r)
  settled_as-IsKept true now r = idle-IsKept r (expire now r) refl refl refl refl
  settled_as-IsKept false now r = idle-IsKept r (requeue now r) refl refl refl refl

  decide_claim-Extends :
      (run : Run) (interrupt decision : String) (ttl now : ℕ) (db : Db)
      → Extends id calm db.runs (decide_claim run interrupt decision ttl now db).1.runs
  decide_claim-Extends run interrupt decision ttl now db =
      let late = ltb (run.updated_at + ttl) now in
      let written =
        settle_claim run (if late then expire now else requeue now)
          (claim_event run now interrupt decision late) db in
      let here = Extends-same id calm db.runs db.runs refl in
      let there =
        settle_claim-Extends run (if late then expire now else requeue now)
          (claim_event run now interrupt decision late) db (settled_as-IsKept late now) in
      either-Extends (not (indexed written.runs)) (err integrity, db)
        (if late
          then (err approval_expired_error, written)
          else (ok (find_run run.run_id written.runs), written))
        db here
        (either-Extends late (err approval_expired_error, written)
          (ok (find_run run.run_id written.runs), written) db there there)

  pub claim-Extends :
      (other interrupt decision : String) (ttl now : ℕ) (db : Db)
      → Extends id calm db.runs (claim_interrupt other interrupt decision ttl now db).1.runs
  unfolding claim_interrupt
  claim-Extends other interrupt decision ttl now db = by_run (find_run other db.runs) refl
    where
      here : Extends id calm db.runs db.runs
      here = Extends-same id calm db.runs db.runs refl

      by_run :
          (o : Option Run)
          → find_run other db.runs ≡ o
          → Extends id calm db.runs (claim_interrupt other interrupt decision ttl now db).1.runs
      by_run none k =
          Extends-same id calm db.runs (claim_interrupt other interrupt decision ttl now db).1.runs
            (ground (arith, k))
      by_run (some run) k =
          let tried =
            if not (same_status run.status interrupted) || run.cancel_requested
            then (err not_waiting, db)
            else if not (mem interrupt run.interrupts)
            then (err wrong_interrupt, db)
            else decide_claim run interrupt decision ttl now db in
          let same : claim_interrupt other interrupt decision ttl now db ≡ tried =
            rw (k, claim_interrupt) refl in
          subst (λ (x : Result RunError (Option Run) × Db). Extends id calm db.runs x.1.runs)
            (sym same)
            (either-Extends (not (same_status run.status interrupted) || run.cancel_requested)
              (err not_waiting, db)
              (if not (mem interrupt run.interrupts)
                then (err wrong_interrupt, db)
                else decide_claim run interrupt decision ttl now db)
              db here
              (either-Extends (not (mem interrupt run.interrupts)) (err wrong_interrupt, db)
                (decide_claim run interrupt decision ttl now db) db here
                (decide_claim-Extends run interrupt decision ttl now db)))

  fold_run-IsKept :
      (error : String) (now : ℕ) (rows : List Run) (r : Run)
      → IsKept id calm r (fold_run error now rows r)
  unfolding fold_run
  fold_run-IsKept error now [] r = IsKept-refl id calm r
  fold_run-IsKept error now (row ∷ rows) r =
      let one = fail_run-IsKept (matches row r) in
      let rest = fold_run-IsKept error now rows (fail_run error now row r) in
      record {
        same_id = rest.same_id ∙ one.same_id;
        same_key = rest.same_key ∙ one.same_key;
        same_request = rest.same_request ∙ one.same_request;
        still = λ c mine h.
            rest.still c (ap (λ x. str_eq x id) one.same_id ∙ mine) (one.still c mine h);
      }
    where
      fail_run-IsKept :
          (b : Bool)
          → IsKept id calm r (
              if b
              then record r {
                status = failed;
                error = error;
                updated_at = now;
                finished_at = some now;
              }
              else r)
      fail_run-IsKept true = idle-IsKept r _ refl refl refl refl
      fail_run-IsKept false = IsKept-refl id calm r

  pub recover-Extends :
      (error : String) (now : ℕ) (db : Db)
      → Extends id calm db.runs (recover_incomplete error now db).1.runs
  unfolding recover_incomplete
  recover-Extends error now db =
      subst (λ runs. Extends id calm db.runs (map released runs))
        (sym (recover_rows-runs error now (selected db.runs) db))
        (subst (Extends id calm db.runs)
          (sym (map-map released (fold_run error now (selected db.runs)) db.runs))
          (Extends-map id calm (λ r. released (fold_run error now (selected db.runs) r)) db.runs
            both))
    where
      both : (r : Run) → IsKept id calm r (released (fold_run error now (selected db.runs) r))
      both r =
          let one = fold_run-IsKept error now (selected db.runs) r in
          let last = released-IsKept (fold_run error now (selected db.runs) r) in
          record {
            same_id = last.same_id ∙ one.same_id;
            same_key = last.same_key ∙ one.same_key;
            same_request = last.same_request ∙ one.same_request;
            still = λ c mine h.
                last.still c (ap (λ x. str_eq x id) one.same_id ∙ mine) (one.still c mine h);
          }
