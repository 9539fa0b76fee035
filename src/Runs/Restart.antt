-- ===== src/Runs/Restart.antt =====
-- `recover_incomplete`: runs whose operation was lost with the process are failed at a restart.
use doppel_agent.Prelude.{
  ℕ, String, ◌≡◌, refl, sym, ap, ◌∙◌, Bool, true, false, ◌&&◌, ◌||◌, some, List, [], ◌∷◌, ◌++◌,
  arith, eq_iff, if◌then◌else◌, ltb, map, All, All-map,
}
use mathlib.Core.Path.{subst}
use doppel_agent.Runs.Tables.{
  queued, running, failed, Run, Event, recovered_after_restart, Db, is_terminal, same_status, is_at,
}
use doppel_agent.Runs.Turns.{project_run, project_run-runs}
use doppel_agent.Runs.Store.{released}

-- `status IN ('queued','running')`
abbrev pub in_flight : Run → Bool
in_flight run = same_status run.status queued || same_status run.status running

unfoldable pub insert_row : Run → List Run → List Run
insert_row run [] = run ∷ []
insert_row run (other ∷ rows) =
    let rest = insert_row run rows in
    if ltb other.created_at run.created_at then other ∷ rest else run ∷ other ∷ rows

-- `SELECT * ... WHERE status IN ('queued','running') ORDER BY created_at`
unfoldable pub selected : List Run → List Run
selected [] = []
selected (run ∷ runs) =
    let rest = selected runs in if in_flight run then insert_row run rest else rest

-- the row of one `UPDATE ... SET status='failed' ... WHERE run_id=? AND status=?`
unfoldable pub matches : Run → Run → Bool
matches row run = is_at row.run_id run && same_status run.status row.status

abbrev pub fail_run : String → ℕ → Run → Run → Run
fail_run error now row run =
    if matches row run
    then record run { status = failed; error = error; updated_at = now; finished_at = some now }
    else run

abbrev recovery_event : String → ℕ → Run → Event
recovery_event error now row = record {
  run_id = row.run_id;
  thread_id = row.thread_id;
  timestamp = now;
  payload = recovered_after_restart row.status error;
}

unfoldable pub recover_rows : String → ℕ → List Run → Db → Db
recover_rows error now [] db = db
recover_rows error now (row ∷ rows) db = recover_rows error now rows (
    project_run row.run_id (record db {
      runs = map (fail_run error now row) db.runs;
      events = db.events ++ (recovery_event error now row ∷ []);
    }))

-- `recover_incomplete`: the recovered rows and the tables
unfoldable pub recover_incomplete : String → ℕ → Db → List Run × Db
recover_incomplete error now db =
    let rows = selected db.runs in
    let after = recover_rows error now rows db in
    (rows, record after { runs = map released after.runs })

-- what the rows make of one run
unfoldable pub fold_run : String → ℕ → List Run → Run → Run
fold_run error now [] run = run
fold_run error now (row ∷ rows) run = fold_run error now rows (fail_run error now row run)

pub map-map : {A : Type 0} (f g : A → A) (xs : List A) → map f (map g xs) ≡ map (λ x. f (g x)) xs
map-map f g [] = refl
map-map f g (x ∷ xs) = ap (λ ys. f (g x) ∷ ys) (map-map f g xs)

map_self : {A : Type 0} (xs : List A) → xs ≡ map (λ x. x) xs
map_self [] = refl
map_self (x ∷ xs) = ap (λ ys. x ∷ ys) (map_self xs)

pub recover_rows-runs :
    (error : String) (now : ℕ) (rows : List Run) (db : Db)
    → (recover_rows error now rows db).runs ≡ map (fold_run error now rows) db.runs
unfolding recover_rows fold_run
recover_rows-runs error now [] db = map_self db.runs
recover_rows-runs error now (row ∷ rows) db =
    let written : Db = record db {
      runs = map (fail_run error now row) db.runs;
      events = db.events ++ (recovery_event error now row ∷ []);
    } in
    recover_rows-runs error now rows (project_run row.run_id written)
    ∙ ap (map (fold_run error now rows)) (project_run-runs row.run_id written)
    ∙ map-map (fold_run error now rows) (fail_run error now row) db.runs

any_match : Run → List Run → Bool
any_match run [] = false
any_match run (row ∷ rows) = matches row run || any_match run rows

any_match-insert_row :
    (run row : Run) (rows : List Run)
    → any_match run (insert_row row rows) ≡ (matches row run || any_match run rows)
unfolding any_match insert_row
any_match-insert_row run row [] = refl
any_match-insert_row run row (other ∷ rows) = ground (arith, any_match-insert_row run row rows)

fold_run-settled :
    (error : String) (now : ℕ) (rows : List Run) (run : Run)
    → (in_flight run ≡ true → any_match run rows ≡ true)
    → in_flight (fold_run error now rows run) ≡ false
unfolding fold_run any_match matches
fold_run-settled error now [] run h = ground arith
fold_run-settled error now (row ∷ rows) run h =
    fold_run-settled error now rows (fail_run error now row run) (ground (arith, h))

Selects : List Run → Run → Type 0
Selects rows run = in_flight run ≡ true → any_match run rows ≡ true

any_match-selected : (runs : List Run) → All (Selects (selected runs)) runs
unfolding Selects selected matches
any_match-selected [] = tt
any_match-selected (run ∷ runs) = (
  λ h.
      ground (arith, h, any_match-insert_row run run (selected runs), eq_iff run.run_id run.run_id),
  All-map runs (λ other f h. ground (arith, f h, any_match-insert_row other run (selected runs)))
      (any_match-selected runs),
)

-- A run after a restart: no operation is in flight, and no finished run holds its conversation.
pub record IsRecovered (run : Run) : Type 0 where
  pub idle : in_flight run ≡ false
  pub free : (is_terminal run.status && run.lease_active) ≡ false

recover_run-IsRecovered :
    (error : String) (now : ℕ) (rows : List Run) (run : Run)
    → Selects rows run
    → IsRecovered (released (fold_run error now rows run))
unfolding Selects
recover_run-IsRecovered error now rows run h = ground (arith, fold_run-settled error now rows run h)

All-IsRecovered :
    (error : String) (now : ℕ) (rows runs : List Run)
    → All (Selects rows) runs
    → All IsRecovered (map released (map (fold_run error now rows) runs))
All-IsRecovered error now rows [] h = tt
All-IsRecovered error now rows (run ∷ runs) h =
    (recover_run-IsRecovered error now rows run h.0, All-IsRecovered error now rows runs h.1)

-- After a restart no run is queued or running, and no run that has finished, whether before or by the
-- recovery, keeps the lease of its conversation.
pub recover_incomplete-IsRecovered :
    (error : String) (now : ℕ) (db : Db) → All IsRecovered (recover_incomplete error now db).1.runs
unfolding recover_incomplete
recover_incomplete-IsRecovered error now db =
    subst (λ runs. All IsRecovered (map released runs))
      (sym (recover_rows-runs error now (selected db.runs) db))
      (All-IsRecovered error now (selected db.runs) db.runs (any_match-selected db.runs))
