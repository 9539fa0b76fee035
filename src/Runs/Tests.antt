-- ===== src/Runs/Tests.antt =====
-- The run store at small tables.
use doppel_agent.Prelude.{
  String, ◌≡◌, refl, Bool, true, false, List, [], ◌∷◌, none, some, Result, ok, err, str_eq,
  if◌then◌else◌, All, mem,
}
use doppel_agent.Runs.Tables.{
  queued, running, interrupted, completed, failed, Run, Request, Db, RunError, key_reused,
  not_waiting, find_run, find_key, update_run, commit, indexed, clashes, find_conversation,
  update_conversation,
}
use doppel_agent.Runs.Turns.{
  Fresh, insert_conversation, require_conversation, has_turn, bind_turn, last_turn, project_run,
  projected, has_message, drop_answer,
}
use doppel_agent.Runs.Store.{
  Acceptance, create, accept, input_of, conversation_for, native_turn, insert_run,
}
use doppel_agent.Runs.Claims.{claim_interrupt, settle_claim, is_decision, waits}
use doppel_agent.Runs.Restart.{recover_incomplete, IsRecovered, recover_incomplete-IsRecovered}
use doppel_agent.Runs.Histories.{Operation, updates, releases, perform_all}
use doppel_agent.Runs.Lasting.{create-replays, claim_interrupt-once}

abbrev ask : Request
ask = record {
  canonical = "{prompt: hello}";
  prompt = "hello";
  headline = "hello";
  conversation_id = none;
  profile_id = none;
  context = none;
}

abbrev fresh : Fresh
fresh = record {
  conversation = "0123456789abcdef0123456789abcdef";
  conversation_thread = "native-1";
  rebound_thread = "native-2";
  now = 10;
}

abbrev acceptance : String → Acceptance
acceptance id = record {
  run_id = id;
  thread_id = "t";
  mode = "graph";
  idempotency_key = some "key";
  native = true;
  profile_snapshot = "{}";
  expected_profile = none;
  write_scope = false;
  resolver = none;
  frozen_input = none;
}

abbrev empty : Db
empty = record { runs = []; conversations = []; messages = []; events = [] }

abbrev made : Result RunError ((Run × Bool) × Db)
made = create (acceptance "r1") ask fresh empty

abbrev db_of : Result RunError ((Run × Bool) × Db) → Db
db_of (ok (run, db)) = db
db_of (err e) = empty

abbrev first_run : Run
first_run = record {
  run_id = "r1";
  thread_id = "native-1";
  status = queued;
  mode = "graph";
  idempotency_key = some "key";
  request = ask;
  answer = "";
  error = "";
  interrupts = [];
  fallback = false;
  created_at = 10;
  updated_at = 10;
  started_at = none;
  finished_at = none;
  conversation_id = some "0123456789abcdef0123456789abcdef";
  profile_snapshot = "{}";
  lease_active = true;
  write_scope = false;
  input_snapshot = none;
  cancel_requested = false;
}

made_first : made ≡ ok ((first_run, true), db_of made)
unfolding create accept input_of conversation_for native_turn insert_run insert_conversation
    require_conversation has_turn bind_turn last_turn project_run projected has_message drop_answer
    find_run find_key commit indexed clashes find_conversation update_conversation mem
made_first = refl

-- the run starts and ends before its request is sent again
abbrev in_between : List Operation
in_between =
    updates "r1" running "" "" [] false 11
    ∷ updates "r1" completed "hi" "" [] false 12
    ∷ releases "r1"
    ∷ []

create-replays_example :
    (row : Run) × (row.run_id ≡ "r1")
    × (create (acceptance "r2") ask fresh (perform_all in_between (db_of made)) ≡ (
        if str_eq ask.canonical ask.canonical
        then ok ((row, false), perform_all in_between (db_of made))
        else err key_reused))
create-replays_example =
    create-replays (acceptance "r1") (acceptance "r2") ask ask fresh fresh empty (db_of made)
      first_run "key" in_between refl refl refl made_first

abbrev waiting : Db
waiting = record empty {
  runs = record first_run { status = interrupted; interrupts = "i1" ∷ [] } ∷ [];
}

claimed : is_decision (claim_interrupt "r1" "i1" "approve" 60 20 waiting).0 ≡ true
unfolding claim_interrupt settle_claim find_run update_run project_run find_conversation indexed
    clashes mem
claimed = refl

-- the run fails and is released
abbrev afterwards : List Operation
afterwards = updates "r1" failed "" "broken" [] false 20 ∷ releases "r1" ∷ []

claim_interrupt-once_example :
    (waits (find_run "r1" waiting.runs) ≡ true)
    × (claim_interrupt "r1" "i1" "reject" 60 21
          (perform_all afterwards (claim_interrupt "r1" "i1" "approve" 60 20 waiting).1)
        ≡ (
          err not_waiting,
          perform_all afterwards (claim_interrupt "r1" "i1" "approve" 60 20 waiting).1,
        ))
claim_interrupt-once_example =
    claim_interrupt-once "r1" "i1" "approve" 60 20 waiting afterwards "i1" "reject" 60 21 claimed
      (refl, (refl, tt))

recover_incomplete-IsRecovered_example :
    All IsRecovered
      (recover_incomplete "service restarted before completion" 30 (db_of made)).1.runs
recover_incomplete-IsRecovered_example =
    recover_incomplete-IsRecovered "service restarted before completion" 30 (db_of made)
