-- ===== src/Runs/Store.antt =====
-- `RuntimeRunStore`: accepting, reading and updating runs. Each operation is one transaction, which
-- an exception undoes; an error therefore comes without tables.
use doppel_agent.Prelude.{
  ℕ, String, Bool, true, false, not, ◌&&◌, Option, none, some, List, [], ◌∷◌, ◌++◌, str_eq,
  if◌then◌else◌, is_some, Result, ok, err,
}
use doppel_agent.Runs.Tables.{
  Status, queued, running, Run, Request, Conversation, Event, turn_updated, Db, RunError,
  unknown_run, key_reused, resolver_required, profile_changed, is_terminal, same_status, same_id,
  find_run, find_key, update_run, find_conversation, update_conversation, commit,
}
use doppel_agent.Runs.Turns.{Fresh, insert_conversation, bind_turn, project_run}

-- The arguments of `create` beside the request. `expected_profile` is `none` for the default `...`;
-- `resolver` is what the input resolver returns for the request's context, where one is given.
pub record Acceptance : Type 0 where
  pub run_id : String
  pub thread_id : String
  pub mode : String
  pub idempotency_key : Option String
  pub native : Bool
  pub profile_snapshot : String
  pub expected_profile : Option (Option String)
  pub write_scope : Bool
  pub resolver : Option String
  pub frozen_input : Option String

abbrev new_title : String
new_title = "新对话"

abbrev title_of : Request → String
title_of r = if str_eq r.headline "" then new_title else r.headline

-- `input_snapshot`
unfoldable pub input_of : Acceptance → Request → Result RunError (Option String)
input_of a r = elim a.frozen_input [
  | some snapshot ↦ ok (some snapshot)
  | none ↦ elim r.context [
    | none ↦ ok none
    | some context ↦ elim a.resolver [
      | none ↦ err resolver_required
      | some snapshot ↦ ok (some snapshot)
    ]
  ]
]

-- the conversation of a native turn: the request's, else a new one
unfoldable pub conversation_for : Acceptance → Request → Fresh → Db → Result RunError (String × Db)
conversation_for a r fresh db = elim r.conversation_id [
  | some id ↦ ok (id, db)
  | none ↦ insert_conversation fresh a.mode (title_of r) r.profile_id db
]

abbrev same_profile : Option (Option String) → Option String → Bool
same_profile none profile = true
same_profile (some expected) profile = same_id expected profile

-- the check of the profile, and the title that a conversation still without one gets
abbrev pub titled :
    Acceptance
    → Request
    → String
    → String
    → Option Conversation
    → Db
    → Result RunError ((Option String × String) × Db)
titled a r id thread none db = ok ((some id, thread), db)
titled a r id thread (some c) db =
    if not (same_profile a.expected_profile c.profile_id)
    then err profile_changed
    else ok (
      (some id, thread),
      if str_eq c.title new_title
          then record db {
            conversations =
                update_conversation id (λ row. record row { title = title_of r }) db.conversations;
          }
          else db,
    )

-- conversation and thread of the turn, the block under `if native`
unfoldable pub native_turn :
    Acceptance → Request → Fresh → Db → Result RunError ((Option String × String) × Db)
native_turn a r fresh db = elim (conversation_for a r fresh db) [
  | err e ↦ err e
  | ok (id, made) ↦ elim (bind_turn fresh id a.mode made) [
    | err e ↦ err e
    | ok (thread, bound) ↦ titled a r id thread (find_conversation id bound.conversations) bound
  ]
]

abbrev pub turn_of :
    Acceptance → Request → Fresh → Db → Result RunError ((Option String × String) × Db)
turn_of a r fresh db = if a.native then native_turn a r fresh db else ok ((none, a.thread_id), db)

abbrev pub new_run : Acceptance → Request → ℕ → Option String → String → Option String → Run
new_run a r now conversation thread snapshot = record {
  run_id = a.run_id;
  thread_id = thread;
  status = queued;
  mode = a.mode;
  idempotency_key = a.idempotency_key;
  request = r;
  answer = "";
  error = "";
  interrupts = [];
  fallback = false;
  created_at = now;
  updated_at = now;
  started_at = none;
  finished_at = none;
  conversation_id = conversation;
  profile_snapshot = a.profile_snapshot;
  lease_active = a.native;
  write_scope = a.write_scope;
  input_snapshot = snapshot;
  cancel_requested = false;
}

-- `_projection_event`
abbrev pub projection_event : String → String → Option String → Status → ℕ → Event
projection_event run thread conversation status now = record {
  run_id = run;
  thread_id = thread;
  timestamp = now;
  payload = turn_updated conversation status;
}

abbrev notify : Bool → Event → Db → Db
notify told e db = if told then record db { events = db.events ++ (e ∷ []) } else db

-- the `INSERT` of `create` and what follows it
unfoldable pub insert_run : Run → Bool → Db → Run × Db
insert_run run native db = (
  run,
  notify native
      (projection_event run.run_id run.thread_id run.conversation_id queued run.created_at)
      (project_run run.run_id (record db { runs = db.runs ++ (run ∷ []) })),
)

unfoldable pub accept : Acceptance → Request → Fresh → Db → Result RunError ((Run × Bool) × Db)
accept a r fresh db = elim (input_of a r) [
  | err e ↦ err e
  | ok snapshot ↦ elim (turn_of a r fresh db) [
    | err e ↦ err e
    | ok ((conversation, thread), bound) ↦
        let made = insert_run (new_run a r fresh.now conversation thread snapshot) a.native bound in
        ok ((made.0, true), made.1)
  ]
]

-- a stored run under the key
abbrev pub stored_run : Request → Run → Db → Result RunError ((Run × Bool) × Db)
stored_run r run db =
    if str_eq run.request.canonical r.canonical then ok ((run, false), db) else err key_reused

-- `if idempotency_key:`, and no stored run under it
abbrev pub keyed : Option String → List Run → Option Run
keyed none runs = none
keyed (some key) runs = if str_eq key "" then none else find_key key runs

-- `create`: the run and whether it is new
unfoldable pub create : Acceptance → Request → Fresh → Db → Result RunError ((Run × Bool) × Db)
create a r fresh db = elim (keyed a.idempotency_key db.runs) [
  | some run ↦ stored_run r run db
  | none ↦ commit (accept a r fresh db)
]

-- `replay`
unfoldable pub replay : Option String → Request → Db → Result RunError (Option Run)
replay key r db = elim (keyed key db.runs) [
  | none ↦ ok none
  | some run ↦ if str_eq run.request.canonical r.canonical then ok (some run) else err key_reused
]

abbrev or_else : Option ℕ → Option ℕ → Option ℕ
or_else none b = b
or_else (some a) b = some a

-- The `UPDATE` of `update`
abbrev pub set_status : Status → String → String → List String → Bool → ℕ → Run → Run
set_status status answer error interrupts fallback now run = record run {
  status = status;
  answer = answer;
  error = error;
  interrupts = interrupts;
  fallback = fallback;
  updated_at = now;
  started_at = or_else run.started_at (if same_status status running then some now else none);
  finished_at = or_else (if is_terminal status then some now else none) run.finished_at;
}

-- `update`; the metadata are its interrupts and its fallback
unfoldable pub update :
    String
    → Status
    → String
    → String
    → List String
    → Bool
    → ℕ
    → Db
    → Result RunError (Option Run × Db)
update id status answer error interrupts fallback now db = elim (find_run id db.runs) [
  | none ↦ err unknown_run
  | some existing ↦
      let written = record db {
        runs = update_run id (set_status status answer error interrupts fallback now) db.runs;
      } in
      let shown = project_run id written in
      commit (
        ok (
          find_run id shown.runs,
          notify (is_some existing.conversation_id && not (same_status status existing.status))
              (projection_event id existing.thread_id existing.conversation_id status now) shown,
        ))
]

-- `request_cancel`: whether a row was written
unfoldable pub request_cancel : String → ℕ → Db → Bool × Db
request_cancel id now db = (
  is_some (find_run id db.runs),
  record db {
    runs = update_run id (λ run. record run { cancel_requested = true; updated_at = now }) db.runs;
  },
)

abbrev pub released : Run → Run
released run = if is_terminal run.status then record run { lease_active = false } else run

-- `release_conversation_turn`
unfoldable pub release_conversation_turn : String → Db → Db
release_conversation_turn id db = record db { runs = update_run id released db.runs }
