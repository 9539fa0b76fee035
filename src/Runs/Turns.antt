-- ===== src/Runs/Turns.antt =====
-- `insert_conversation`, `require_conversation`, `bind_turn` and `project_run`.
use doppel_agent.Prelude.{
  ℕ, String, ◌≡◌, Bool, true, false, not, ◌&&◌, ◌||◌, Option, none, some, List, [], ◌∷◌, ◌++◌,
  arith, str_eq, if◌then◌else◌, Result, ok, err, mem, all, ltb, leb, ◌==◌, codes, length,
}
use doppel_agent.Runs.Tables.{
  completed, Run, Conversation, Message, Db, RunError, invalid_mode, title_required,
  invalid_conversation, unknown_conversation, active_turn, mode_immutable, archived_conversation,
  same_status, is_active, in_conversation, find_run, find_conversation, update_conversation,
}

-- Ids and the clock reading that one operation uses, each id fresh.
pub record Fresh : Type 0 where
  pub conversation : String
  pub conversation_thread : String
  pub rebound_thread : String
  pub now : ℕ

abbrev pub modes : List String
modes = "legacy" ∷ "graph" ∷ "deep" ∷ []

-- `insert_conversation`, with a title that is already joined and cut
unfoldable pub insert_conversation :
    Fresh → String → String → Option String → Db → Result RunError (String × Db)
insert_conversation fresh mode title profile db =
    if not (mem mode modes)
    then err invalid_mode
    else if str_eq title ""
    then err title_required
    else ok (
      fresh.conversation,
      record db {
        conversations =
            db.conversations
            ++ (record {
              id = fresh.conversation;
              thread_id = fresh.conversation_thread;
              mode = mode;
              title = title;
              profile_id = profile;
              archived = false;
              deleted = false;
              updated_at = fresh.now;
            }
                ∷ []);
      },
    )

abbrev is_id_code : ℕ → Bool
is_id_code c = (leb 48 c && leb c 57) || (leb 97 c && leb c 102)

-- `_valid_id`: 32 lower-case hexadecimal digits
abbrev pub valid_id : String → Bool
valid_id s = (length (codes s) == 32) && all is_id_code (codes s)

abbrev holds_turn : String → Run → Bool
holds_turn id run = in_conversation id run && (run.lease_active || is_active run.status)

-- `SELECT 1 FROM runtime_runs WHERE conversation_id=? AND (...)`
unfoldable pub has_turn : String → List Run → Bool
has_turn id [] = false
has_turn id (run ∷ runs) = holds_turn id run || has_turn id runs

-- `require_conversation`
unfoldable pub require_conversation : Bool → String → Db → Result RunError Conversation
require_conversation idle id db =
    if not (valid_id id)
    then err invalid_conversation
    else elim (find_conversation id db.conversations) [
      | none ↦ err unknown_conversation
      | some c ↦
          if c.deleted
          then err unknown_conversation
          else if idle && has_turn id db.runs
          then err active_turn
          else ok c
    ]

-- the order of SQLite's text, that of the code points
abbrev pub text_ltb : List ℕ → List ℕ → Bool
text_ltb _ [] = false
text_ltb [] (y ∷ ys) = true
text_ltb (x ∷ xs) (y ∷ ys) = let rest = text_ltb xs ys in if x == y then rest else ltb x y

abbrev is_later : Run → Run → Bool
is_later a b =
    if a.created_at == b.created_at
    then text_ltb (codes b.run_id) (codes a.run_id)
    else ltb b.created_at a.created_at

abbrev later_of : Run → Option Run → Option Run
later_of run none = some run
later_of run (some other) = if is_later run other then some run else some other

-- `ORDER BY created_at DESC,run_id DESC LIMIT 1`
unfoldable pub last_turn : String → List Run → Option Run
last_turn id [] = none
last_turn id (run ∷ runs) =
    let rest = last_turn id runs in if in_conversation id run then later_of run rest else rest

abbrev needs_thread : Option Run → Bool
needs_thread none = false
needs_thread (some last) = not (same_status last.status completed) || last.fallback

-- `bind_turn`: the thread of the next turn, which is a new one behind a turn that did not complete or
-- that a fallback runtime served
unfoldable pub bind_turn : Fresh → String → String → Db → Result RunError (String × Db)
bind_turn fresh id mode db = elim (require_conversation true id db) [
  | err e ↦ err e
  | ok c ↦
      if not (str_eq c.mode mode)
      then err mode_immutable
      else if c.archived
      then err archived_conversation
      else if needs_thread (last_turn id db.runs)
      then ok (
        fresh.rebound_thread,
        record db {
          conversations =
              update_conversation id (λ row. record row { thread_id = fresh.rebound_thread })
                db.conversations;
        },
      )
      else ok (c.thread_id, db)
]

abbrev is_message : String → String → Message → Bool
is_message run role m = str_eq m.run run && str_eq m.role role

unfoldable pub has_message : String → String → List Message → Bool
has_message run role [] = false
has_message run role (m ∷ ms) = is_message run role m || has_message run role ms

-- `INSERT OR IGNORE INTO native_messages`, whose run and role are unique together
abbrev add_message : Message → List Message → List Message
add_message m ms = if has_message m.run m.role ms then ms else ms ++ (m ∷ [])

-- `DELETE FROM native_messages WHERE run_id=? AND role='assistant'`
unfoldable pub drop_answer : String → List Message → List Message
drop_answer run [] = []
drop_answer run (m ∷ ms) =
    let rest = drop_answer run ms in if is_message run "assistant" m then rest else m ∷ rest

abbrev max : ℕ → ℕ → ℕ
max a b = if ltb a b then b else a

abbrev message : String → Run → String → String → ℕ → Message
message conversation run role content at = record {
  conversation = conversation;
  run = run.run_id;
  role = role;
  content = content;
  created_at = at;
}

-- what `project_run` makes of the messages
unfoldable pub projected : String → Run → List Message → List Message
projected id run ms =
    let asked = add_message (message id run "user" run.request.prompt run.created_at) ms in
    if same_status run.status completed && not (str_eq run.answer "")
    then add_message (message id run "assistant" run.answer run.updated_at) asked
    else drop_answer run.run_id asked

abbrev project_row : String → Run → Option Conversation → Db → Db
project_row id run none db = db
project_row id run (some c) db = if c.deleted then db else record db {
  messages = projected id run db.messages;
  conversations =
      update_conversation id (λ row. record row { updated_at = max row.updated_at run.updated_at })
        db.conversations;
}

-- `project_run`; by the foreign key the conversation that a run names is there
unfoldable pub project_run : String → Db → Db
project_run id db = elim (find_run id db.runs) [
  | none ↦ db
  | some run ↦ elim run.conversation_id [
    | none ↦ db
    | some c ↦ project_row c run (find_conversation c db.conversations) db
  ]
]

-- The projection changes no run.
pub project_run-runs : (id : String) (db : Db) → (project_run id db).runs ≡ db.runs
unfolding project_run
project_run-runs id db = ground arith

pub project_run-events : (id : String) (db : Db) → (project_run id db).events ≡ db.events
unfolding project_run
project_run-events id db = ground arith
