-- ===== src/Runs/Tables.antt =====
-- The rows, the statements that find and update them, and the unique indexes.
use doppel_agent.Prelude.{
  ℕ, String, ◌≡◌, refl, Bool, true, false, not, ◌&&◌, ◌||◌, Option, none, some, List, [], ◌∷◌,
  arith, str_eq, eq_iff, if◌then◌else◌, Result, ok, err, all,
}

pub data Status : Type 0 where
  queued running interrupted completed failed cancelled interrupted_expired : Status

-- A normalised request: its canonical JSON, and what the store reads of it. `headline` is the prompt
-- with its white space joined, cut to 42 characters.
pub record Request : Type 0 where
  pub canonical : String
  pub prompt : String
  pub headline : String
  pub conversation_id : Option String
  pub profile_id : Option String
  pub context : Option String

-- A row of `runtime_runs`; of the metadata, the ids of its interrupts and whether a fallback runtime
-- has served the run.
pub record Run : Type 0 where
  pub run_id : String
  pub thread_id : String
  pub status : Status
  pub mode : String
  pub idempotency_key : Option String
  pub request : Request
  pub answer : String
  pub error : String
  pub interrupts : List String
  pub fallback : Bool
  pub created_at : ℕ
  pub updated_at : ℕ
  pub started_at : Option ℕ
  pub finished_at : Option ℕ
  pub conversation_id : Option String
  pub profile_snapshot : String
  pub lease_active : Bool
  pub write_scope : Bool
  pub input_snapshot : Option String
  pub cancel_requested : Bool

pub record Conversation : Type 0 where
  pub id : String
  pub thread_id : String
  pub mode : String
  pub title : String
  pub profile_id : Option String
  pub archived : Bool
  pub deleted : Bool
  pub updated_at : ℕ

pub record Message : Type 0 where
  pub conversation : String
  pub run : String
  pub role : String
  pub content : String
  pub created_at : ℕ

-- The type of an event with its payload.
pub data Payload : Type 0 where
  turn_updated : (conversation : Option String) → Status → Payload
  approval_expired : (interrupt : String) → Payload
  approval_decided : (interrupt decision : String) → Payload
  recovered_after_restart : (previous : Status) (error : String) → Payload

pub record Event : Type 0 where
  pub run_id : String
  pub thread_id : String
  pub timestamp : ℕ
  pub payload : Payload

pub record Db : Type 0 where
  pub runs : List Run
  pub conversations : List Conversation
  pub messages : List Message
  pub events : List Event

pub data RunError : Type 0 where
  unknown_run not_waiting wrong_interrupt approval_expired_error : RunError
  key_reused resolver_required profile_changed : RunError
  invalid_mode title_required invalid_conversation unknown_conversation : RunError
  active_turn mode_immutable archived_conversation : RunError
  integrity : RunError

-- `TERMINAL_STATUSES`
abbrev pub is_terminal : Status → Bool
is_terminal queued = false
is_terminal running = false
is_terminal interrupted = false
is_terminal _ = true

-- `ACTIVE`
abbrev pub is_active : Status → Bool
is_active s = not (is_terminal s)

abbrev pub same_status : Status → Status → Bool
same_status queued queued = true
same_status running running = true
same_status interrupted interrupted = true
same_status completed completed = true
same_status failed failed = true
same_status cancelled cancelled = true
same_status interrupted_expired interrupted_expired = true
same_status _ _ = false

abbrev pub same_id : Option String → Option String → Bool
same_id none none = true
same_id (some a) (some b) = str_eq a b
same_id _ _ = false

abbrev pub is_at : String → Run → Bool
is_at id run = str_eq run.run_id id

-- `SELECT * FROM runtime_runs WHERE run_id=?`
unfoldable pub find_run : String → List Run → Option Run
find_run id [] = none
find_run id (run ∷ runs) = let later = find_run id runs in if is_at id run then some run else later

-- `UPDATE runtime_runs SET ... WHERE run_id=?`
unfoldable pub update_run : String → (Run → Run) → List Run → List Run
update_run id f [] = []
update_run id f (run ∷ runs) = (if is_at id run then f run else run) ∷ update_run id f runs

abbrev pub has_key : String → Option String → Bool
has_key key none = false
has_key key (some k) = str_eq k key

-- `SELECT * FROM runtime_runs WHERE idempotency_key=?`
unfoldable pub find_key : String → List Run → Option Run
find_key key [] = none
find_key key (run ∷ runs) =
    let later = find_key key runs in if has_key key run.idempotency_key then some run else later

unfoldable pub find_conversation : String → List Conversation → Option Conversation
find_conversation id [] = none
find_conversation id (c ∷ cs) =
    let later = find_conversation id cs in if str_eq c.id id then some c else later

unfoldable pub update_conversation :
    String → (Conversation → Conversation) → List Conversation → List Conversation
update_conversation id f [] = []
update_conversation id f (c ∷ cs) =
    (if str_eq c.id id then f c else c) ∷ update_conversation id f cs

abbrev pub in_conversation : String → Run → Bool
in_conversation id run = elim run.conversation_id [ none ↦ false | some c ↦ str_eq c id ]

-- Two rows of one conversation that are both active or both hold its lease, or that share a key: what
-- the primary key, the key's uniqueness, `ix_native_active_turn` and `ix_native_turn_lease` refuse.
unfoldable pub clashes : Run → Run → Bool
clashes a b =
    str_eq a.run_id b.run_id
    || elim a.idempotency_key [ none ↦ false | some k ↦ has_key k b.idempotency_key ]
    || elim a.conversation_id [
      | none ↦ false
      | some c ↦
          in_conversation c b
          && ((is_active a.status && is_active b.status) || (a.lease_active && b.lease_active))
    ]

unfoldable pub indexed : List Run → Bool
indexed [] = true
indexed (run ∷ runs) = all (λ other. not (clashes run other)) runs && indexed runs

-- The end of a transaction: a violated index undoes it, and so does an exception.
unfoldable pub commit : {A : Type 0} → Result RunError (A × Db) → Result RunError (A × Db)
commit (err e) = err e
commit (ok (a, db)) = if indexed db.runs then ok (a, db) else err integrity

pub find_run-update_run :
    (id other : String) (f : Run → Run) (runs : List Run)
    → ((run : Run) → (f run).run_id ≡ run.run_id)
    → find_run other (update_run id f runs) ≡ elim (find_run other runs) [
      | none ↦ none
      | some run ↦ if is_at id run then some (f run) else some run
    ]
unfolding find_run update_run
find_run-update_run id other f [] keep = refl
find_run-update_run id other f (run ∷ runs) keep =
    ground (arith, keep run, find_run-update_run id other f runs keep)

pub find_run-id :
    (id : String) (runs : List Run) (run : Run) → find_run id runs ≡ some run → run.run_id ≡ id
unfolding find_run
find_run-id id [] run h = absurd (ground arith)
find_run-id id (r ∷ runs) run h = ground (arith, h, eq_iff r.run_id id, find_run-id id runs run)
