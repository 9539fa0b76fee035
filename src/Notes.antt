-- ===== src/Notes.antt =====
-- context/notes.py and context/selection.py: the revisions of project notes and the selected context.
-- A payload is given validated, its sources as `_resolve_sources` gives them in the transaction, and
-- requests by their canonical JSON. Each operation is one transaction, which an exception undoes.
pub mod Selection
pub mod Writes
pub mod Tests
use doppel_agent.Prelude.{
  ℕ, zero, suc, ◌+◌, String, Bool, true, false, not, ◌&&◌, ◌||◌, Option, none, some, List, [], ◌∷◌,
  ◌++◌, str_eq, if◌then◌else◌, is_some, mem, ltb, leb, ◌==◌, length, all, codes, text_length,
  has_nul, Result, ok, err,
}

pub record Note : Type 0 where
  pub note_id : String
  pub scope : Option String
  pub active_revision : ℕ
  pub deleted : Bool
  pub created_at : ℕ
  pub updated_at : ℕ

pub record Revision : Type 0 where
  pub note_id : String
  pub revision : ℕ
  pub request_key : String
  pub request_json : String
  pub snapshot : String
  pub deleted : Bool
  pub created_at : ℕ

-- The tables that notes read and write.
pub record Db : Type 0 where
  pub work_orders : List String
  pub notes : List Note
  pub revisions : List Revision

pub data NoteError : Type 0 where
  confirmation_required invalid_note_identifier invalid_note_request_key : NoteError
  invalid_note_revision note_key_reused note_scope_not_found active_note_limit : NoteError
  note_not_found note_revision_changed note_scope_changed : NoteError
  note_file_source_not_found note_run_source_not_found note_run_source_not_drained : NoteError
  note_run_source_wrong_work_order : NoteError
  integrity : NoteError

abbrev is_hex : ℕ → Bool
is_hex c = (leb 48 c && leb c 57) || (leb 97 c && leb c 102)

-- `identifier` of context/manifest.py: 32 lower-case hexadecimal digits
abbrev pub is_identifier : String → Bool
is_identifier s = (text_length s == 32) && all is_hex (codes s)

-- `request_key` of context/manifest.py
abbrev pub is_request_key : String → Bool
is_request_key s = leb 8 (text_length s) && leb (text_length s) 128 && not (has_nul s)

unfoldable pub find_note : String → List Note → Option Note
find_note id [] = none
find_note id (n ∷ ns) = let later = find_note id ns in if str_eq n.note_id id then some n else later

unfoldable pub update_note : String → (Note → Note) → List Note → List Note
update_note id f [] = []
update_note id f (n ∷ ns) = (if str_eq n.note_id id then f n else n) ∷ update_note id f ns

-- `WHERE request_key=?`
unfoldable pub find_key : String → List Revision → Option Revision
find_key key [] = none
find_key key (r ∷ rs) =
    let later = find_key key rs in if str_eq r.request_key key then some r else later

unfoldable pub count_active : List Note → ℕ
count_active [] = 0
count_active (n ∷ ns) = (if n.deleted then 0 else 1) + count_active ns

abbrev has_revision : String → ℕ → List Revision → Bool
has_revision id revision [] = false
has_revision id revision (r ∷ rs) =
    (str_eq r.note_id id && (r.revision == revision)) || has_revision id revision rs

-- `_scope`
abbrev pub is_scope : Option String → Db → Bool
is_scope none db = true
is_scope (some id) db = mem id db.work_orders

abbrev pub same_scope : Option String → Option String → Bool
same_scope none none = true
same_scope (some a) (some b) = str_eq a b
same_scope _ _ = false

-- What a request brings beside its operation: its key, its canonical JSON, its confirmation, the time.
pub record Request : Type 0 where
  pub confirmed : Bool
  pub idempotency_key : String
  pub encoded : String
  pub now : ℕ

-- A validated payload: its scope, the snapshot of title, kind, body and resolved sources, or what
-- resolving the sources raises.
pub record Payload : Type 0 where
  pub scope : Option String
  pub snapshot : Result NoteError String

-- `_write`; the key and the pair of note and revision are unique
unfoldable pub write : String → ℕ → Request → String → Bool → Db → Result NoteError (Revision × Db)
write id revision q snapshot deleted db =
    let row : Revision = record {
      note_id = id;
      revision = revision;
      request_key = q.idempotency_key;
      request_json = q.encoded;
      snapshot = snapshot;
      deleted = deleted;
      created_at = q.now;
    } in
    if is_some (find_key q.idempotency_key db.revisions) || has_revision id revision db.revisions
    then err integrity
    else ok (
      row,
      record db {
        revisions = db.revisions ++ (row ∷ []);
        notes =
            update_note id
              (λ n. record n { active_revision = revision; deleted = deleted; updated_at = q.now })
              db.notes;
      },
    )

-- `_replay`, before what an operation does for a new key
abbrev pub unless_replayed :
    Request → Db → Result NoteError (Revision × Db) → Result NoteError (Revision × Db)
unless_replayed q db fresh = elim (find_key q.idempotency_key db.revisions) [
  | some row ↦ if str_eq row.request_json q.encoded then ok (row, db) else err note_key_reused
  | none ↦ fresh
]

-- `_confirmation`
abbrev pub when_confirmed :
    Request → Result NoteError (Revision × Db) → Result NoteError (Revision × Db)
when_confirmed q after = if q.confirmed then after else err confirmation_required

-- `_key`
abbrev pub when_keyed :
    Request → Result NoteError (Revision × Db) → Result NoteError (Revision × Db)
when_keyed q after =
    if is_request_key q.idempotency_key then after else err invalid_note_request_key

abbrev insert_note : String → Request → Payload → String → Db → Result NoteError (Revision × Db)
insert_note id q p snapshot db =
    if is_some (find_note id db.notes)
    then err integrity
    else write id 1 q snapshot false (record db {
      notes =
          db.notes
          ++ (record {
            note_id = id;
            scope = p.scope;
            active_revision = 1;
            deleted = false;
            created_at = q.now;
            updated_at = q.now;
          }
              ∷ []);
    })

-- `create`, with a fresh id
unfoldable pub create : String → Request → Payload → Db → Result NoteError (Revision × Db)
create id q p db = when_confirmed q (
    when_keyed q (
      unless_replayed q db (
        if not (is_scope p.scope db)
        then err note_scope_not_found
        else if leb 500 (count_active db.notes)
        then err active_note_limit
        else elim p.snapshot [ err e ↦ err e | ok snapshot ↦ insert_note id q p snapshot db ])))

-- the checks of an existing note, before what is written for it
unfoldable pub with_note :
    String → ℕ → Db → (Note → Result NoteError (Revision × Db)) → Result NoteError (Revision × Db)
with_note id expected db f = elim (find_note id db.notes) [
  | none ↦ err note_not_found
  | some n ↦
      if n.deleted
      then err note_not_found
      else if not (n.active_revision == expected)
      then err note_revision_changed
      else f n
]

-- `_identifier` and `_revision`
abbrev pub addressed :
    String → ℕ → Result NoteError (Revision × Db) → Result NoteError (Revision × Db)
addressed id expected after =
    if not (is_identifier id)
    then err invalid_note_identifier
    else if ltb expected 1
    then err invalid_note_revision
    else after

-- `update`
unfoldable pub update : String → ℕ → Request → Payload → Db → Result NoteError (Revision × Db)
update id expected q p db = when_confirmed q (
    addressed id expected (
      when_keyed q (
        unless_replayed q db (
          with_note id expected db (λ n.
            if not (same_scope n.scope p.scope) then err note_scope_changed else elim p.snapshot [
              | err e ↦ err e
              | ok snapshot ↦ write id (suc expected) q snapshot false db
            ])))))

unfoldable pub snapshot_of : String → ℕ → List Revision → String
snapshot_of id revision [] = ""
snapshot_of id revision (r ∷ rs) =
    let later = snapshot_of id revision rs in
    if str_eq r.note_id id && (r.revision == revision) then r.snapshot else later

-- `delete`
unfoldable pub delete : String → ℕ → Request → Db → Result NoteError (Revision × Db)
delete id expected q db = when_confirmed q (
    addressed id expected (
      when_keyed q (
        unless_replayed q db (
          with_note id expected db
            (λ n. write id (suc expected) q (snapshot_of id expected db.revisions) true db)))))
