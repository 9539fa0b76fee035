-- ===== src/Notes/Tests.antt =====
-- One note with two writers, and one selection.
use doppel_agent.Prelude.{
  String, ◌≡◌, refl, true, false, [], ◌∷◌, none, ok, err, lookup, assign, mem,
}
use doppel_agent.Py.{str, int, dict, list, end, field, nil, cons}
use doppel_agent.Notes.{
  Note, Revision, NoteError, note_revision_changed, note_key_reused, Request, Payload, find_note,
  update_note, find_key, write, with_note, update,
}
use doppel_agent.Notes as notes
use doppel_agent.Notes.Writes.{update-stale}
use doppel_agent.Notes.Selection.{
  Selection, Choice, scope_key, note_refs, read_refs, check_refs, choose, set_in, set, get,
}
use doppel_agent.Notes.Selection as selection

abbrev id : String
id = "0123456789abcdef0123456789abcdef"

abbrev note : Note
note = record {
  note_id = id;
  scope = none;
  active_revision = 1;
  deleted = false;
  created_at = 1;
  updated_at = 1;
}

abbrev db : notes.Db
db = record { work_orders = []; notes = note ∷ []; revisions = [] }

abbrev request : String → Request
request key = record { confirmed = true; idempotency_key = key; encoded = "{}"; now = 5 }

abbrev payload : Payload
payload = record { scope = none; snapshot = ok "text" }

abbrev row : Revision
row = record {
  note_id = id;
  revision = 2;
  request_key = "key-one-1";
  request_json = "{}";
  snapshot = "text";
  deleted = false;
  created_at = 5;
}

abbrev after : notes.Db
after = record db {
  notes = record note { active_revision = 2; updated_at = 5 } ∷ [];
  revisions = row ∷ [];
}

free : find_key "key-one-1" db.revisions ≡ none
unfolding find_key
free = refl

updated : update id 1 (request "key-one-1") payload db ≡ ok (row, after)
unfolding update with_note write find_note update_note find_key
updated = refl

other_free : find_key "key-two-2" after.revisions ≡ none
unfolding find_key
other_free = refl

update-stale_example : update id 1 (request "key-two-2") payload after ≡ err note_revision_changed
update-stale_example =
    update-stale id 1 (request "key-one-1") payload db row after (request "key-two-2") payload free
      updated refl refl other_free

abbrev choice : Choice
choice = record {
  scope = none;
  manifest_id = none;
  notes = list (cons (dict (field "note_id" (str id) (field "revision" (int 1) end))) nil);
  expected_revision = 0;
  idempotency_key = "select-1";
  encoded = "{}";
}

abbrev store : selection.Db
store = record { work_orders = []; manifests = []; notes = note ∷ []; selections = [] }

abbrev chosen : Selection
chosen = record {
  manifest_id = none;
  notes = record { note_id = id; revision = 1 } ∷ [];
  revision = 1;
  request_key = "select-1";
  request_json = "{}";
}

abbrev stored : selection.Db
stored = record store { selections = ("project", chosen) ∷ [] }

made : set choice store ≡ ok (chosen, stored)
unfolding set note_refs read_refs set_in scope_key choose check_refs find_note lookup assign mem
made = refl
