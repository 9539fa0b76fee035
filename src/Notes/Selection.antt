-- ===== src/Notes/Selection.antt =====
-- context/selection.py: `ContextSelectionStore.get` and `set`. A reference to a note is its id with a
-- revision; `note_refs` reads a list of them.
use doppel_agent.Prelude.{
  ℕ, suc, String, ◌≡◌, refl, Bool, true, false, not, ◌||◌, Option, none, some, List, [], ◌∷◌, arith,
  str_eq, eq_iff, if◌then◌else◌, ◌==◌, ltb, mem, length, lookup, assign, lookup-assign, Result, ok,
  err,
}
use doppel_agent.Py.{Value, str, int, dict, list, tuple, Items, elements, get_field, keys_are}
use doppel_agent.Notes.{Note, find_note, is_identifier, is_request_key, same_scope}

pub data SelectionError : Type 0 where
  invalid_selected_notes invalid_selected_note_fields invalid_context_identifier : SelectionError
  invalid_selected_note_revision invalid_context_request_key : SelectionError
  invalid_context_selection_revision note_scope_not_found context_selection_key_reused :
      SelectionError
  context_selection_revision_changed context_record_not_found note_not_found : SelectionError
  selected_note_revision_changed selected_note_wrong_scope : SelectionError

pub record Ref : Type 0 where
  pub note_id : String
  pub revision : ℕ

abbrev read_ref : Option Value → Option Value → List String → Result SelectionError Ref
read_ref (some (str id)) (some (int revision)) seen =
    if not (is_identifier id)
    then err invalid_context_identifier
    else if ltb revision 1 || mem id seen
    then err invalid_selected_note_revision
    else ok (record { note_id = id; revision = revision })
read_ref (some (str id)) revision seen =
    if is_identifier id then err invalid_selected_note_revision else err invalid_context_identifier
read_ref id revision seen = err invalid_context_identifier

abbrev note_ref : Value → List String → Result SelectionError Ref
note_ref (dict d) seen =
    if keys_are ("note_id" ∷ "revision" ∷ []) d
    then read_ref (get_field "note_id" d) (get_field "revision" d) seen
    else err invalid_selected_note_fields
note_ref _ seen = err invalid_selected_note_fields

-- the loop of `note_refs`
unfoldable pub read_refs : List Value → List String → Result SelectionError (List Ref)
read_refs [] seen = ok []
read_refs (v ∷ vs) seen = elim (note_ref v seen) [
  | err e ↦ err e
  | ok ref ↦ elim (read_refs vs (ref.note_id ∷ seen)) [ err e ↦ err e | ok refs ↦ ok (ref ∷ refs) ]
]

abbrev few_refs : Items → Result SelectionError (List Ref)
few_refs vs =
    if ltb 16 (length (elements vs)) then err invalid_selected_notes else read_refs (elements vs) []

-- `note_refs`
unfoldable pub note_refs : Value → Result SelectionError (List Ref)
note_refs (list vs) = few_refs vs
note_refs (tuple vs) = few_refs vs
note_refs _ = err invalid_selected_notes

-- A row of `context_selections`, without its time.
pub record Selection : Type 0 where
  pub manifest_id : Option String
  pub notes : List Ref
  pub revision : ℕ
  pub request_key : String
  pub request_json : String

-- `selections` by scope key
pub record Db : Type 0 where
  pub work_orders : List String
  pub manifests : List String
  pub notes : List Note
  pub selections : List (String × Selection)

-- `_scope`
unfoldable pub scope_key : Option String → Db → Result SelectionError String
scope_key none db = ok "project"
scope_key (some id) db =
    if not (is_identifier id)
    then err invalid_context_identifier
    else if mem id db.work_orders
    then ok id
    else err note_scope_not_found

abbrev pub revision_of : Option Selection → ℕ
revision_of none = 0
revision_of (some s) = s.revision

abbrev fits : Option String → Option String → Bool
fits none scope = true
fits (some id) scope = same_scope (some id) scope

-- the checks of the selected notes
unfoldable pub check_refs : Option String → List Ref → List Note → Result SelectionError (Unit {0})
check_refs scope [] notes = ok tt
check_refs scope (ref ∷ refs) notes =
    let rest = check_refs scope refs notes in
    elim (find_note ref.note_id notes) [
      | none ↦ err note_not_found
      | some n ↦
          if n.deleted
          then err note_not_found
          else if not (n.active_revision == ref.revision)
          then err selected_note_revision_changed
          else if not (fits n.scope scope)
          then err selected_note_wrong_scope
          else rest
    ]

-- The arguments of `set`; `encoded` is the canonical JSON of the first four.
pub record Choice : Type 0 where
  pub scope : Option String
  pub manifest_id : Option String
  pub notes : Value
  pub expected_revision : ℕ
  pub idempotency_key : String
  pub encoded : String

abbrev lacks_manifest : Option String → Db → Bool
lacks_manifest none db = false
lacks_manifest (some id) db = not (mem id db.manifests)

abbrev selected : Choice → List Ref → Selection
selected c refs = record {
  manifest_id = c.manifest_id;
  notes = refs;
  revision = suc c.expected_revision;
  request_key = c.idempotency_key;
  request_json = c.encoded;
}

-- `set` for a new key
unfoldable pub choose : Choice → String → List Ref → Db → Result SelectionError (Selection × Db)
choose c scope refs db =
    if not (revision_of (lookup scope db.selections) == c.expected_revision)
    then err context_selection_revision_changed
    else if lacks_manifest c.manifest_id db
    then err context_record_not_found
    else elim (check_refs c.scope refs db.notes) [
      | err e ↦ err e
      | ok checked ↦
          ok (
            selected c refs,
            record db { selections = assign scope (selected c refs) db.selections },
          )
    ]

abbrev has_key : String → Option Selection → Bool
has_key key none = false
has_key key (some s) = str_eq s.request_key key

abbrev replayed : Choice → Option Selection → Db → Result SelectionError (Selection × Db)
replayed c none db = err context_selection_key_reused
replayed c (some s) db =
    if str_eq s.request_json c.encoded then ok (s, db) else err context_selection_key_reused

-- `set` in its transaction
unfoldable pub set_in : Choice → List Ref → Db → Result SelectionError (Selection × Db)
set_in c refs db = elim (scope_key c.scope db) [
  | err e ↦ err e
  | ok scope ↦
      if has_key c.idempotency_key (lookup scope db.selections)
      then replayed c (lookup scope db.selections) db
      else choose c scope refs db
]

abbrev bad_manifest : Option String → Bool
bad_manifest none = false
bad_manifest (some id) = not (is_identifier id)

-- `set`
unfoldable pub set : Choice → Db → Result SelectionError (Selection × Db)
set c db =
    if bad_manifest c.manifest_id
    then err invalid_context_identifier
    else elim (note_refs c.notes) [
      | err e ↦ err e
      | ok refs ↦
          if not (is_request_key c.idempotency_key)
          then err invalid_context_request_key
          else set_in c refs db
    ]

-- `get`
unfoldable pub get : Option String → Db → Result SelectionError (Option Selection)
get scope db = elim (scope_key scope db) [ err e ↦ err e | ok key ↦ ok (lookup key db.selections) ]

set_in-get :
    (c : Choice) (refs : List Ref) (db after : Db) (s : Selection)
    → set_in c refs db ≡ ok (s, after)
    → get c.scope after ≡ ok (some s)
unfolding set_in get scope_key choose
set_in-get c refs db after s h = by_scope c.scope refl
  where
    by_scope : (o : Option String) → c.scope ≡ o → get c.scope after ≡ ok (some s)
    by_scope none e =
        ground (arith, e, h, lookup-assign "project" "project" (selected c refs) db.selections)
    by_scope (some id) e =
        ground (arith, e, h, lookup-assign id id (selected c refs) db.selections, eq_iff id id)

-- What `set` returns is what `get` returns from then on, for a replayed request as for a new one.
pub set-get :
    (c : Choice) (db after : Db) (s : Selection)
    → set c db ≡ ok (s, after)
    → get c.scope after ≡ ok (some s)
unfolding set
set-get c db after s h = by_refs (note_refs c.notes) refl
  where
    by_refs :
        (r : Result SelectionError (List Ref))
        → note_refs c.notes ≡ r
        → get c.scope after ≡ ok (some s)
    by_refs (err e) k = absurd (ground (arith, k, h))
    by_refs (ok refs) k = set_in-get c refs db after s (ground (arith, k, h))
