-- ===== src/Notes/Writes.antt =====
-- Concurrent writers of one note, and requests that are sent again.
use doppel_agent.Prelude.{
  ℕ, suc, String, ◌≡◌, refl, Bool, true, false, Option, none, some, List, [], ◌∷◌, ◌++◌, arith,
  str_eq, eq_iff, if◌then◌else◌, ap, ◌∙◌, Result, ok, err,
}
use doppel_agent.Notes.{
  Note, Revision, Db, NoteError, note_revision_changed, note_key_reused, Request, Payload,
  find_note, update_note, find_key, write, is_request_key, with_note, update,
}

find_key-append :
    (key : String) (rs : List Revision) (r : Revision)
    → find_key key rs ≡ none
    → str_eq r.request_key key ≡ true
    → find_key key (rs ++ (r ∷ [])) ≡ some r
unfolding find_key
find_key-append key [] r h k = ground (arith, k)
find_key-append key (x ∷ xs) r h k = ground (arith, h, k, find_key-append key xs r)

find_note-update_note :
    (id other : String) (f : Note → Note) (ns : List Note)
    → ((n : Note) → (f n).note_id ≡ n.note_id)
    → find_note other (update_note id f ns) ≡ elim (find_note other ns) [
      | none ↦ none
      | some n ↦ if str_eq n.note_id id then some (f n) else some n
    ]
unfolding find_note update_note
find_note-update_note id other f [] keep = refl
find_note-update_note id other f (n ∷ ns) keep =
    ground (arith, keep n, find_note-update_note id other f ns keep)

-- the note that a write leaves
abbrev rewritten : ℕ → Bool → ℕ → Note → Note
rewritten revision deleted now n = record n {
  active_revision = revision;
  deleted = deleted;
  updated_at = now;
}

find_note-write :
    (id : String) (revision : ℕ) (q : Request) (snapshot : String) (deleted : Bool) (db : Db)
    (row : Revision) (after : Db) (n : Note)
    → find_note id db.notes ≡ some n
    → str_eq n.note_id id ≡ true
    → write id revision q snapshot deleted db ≡ ok (row, after)
    → find_note id after.notes ≡ some (rewritten revision deleted q.now n)
unfolding write
find_note-write id revision q snapshot deleted db row after n k same h =
    let notes : after.notes ≡ update_note id (rewritten revision deleted q.now) db.notes =
      ground (arith, h) in
    ap (find_note id) notes
    ∙ find_note-update_note id id (rewritten revision deleted q.now) db.notes (λ x. refl)
    ∙ ground (arith, k, same)

find_note-id :
    (id : String) (ns : List Note) (n : Note)
    → find_note id ns ≡ some n
    → str_eq n.note_id id ≡ true
unfolding find_note
find_note-id id [] n h = absurd (ground arith)
find_note-id id (x ∷ xs) n h = ground (arith, h, find_note-id id xs n)

find_key-write :
    (id : String) (revision : ℕ) (q : Request) (snapshot : String) (deleted : Bool) (db : Db)
    (row : Revision) (after : Db)
    → write id revision q snapshot deleted db ≡ ok (row, after)
    → (find_key q.idempotency_key after.revisions ≡ some row) × (row.request_json ≡ q.encoded)
unfolding write
find_key-write id revision q snapshot deleted db row after h =
    let rows : after.revisions ≡ db.revisions ++ (row ∷ []) = ground (arith, h) in
    let free : find_key q.idempotency_key db.revisions ≡ none = ground (arith, h) in
    let own : row.request_key ≡ q.idempotency_key = ground (arith, h) in
    (
      ap (find_key q.idempotency_key) rows
          ∙ find_key-append q.idempotency_key db.revisions row free
              (ground (arith, own, eq_iff row.request_key q.idempotency_key)),
      ground (arith, h),
    )

-- the write that a successful update of a new key makes
update-write :
    (id : String) (expected : ℕ) (q : Request) (p : Payload) (db : Db) (row : Revision) (after : Db)
    → find_key q.idempotency_key db.revisions ≡ none
    → update id expected q p db ≡ ok (row, after)
    → (snapshot : String) → p.snapshot ≡ ok snapshot
    → write id (suc expected) q snapshot false db ≡ ok (row, after)
unfolding update with_note
update-write id expected q p db row after k h snapshot e = ground (arith, h, k, e)

-- Of two updates that expect the same revision of a note, under different keys, the second is refused
-- once the first has succeeded: no update is lost.
pub update-stale :
    (id : String) (expected : ℕ) (q : Request) (p : Payload) (db : Db) (row : Revision) (after : Db)
    (other : Request) (payload : Payload)
    → find_key q.idempotency_key db.revisions ≡ none
    → update id expected q p db ≡ ok (row, after)
    → other.confirmed ≡ true
    → is_request_key other.idempotency_key ≡ true
    → find_key other.idempotency_key after.revisions ≡ none
    → update id expected other payload after ≡ err note_revision_changed
unfolding update with_note
update-stale id expected q p db row after other payload k h c v free =
    by_note (find_note id db.notes) p.snapshot refl refl
  where
    by_note :
        (o : Option Note) (s : Result NoteError String)
        → find_note id db.notes ≡ o
        → p.snapshot ≡ s
        → update id expected other payload after ≡ err note_revision_changed
    by_note none s e f = absurd (ground (arith, h, k, e))
    by_note (some n) (err x) e f = absurd (ground (arith, h, k, e, f))
    by_note (some n) (ok snapshot) e f =
        let made : find_note id after.notes ≡ some (rewritten (suc expected) false q.now n) =
          find_note-write id (suc expected) q snapshot false db row after n e
            (find_note-id id db.notes n e)
            (update-write id expected q p db row after k h snapshot f) in
        ground (arith, h, k, e, c, v, free, made)

-- An update that has succeeded answers the same request, sent again, with the revision that it wrote,
-- and writes nothing more; another request under its key is refused.
pub update-replays :
    (id : String) (expected : ℕ) (q : Request) (p : Payload) (db : Db) (row : Revision) (after : Db)
    (again : Request) (payload : Payload)
    → find_key q.idempotency_key db.revisions ≡ none
    → update id expected q p db ≡ ok (row, after)
    → again.confirmed ≡ true
    → again.idempotency_key ≡ q.idempotency_key
    → update id expected again payload after
      ≡ (if str_eq q.encoded again.encoded then ok (row, after) else err note_key_reused)
unfolding update with_note
update-replays id expected q p db row after again payload k h c e = by_snapshot p.snapshot refl
  where
    by_snapshot :
        (s : Result NoteError String)
        → p.snapshot ≡ s
        → update id expected again payload after
          ≡ (if str_eq q.encoded again.encoded then ok (row, after) else err note_key_reused)
    by_snapshot (err x) f = absurd (ground (arith, h, k, f))
    by_snapshot (ok snapshot) f =
        let made =
          find_key-write id (suc expected) q snapshot false db row after
            (update-write id expected q p db row after k h snapshot f) in
        ground (arith, h, k, c, e, made.0, made.1)
