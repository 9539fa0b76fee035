-- ===== src/Runs/Keys.antt =====
-- Idempotency keys: an accepted run is stored under its key.
use doppel_agent.Prelude.{
  String, ◌≡◌, refl, sym, ap, ◌∙◌, Bool, true, Option, none, some, List, [], ◌∷◌, ◌++◌, arith,
  eq_iff, Result, ok, err,
}
use doppel_agent.Runs.Tables.{
  Run, Request, Conversation, Db, RunError, find_key, has_key, find_conversation,
}
use doppel_agent.Runs.Turns.{Fresh, insert_conversation, bind_turn, project_run-runs}
use doppel_agent.Runs.Store.{
  Acceptance, input_of, conversation_for, titled, native_turn, turn_of, new_run, insert_run, accept,
}

conversation_for-runs :
    (a : Acceptance) (r : Request) (fresh : Fresh) (db : Db) (id : String) (made : Db)
    → conversation_for a r fresh db ≡ ok (id, made)
    → made.runs ≡ db.runs
unfolding conversation_for insert_conversation
conversation_for-runs a r fresh db id made h = ground (arith, h)

bind_turn-runs :
    (fresh : Fresh) (id mode : String) (db : Db) (thread : String) (bound : Db)
    → bind_turn fresh id mode db ≡ ok (thread, bound)
    → bound.runs ≡ db.runs
unfolding bind_turn
bind_turn-runs fresh id mode db thread bound h = ground (arith, h)

titled-runs :
    (a : Acceptance) (r : Request) (id thread : String) (c : Option Conversation) (db : Db)
    (turn : Option String × String) (after : Db)
    → titled a r id thread c db ≡ ok (turn, after)
    → after.runs ≡ db.runs
titled-runs a r id thread none db turn after h = ground (arith, h)
titled-runs a r id thread (some c) db turn after h = ground (arith, h)

native_turn-runs :
    (a : Acceptance) (r : Request) (fresh : Fresh) (db : Db) (turn : Option String × String)
    (after : Db)
    → native_turn a r fresh db ≡ ok (turn, after)
    → after.runs ≡ db.runs
unfolding native_turn
native_turn-runs a r fresh db turn after h = by_conversation (conversation_for a r fresh db) refl
  where
    by_thread :
        (id : String) (made : Db) (x : Result RunError (String × Db))
        → conversation_for a r fresh db ≡ ok (id, made)
        → bind_turn fresh id a.mode made ≡ x
        → after.runs ≡ db.runs
    by_thread id made (err e) k l = absurd (ground (arith, k, l, h))
    by_thread id made (ok (thread, bound)) k l =
        titled-runs a r id thread (find_conversation id bound.conversations) bound turn after
          (ground (arith, k, l, h))
        ∙ bind_turn-runs fresh id a.mode made thread bound l
        ∙ conversation_for-runs a r fresh db id made k

    by_conversation :
        (x : Result RunError (String × Db))
        → conversation_for a r fresh db ≡ x
        → after.runs ≡ db.runs
    by_conversation (err e) k = absurd (ground (arith, k, h))
    by_conversation (ok (id, made)) k = by_thread id made (bind_turn fresh id a.mode made) k refl

-- an accepted run is the last row, under its key
pub record IsAccepted (a : Acceptance) (r : Request) (db : Db) (run : Run) (after : Db)
    : Type 0 where
  pub rows : after.runs ≡ db.runs ++ (run ∷ [])
  pub key : run.idempotency_key ≡ a.idempotency_key
  pub request : run.request ≡ r

insert_run-runs :
    (run : Run) (native : Bool) (db : Db)
    → (insert_run run native db).1.runs ≡ db.runs ++ (run ∷ [])
unfolding insert_run
insert_run-runs run native db =
    ground (arith, project_run-runs run.run_id (record db { runs = db.runs ++ (run ∷ []) }))

turn_of-runs :
    (a : Acceptance) (r : Request) (fresh : Fresh) (db : Db) (turn : Option String × String)
    (after : Db)
    → turn_of a r fresh db ≡ ok (turn, after)
    → after.runs ≡ db.runs
turn_of-runs a r fresh db turn after h = ground (arith, h, native_turn-runs a r fresh db turn after)

abbrev the_result : Run × Db → Result RunError ((Run × Bool) × Db)
the_result made = ok ((made.0, true), made.1)

insert_run-row : (run : Run) (native : Bool) (db : Db) → (insert_run run native db).0 ≡ run
unfolding insert_run
insert_run-row run native db = refl

inserted-IsAccepted :
    (a : Acceptance) (r : Request) (db : Db) (made : Run × Db) (row run : Run) (new : Bool)
    (bound after : Db)
    → bound.runs ≡ db.runs
    → row.idempotency_key ≡ a.idempotency_key
    → row.request ≡ r
    → made ≡ insert_run row a.native bound
    → (the_result made ≡ ok ((run, new), after))
    → IsAccepted a r db run after
inserted-IsAccepted a r db made row run new bound after e key request m h =
    let is_row : row ≡ run = ground (arith, h, m, insert_run-row row a.native bound) in
    let is_after : after ≡ (insert_run row a.native bound).1 = ground (arith, h, m) in
    record {
      rows =
          ap (λ (x : Db). x.runs) is_after
          ∙ insert_run-runs row a.native bound
          ∙ ap (λ rows. rows ++ (row ∷ [])) e
          ∙ ap (λ last. db.runs ++ (last ∷ [])) is_row;
      key = ap (λ (x : Run). x.idempotency_key) (sym is_row) ∙ key;
      request = ap (λ (x : Run). x.request) (sym is_row) ∙ request;
    }

pub accept-IsAccepted :
    (a : Acceptance) (r : Request) (fresh : Fresh) (db : Db) (run : Run) (new : Bool) (after : Db)
    → accept a r fresh db ≡ ok ((run, new), after)
    → IsAccepted a r db run after
unfolding accept
accept-IsAccepted a r fresh db run new after h = by_input (input_of a r) refl
  where
    by_turn :
        (snapshot : Option String) (x : Result RunError ((Option String × String) × Db))
        → input_of a r ≡ ok snapshot
        → turn_of a r fresh db ≡ x
        → IsAccepted a r db run after
    by_turn snapshot (err e) k l = absurd (ground (arith, k, l, h))
    by_turn snapshot (ok ((conversation, thread), bound)) k l =
        inserted-IsAccepted a r db
          (insert_run (new_run a r fresh.now conversation thread snapshot) a.native bound)
          (new_run a r fresh.now conversation thread snapshot) run new bound after
          (turn_of-runs a r fresh db (conversation, thread) bound l) refl refl refl
          (sym (rw (k, l, accept) refl) ∙ h)

    by_input :
        (x : Result RunError (Option String)) → input_of a r ≡ x → IsAccepted a r db run after
    by_input (err e) k = absurd (ground (arith, k, h))
    by_input (ok snapshot) k = by_turn snapshot (turn_of a r fresh db) k refl

find_key-append :
    (key : String) (runs : List Run) (run : Run)
    → find_key key runs ≡ none
    → has_key key run.idempotency_key ≡ true
    → find_key key (runs ++ (run ∷ [])) ≡ some run
unfolding find_key
find_key-append key [] run h k = ground arith
find_key-append key (r ∷ rs) run h k = ground (arith, h, find_key-append key rs run)

pub find_key-accepted :
    (a : Acceptance) (r : Request) (db : Db) (run : Run) (after : Db) (key : String)
    → a.idempotency_key ≡ some key
    → find_key key db.runs ≡ none
    → IsAccepted a r db run after
    → find_key key after.runs ≡ some run
find_key-accepted a r db run after key k e h =
    ap (find_key key) h.rows
    ∙ find_key-append key db.runs run e (ground (arith, h.key, k, eq_iff key key))
