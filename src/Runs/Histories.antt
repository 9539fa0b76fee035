-- ===== src/Runs/Histories.antt =====
-- Any sequence of the store's operations, and what it keeps of a run: its id, key and request.
use doppel_agent.Prelude.{ℕ, String, Bool, true, not, ◌&&◌, List, [], ◌∷◌, str_eq, Result, ok, err}
use doppel_agent.Runs.Tables.{Status, interrupted, Request, Db, RunError, same_status}
use doppel_agent.Runs.Turns.{Fresh}
use doppel_agent.Runs.Store.{Acceptance, create, update, request_cancel, release_conversation_turn}
use doppel_agent.Runs.Claims.{claim_interrupt}
use doppel_agent.Runs.Restart.{recover_incomplete}

-- An operation of the store with its arguments.
pub data Operation : Type 0 where
  creates : Acceptance → Request → Fresh → Operation
  updates :
      (id : String)
      → Status
      → (answer error : String) → List String
      → (fallback : Bool) → (now : ℕ) → Operation
  cancels : String → ℕ → Operation
  releases : String → Operation
  claims : (id interrupt decision : String) (ttl now : ℕ) → Operation
  recovers : (error : String) (now : ℕ) → Operation

-- the tables behind an operation that may raise
abbrev pub left : {A : Type 0} → Result RunError (A × Db) → Db → Db
left (ok (a, after)) db = after
left (err e) db = db

unfoldable pub perform : Operation → Db → Db
perform (creates a r fresh) db = left (create a r fresh db) db
perform (updates id status answer error interrupts fallback now) db =
    left (update id status answer error interrupts fallback now db) db
perform (cancels id now) db = (request_cancel id now db).1
perform (releases id) db = release_conversation_turn id db
perform (claims id interrupt decision ttl now) db =
    (claim_interrupt id interrupt decision ttl now db).1
perform (recovers error now) db = (recover_incomplete error now db).1

unfoldable pub perform_all : List Operation → Db → Db
perform_all [] db = db
perform_all (o ∷ os) db = perform_all os (perform o db)

-- whether the operation is no update that makes run `id` wait for a decision
abbrev pub leaves : String → Operation → Bool
leaves id (updates other status answer error interrupts fallback now) =
    not (str_eq other id && same_status status interrupted)
leaves id _ = true
