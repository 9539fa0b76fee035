-- ===== src/Ledger/Laws.antt =====
-- What one call of the ledger does, and that a second one does not run the operation again.
use doppel_agent.Prelude.{
  String, ◌≡◌, refl, Bool, true, false, none, List, arith, eq_iff, is_some, ok,
}
use doppel_agent.Ledger.Connection.{transaction-eq-ok, transaction-tables}
use doppel_agent.Ledger.Rows.{completed, failed, Row, find, find-seal_some}
use doppel_agent.Ledger.Once.{
  Effect, returns, raises, interrupted, Call, Ledger, begin, finish, reserve, run_operation,
  execute_once,
}

-- `known r c s`: the call `c` of run `r` has a row.
abbrev pub known : String → String → Ledger → Bool
known r c s = is_some (find r c s.rows)

begin-tables :
    (r c run call tool hash : String) (rows : List Row)
    → is_some (find r c rows) ≡ true
    → is_some (find r c (begin run call tool hash rows).tables) ≡ true
unfolding begin find
begin-tables r c run call tool hash rows h = ground arith

reserve-known :
    (call : Call) (s : Ledger) (r c : String)
    → known r c s ≡ true
    → is_some (find r c (reserve call s).tables) ≡ true
unfolding reserve
reserve-known call s r c h = ground (
  arith,
  begin-tables r c call.run_id call.tool_call_id call.tool_name call.arguments_hash s.rows,
  transaction-tables call.reserving
      (begin call.run_id call.tool_call_id call.tool_name call.arguments_hash) s.rows s.latches,
)

-- A call runs its operation only after a reservation that has committed: its key had no row before
-- and has one in the tables that the operation starts from.
pub reserve_fresh :
    (call : Call) (s : Ledger)
    → (reserve call s).result ≡ ok none
    → (known call.run_id call.tool_call_id s ≡ false)
      × (is_some (find call.run_id call.tool_call_id (reserve call s).tables) ≡ true)
unfolding reserve begin find
reserve_fresh call s h = ground (
  arith,
  eq_iff call.run_id call.run_id,
  eq_iff call.tool_call_id call.tool_call_id,
  transaction-eq-ok call.reserving
      (begin call.run_id call.tool_call_id call.tool_name call.arguments_hash) s.rows s.latches
      none,
)

run_operation-known :
    (call : Call) (s : Ledger) (r c : String)
    → known r c s ≡ true
    → known r c (run_operation call s).ledger ≡ true
unfolding run_operation finish
run_operation-known call s r c h = by_effect call.operation refl
  where
    by_effect : (e : Effect) → call.operation ≡ e → known r c (run_operation call s).ledger ≡ true
    by_effect (returns result) e = ground (
      arith,
      transaction-tables call.sealing (finish call.run_id call.tool_call_id result "") s.rows
          s.latches,
      find-seal_some call.run_id call.tool_call_id r c completed result "" s.rows,
    )
    by_effect (raises text) e = ground (
      arith,
      transaction-tables call.sealing (finish call.run_id call.tool_call_id "" text) s.rows
          s.latches,
      find-seal_some call.run_id call.tool_call_id r c completed "" text s.rows,
      find-seal_some call.run_id call.tool_call_id r c failed "" text s.rows,
    )
    by_effect interrupted e = ground (arith, e, h)

-- A row stays: no call removes the row of any call.
pub execute_once-known :
    (call : Call) (s : Ledger) (r c : String)
    → known r c s ≡ true
    → known r c (execute_once call s).ledger ≡ true
unfolding execute_once
execute_once-known call s r c h = ground (
  arith,
  reserve-known call s r c h,
  run_operation-known call
      (record { rows = (reserve call s).tables; latches = (reserve call s).latches }) r c,
)

-- The operation runs only if its key had no row, and then its key has one.
pub execute_once-ran :
    (call : Call) (s : Ledger)
    → (execute_once call s).ran ≡ true
    → (known call.run_id call.tool_call_id s ≡ false)
      × (known call.run_id call.tool_call_id (execute_once call s).ledger ≡ true)
unfolding execute_once
execute_once-ran call s h = ground (
  arith,
  reserve_fresh call s,
  run_operation-known call
      (record { rows = (reserve call s).tables; latches = (reserve call s).latches }) call.run_id
      call.tool_call_id,
)
