-- ===== src/Ledger/Kept.antt =====
-- No call changes the row of another one, so the row of a call that has ended stays.
use doppel_agent.Prelude.{
  String, ◌≡◌, refl, false, Option, none, some, List, [], ◌∷◌, arith, eq_iff, is_some, Result, ok,
  err,
}
use doppel_agent.Ledger.Connection.{LedgerError, transaction-tables}
use doppel_agent.Ledger.Rows.{completed, failed, Row, is_at, find, find-seal, find-is_at}
use doppel_agent.Ledger.Once.{
  Effect, returns, raises, interrupted, Call, Ledger, begin, finish, reserve, run_operation,
  execute_once, aexecute_once,
}
use doppel_agent.Ledger.Laws.{reserve_fresh}
use doppel_agent.Ledger.History.{Entry, direct, awaited, execute}

begin-row :
    (r c run call tool hash : String) (rows : List Row) (row : Row)
    → find r c rows ≡ some row
    → find r c (begin run call tool hash rows).tables ≡ some row
unfolding begin find
begin-row r c run call tool hash rows row h = ground (arith, h, eq_iff run r, eq_iff call c)

reserve-row :
    (call : Call) (s : Ledger) (r c : String) (row : Row)
    → find r c s.rows ≡ some row
    → find r c (reserve call s).tables ≡ some row
unfolding reserve
reserve-row call s r c row h = ground (
  arith,
  h,
  begin-row r c call.run_id call.tool_call_id call.tool_name call.arguments_hash s.rows row h,
  transaction-tables call.reserving
      (begin call.run_id call.tool_call_id call.tool_name call.arguments_hash) s.rows s.latches,
)

run_operation-row :
    (call : Call) (s : Ledger) (r c : String) (row : Row)
    → is_at call.run_id call.tool_call_id row ≡ false
    → find r c s.rows ≡ some row
    → find r c (run_operation call s).ledger.rows ≡ some row
unfolding run_operation finish
run_operation-row call s r c row other h = by_effect call.operation refl
  where
    by_effect :
        (e : Effect) → call.operation ≡ e → find r c (run_operation call s).ledger.rows ≡ some row
    by_effect (returns result) e = ground (
      arith,
      e,
      h,
      other,
      transaction-tables call.sealing (finish call.run_id call.tool_call_id result "") s.rows
          s.latches,
      find-seal call.run_id call.tool_call_id r c completed result "" s.rows,
    )
    by_effect (raises text) e = ground (
      arith,
      e,
      h,
      other,
      transaction-tables call.sealing (finish call.run_id call.tool_call_id "" text) s.rows
          s.latches,
      find-seal call.run_id call.tool_call_id r c completed "" text s.rows,
      find-seal call.run_id call.tool_call_id r c failed "" text s.rows,
    )
    by_effect interrupted e = ground (arith, e, h)

not_at :
    (run call r c : String) (rows : List Row) (row : Row)
    → find r c rows ≡ some row
    → is_some (find run call rows) ≡ false
    → is_at run call row ≡ false
not_at run call r c rows row h k = ground (
  arith,
  h,
  k,
  find-is_at r c rows row h,
  eq_iff row.run_id r,
  eq_iff row.run_id run,
  eq_iff row.tool_call_id c,
  eq_iff row.tool_call_id call,
)

execute_once-row :
    (call : Call) (s : Ledger) (r c : String) (row : Row)
    → find r c s.rows ≡ some row
    → find r c (execute_once call s).ledger.rows ≡ some row
unfolding execute_once
execute_once-row call s r c row h = by_reservation (reserve call s).result refl
  where
    kept : find r c (reserve call s).tables ≡ some row
    kept = reserve-row call s r c row h

    by_reservation :
        (x : Result LedgerError (Option String))
        → (reserve call s).result ≡ x
        → find r c (execute_once call s).ledger.rows ≡ some row
    by_reservation (err e) k = ground (arith, k, kept)
    by_reservation (ok (some old)) k = ground (arith, k, kept)
    by_reservation (ok none) k =
        let fresh = (reserve_fresh call s k).0 in
        ground (
          arith,
          k,
          run_operation-row call
              (record { rows = (reserve call s).tables; latches = (reserve call s).latches }) r c
              row (not_at call.run_id call.tool_call_id r c s.rows row h fresh) kept,
        )

execute-row :
    (e : Entry) (s : Ledger) (r c : String) (row : Row)
    → find r c s.rows ≡ some row
    → find r c (execute e s).ledger.rows ≡ some row
unfolding aexecute_once
execute-row (direct call) s r c row h = execute_once-row call s r c row h
execute-row (awaited call) s r c row h = ground (arith, execute_once-row call s r c row h)

-- The ledger behind a history of calls.
unfoldable pub ledger_after : List Entry → Ledger → Ledger
ledger_after [] s = s
ledger_after (e ∷ es) s = ledger_after es (execute e s).ledger

pub ledger_after-row :
    (es : List Entry) (s : Ledger) (r c : String) (row : Row)
    → find r c s.rows ≡ some row
    → find r c (ledger_after es s).rows ≡ some row
unfolding ledger_after
ledger_after-row [] s r c row h = h
ledger_after-row (e ∷ es) s r c row h =
    ledger_after-row es (execute e s).ledger r c row (execute-row e s r c row h)
