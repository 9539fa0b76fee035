-- ===== src/Ledger/Once.antt =====
-- `execute_once`, `_begin`, `_finish` and `aexecute_once`: reserve a call, run the operation, seal its
-- outcome. The hash of the arguments is given: SHA-256 of their JSON.
use doppel_agent.Prelude.{
  String, Bool, true, false, not, ◌||◌, Option, none, some, List, [], ◌∷◌, str_eq, if◌then◌else◌,
  Result, ok, err,
}
use doppel_agent.Ledger.Connection.{
  Link, Latches, LedgerError, reused_with_different_input, previous_failed, indeterminate,
  operation_failed, operation_interrupted, mark_failed, Body, Outcome, transaction,
}
use doppel_agent.Ledger.Rows.{running, completed, failed, Row, find, seal, reserved}

-- What an operation does when it is run: it returns, raises an `Exception` (with the text that is
-- sealed for it), or is ended by any other `BaseException`, as a cancellation.
pub data Effect : Type 0 where
  returns : String → Effect
  raises : String → Effect
  interrupted : Effect

-- What a call of the ledger is given: its key, the tool and the hash of its arguments, the operation,
-- and what SQLite does in the reserving and in the sealing transaction.
pub record Call : Type 0 where
  pub run_id : String
  pub tool_call_id : String
  pub tool_name : String
  pub arguments_hash : String
  pub operation : Effect
  pub reserving : Link
  pub sealing : Link

pub record Ledger : Type 0 where
  pub rows : List Row
  pub latches : Latches

abbrev pub empty_ledger : Ledger
empty_ledger = record { rows = []; latches = record { failed = false; cleanup_uncertain = false } }

abbrev refuse : {A : Type 0} → LedgerError → List Row → Body (List Row) A
refuse e rows = record { result = err e; tables = rows; marks = false }

-- an existing row at the key
abbrev existing_row : Row → String → String → List Row → Body (List Row) (Option String)
existing_row row tool hash rows =
    if not (str_eq row.tool_name tool) || not (str_eq row.arguments_hash hash)
    then refuse reused_with_different_input rows
    else elim row.status [
      | completed ↦ record { result = ok (some row.result); tables = rows; marks = false }
      | failed ↦ refuse previous_failed rows
      | running ↦ record { result = err indeterminate; tables = rows; marks = true }
    ]

-- The first transaction of `execute_once`, which `_begin` repeats: `some` is the result of a completed
-- call to replay, `none` a fresh reservation.
unfoldable pub begin :
    String → String → String → String → List Row → Body (List Row) (Option String)
begin run call tool hash rows = elim (find run call rows) [
  | some row ↦ existing_row row tool hash rows
  | none ↦ record { result = ok none; tables = reserved run call tool hash ∷ rows; marks = false }
]

-- `_finish`; an empty error text means success
unfoldable pub finish : String → String → String → String → List Row → Body (List Row) (Unit {0})
finish run call result error rows = record {
  result = ok tt;
  tables = seal run call (if str_eq error "" then completed else failed) result error rows;
  marks = false;
}

-- What a call gives: the result with its `replayed` flag, the ledger, and whether the operation ran.
pub record Execution : Type 0 where
  pub result : Result LedgerError (String × Bool)
  pub ledger : Ledger
  pub ran : Bool

abbrev after : {A : Type 0} → Outcome (List Row) A → Ledger
after o = record { rows = o.tables; latches = o.latches }

-- The operation and its sealing transaction. An exception of the operation is raised again once the
-- failure is sealed; a failed transaction raises its own.
unfoldable pub run_operation : Call → Ledger → Execution
run_operation c s = elim c.operation [
  | returns result ↦
      let o = transaction c.sealing (finish c.run_id c.tool_call_id result "") s.rows s.latches in
      elim o.result [
        | ok done ↦ record { result = ok (result, false); ledger = after o; ran = true }
        | err e ↦ record { result = err e; ledger = after o; ran = true }
      ]
  | interrupted ↦ record { result = err operation_interrupted; ledger = s; ran = true }
  | raises error_text ↦
      let o =
        transaction c.sealing (finish c.run_id c.tool_call_id "" error_text) s.rows s.latches in
      elim o.result [
        | ok done ↦ record { result = err operation_failed; ledger = after o; ran = true }
        | err e ↦ record { result = err e; ledger = after o; ran = true }
      ]
]

unfoldable pub reserve : Call → Ledger → Outcome (List Row) (Option String)
reserve c s =
    transaction c.reserving (begin c.run_id c.tool_call_id c.tool_name c.arguments_hash) s.rows
      s.latches

unfoldable pub execute_once : Call → Ledger → Execution
execute_once c s = elim (reserve c s).result [
  | err e ↦ record { result = err e; ledger = after (reserve c s); ran = false }
  | ok (some result) ↦ record {
    result = ok (result, true);
    ledger = after (reserve c s);
    ran = false;
  }
  | ok none ↦ run_operation c (after (reserve c s))
]

-- `ToolLedgerAdmissionError`
abbrev pub is_admission : LedgerError → Bool
is_admission reused_with_different_input = true
is_admission previous_failed = true
is_admission _ = false

-- `phase` of `aexecute_once`: any exception of a ledger transaction that is no admission refusal
-- fences the ledger. The exception of the operation itself is none of them.
abbrev fence : LedgerError → Ledger → Ledger
fence operation_failed s = s
fence operation_interrupted s = s
fence e s = if is_admission e then s else record s { latches = mark_failed s.latches }

unfoldable pub aexecute_once : Call → Ledger → Execution
unfolding execute_once
aexecute_once c s =
    let x = execute_once c s in
    elim x.result [ ok value ↦ x | err e ↦ record x { ledger = fence e x.ledger } ]
