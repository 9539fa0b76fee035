-- ===== src/Ledger/Rows.antt =====
-- The table `tool_executions`, keyed by run and tool call, and the statements that read and write it.
use doppel_agent.Prelude.{
  String, ◌≡◌, refl, Bool, true, ◌&&◌, Option, none, some, List, [], ◌∷◌, arith, str_eq,
  if◌then◌else◌, is_some,
}

pub data Status : Type 0 where
  running completed failed : Status

pub record Row : Type 0 where
  pub run_id : String
  pub tool_call_id : String
  pub tool_name : String
  pub arguments_hash : String
  pub status : Status
  pub result : String
  pub error : String

-- `WHERE run_id=? AND tool_call_id=?`
abbrev pub is_at : String → String → Row → Bool
is_at run call row = str_eq row.run_id run && str_eq row.tool_call_id call

-- `SELECT * ... fetchone()`
unfoldable pub find : String → String → List Row → Option Row
find run call [] = none
find run call (row ∷ rows) =
    let rest = find run call rows in if is_at run call row then some row else rest

-- `UPDATE tool_executions SET status=?,result=?,error=? WHERE ...`
unfoldable pub seal : String → String → Status → String → String → List Row → List Row
seal run call status result error [] = []
seal run call status result error (row ∷ rows) =
    (if is_at run call row
      then record row { status = status; result = result; error = error }
      else row)
    ∷ seal run call status result error rows

-- `INSERT`, at a key that no row has
abbrev pub reserved : String → String → String → String → Row
reserved run call tool hash = record {
  run_id = run;
  tool_call_id = call;
  tool_name = tool;
  arguments_hash = hash;
  status = running;
  result = "";
  error = "";
}

-- Sealing a call changes its own row alone, and there only the status, result and error.
pub find-seal :
    (run call r c : String) (status : Status) (result error : String) (rows : List Row)
    → find r c (seal run call status result error rows) ≡ elim (find r c rows) [
      | none ↦ none
      | some row ↦
          if is_at run call row
          then some (record row { status = status; result = result; error = error })
          else some row
    ]
unfolding find seal
find-seal run call r c status result error [] = refl
find-seal run call r c status result error (row ∷ rows) =
    ground (arith, find-seal run call r c status result error rows)

pub find-seal_some :
    (run call r c : String) (status : Status) (result error : String) (rows : List Row)
    → is_some (find r c (seal run call status result error rows)) ≡ is_some (find r c rows)
find-seal_some run call r c status result error rows =
    ground (arith, find-seal run call r c status result error rows)

pub find-is_at :
    (run call : String) (rows : List Row) (row : Row)
    → find run call rows ≡ some row
    → is_at run call row ≡ true
unfolding find
find-is_at run call [] row h = absurd (ground arith)
find-is_at run call (r ∷ rows) row h = ground (arith, find-is_at run call rows row)
