-- ===== src/Ledger/Replay.antt =====
-- A completed call is replayed.
use doppel_agent.Prelude.{String}
use doppel_agent.Ledger.Rows.{completed, Row, reserved}
use doppel_agent.Ledger.Once.{Call, Ledger}

-- The row of a call that has returned `result`.
abbrev pub sealed : Call → String → Row
sealed c result = record {
  run_id = c.run_id;
  tool_call_id = c.tool_call_id;
  tool_name = c.tool_name;
  arguments_hash = c.arguments_hash;
  status = completed;
  result = result;
  error = "";
}

abbrev start : Call → Row
start c = reserved c.run_id c.tool_call_id c.tool_name c.arguments_hash
