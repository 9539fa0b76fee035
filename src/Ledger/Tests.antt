-- ===== src/Ledger/Tests.antt =====
-- The ledger at small histories.
use doppel_agent.Prelude.{◌≤◌, ◌≡◌, refl, false, List, [], ◌∷◌}
use doppel_agent.Ledger.Connection.{Link, sound_link, transaction}
use doppel_agent.Ledger.Rows.{find, seal}
use doppel_agent.Ledger.Once.{
  Effect, returns, raises, Call, Ledger, empty_ledger, begin, finish, reserve, run_operation,
  execute_once, aexecute_once,
}
use doppel_agent.Ledger.History.{Entry, direct, awaited, runs, runs-le_one}

abbrev call : Effect → Link → Call
call effect sealing = record {
  run_id = "run";
  tool_call_id = "call-1";
  tool_name = "write_file";
  arguments_hash = "h";
  operation = effect;
  reserving = sound_link;
  sealing = sealing;
}

abbrev lost_commit : Link
lost_commit = record sound_link { exits = false; kept = false }

abbrev done_ledger : Ledger
done_ledger = (execute_once (call (returns "done") sound_link) empty_ledger).ledger

-- a call of another key in between, whose operation raises
abbrev others : List Entry
others = awaited (record (call (raises "no") sound_link) { tool_call_id = "call-2" }) ∷ []

-- A call whose outcome could not be sealed is not run again: the ledger has failed.
abbrev history : List Entry
history =
    direct (call (returns "done") lost_commit)
    ∷ direct (call (returns "done") sound_link)
    ∷ awaited (call (returns "done") sound_link)
    ∷ []

history_runs : runs "run" "call-1" history empty_ledger ≡ 1
unfolding runs execute_once aexecute_once reserve begin find run_operation finish seal transaction
history_runs = refl

runs-le_one_example : runs "run" "call-1" history empty_ledger ≤ 1
runs-le_one_example = runs-le_one "run" "call-1" history empty_ledger
