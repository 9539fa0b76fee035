-- ===== src/Ledger/History.antt =====
-- Histories of calls on one ledger, with any failures of SQLite in between.
use doppel_agent.Prelude.{
  ℕ, ◌+◌, ◌≤◌, String, ◌≡◌, refl, Bool, true, false, ◌&&◌, List, [], ◌∷◌, arith, str_eq, eq_iff,
  if◌then◌else◌, inl, inr, Bool-cases,
}
use doppel_agent.Ledger.Once.{Call, Ledger, Execution, execute_once, aexecute_once}
use doppel_agent.Ledger.Laws.{known, execute_once-known, execute_once-ran}

-- A call through `execute_once` or through `aexecute_once`.
pub data Entry : Type 0 where
  direct : Call → Entry
  awaited : Call → Entry

abbrev pub call_of : Entry → Call
call_of (direct c) = c
call_of (awaited c) = c

abbrev pub execute : Entry → Ledger → Execution
execute (direct c) s = execute_once c s
execute (awaited c) s = aexecute_once c s

abbrev is_for : String → String → Call → Bool
is_for r c call = str_eq call.run_id r && str_eq call.tool_call_id c

-- How often a history runs the operation of tool call `c` of run `r`.
unfoldable pub runs : String → String → List Entry → Ledger → ℕ
runs r c [] s = 0
runs r c (e ∷ es) s =
    (if is_for r c (call_of e) && (execute e s).ran then 1 else 0)
    + runs r c es (execute e s).ledger

execute-known :
    (e : Entry) (s : Ledger) (r c : String)
    → known r c s ≡ true
    → known r c (execute e s).ledger ≡ true
unfolding aexecute_once
execute-known (direct call) s r c h = execute_once-known call s r c h
execute-known (awaited call) s r c h = ground (arith, execute_once-known call s r c h)

execute-ran :
    (e : Entry) (s : Ledger)
    → (execute e s).ran ≡ true
    → (known (call_of e).run_id (call_of e).tool_call_id s ≡ false)
      × (known (call_of e).run_id (call_of e).tool_call_id (execute e s).ledger ≡ true)
unfolding aexecute_once
execute-ran (direct call) s h = execute_once-ran call s h
execute-ran (awaited call) s h = ground (arith, execute_once-ran call s)

runs-known : (r c : String) (es : List Entry) (s : Ledger) → known r c s ≡ true → runs r c es s ≡ 0
unfolding runs
runs-known r c [] s h = refl
runs-known r c (e ∷ es) s h = ground (
  arith,
  execute-ran e s,
  eq_iff (call_of e).run_id r,
  eq_iff (call_of e).tool_call_id c,
  runs-known r c es (execute e s).ledger (execute-known e s r c h),
)

-- In any history of calls, with any failures of the database, the operation of a tool call is run
-- at most once.
pub runs-le_one : (r c : String) (es : List Entry) (s : Ledger) → runs r c es s ≤ 1
unfolding runs
runs-le_one r c [] s = omega arith
runs-le_one r c (e ∷ es) s = elim (Bool-cases (is_for r c (call_of e) && (execute e s).ran)) [
  | inl ran ↦ ground (
    arith,
    execute-ran e s,
    eq_iff (call_of e).run_id r,
    eq_iff (call_of e).tool_call_id c,
    runs-known r c es (execute e s).ledger,
  )
  | inr idle ↦ ground (arith, idle, runs-le_one r c es (execute e s).ledger)
]
