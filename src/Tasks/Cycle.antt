-- ===== src/Tasks/Cycle.antt =====
-- The search of `set_dependencies` for a cycle: `visit` on every task of the run. Its recursion is on
-- fuel, one more than the graph has nodes: the nodes being visited are different nodes of the graph.
use doppel_agent.Prelude.{
  ℕ, zero, suc, String, none, some, List, [], ◌∷◌, if◌then◌else◌, length, mem, Result, ok, err,
  lookup, names, remove,
}
use doppel_agent.Tasks.Table.{TaskError, dependency_cycle}

-- `visiting` and `visited`
pub record Marks : Type 0 where
  pub visiting : List String
  pub visited : List String

abbrev successors : String → List (String × List String) → List String
successors node graph = elim (lookup node graph) [ none ↦ [] | some ds ↦ ds ]

abbrev enter : String → Marks → Marks
enter node m = record m { visiting = node ∷ m.visiting }

abbrev leave : String → Marks → Marks
leave node m = record { visiting = remove node m.visiting; visited = node ∷ m.visited }

-- `for dep in ...: visit(dep)`
unfoldable pub visit_each :
    (String → Marks → Result TaskError Marks) → List String → Marks → Result TaskError Marks
visit_each visit [] m = ok m
visit_each visit (node ∷ nodes) m = elim (visit node m) [
  | err e ↦ err e
  | ok after ↦ visit_each visit nodes after
]

-- `visit`
unfoldable pub visit : ℕ → List (String × List String) → String → Marks → Result TaskError Marks
visit zero graph node m = err dependency_cycle
visit (suc fuel) graph node m =
    let below = visit_each (visit fuel graph) (successors node graph) (enter node m) in
    if mem node m.visiting
    then err dependency_cycle
    else if mem node m.visited
    then ok m
    else elim below [ err e ↦ err e | ok after ↦ ok (leave node after) ]

-- the check of a whole graph
unfoldable pub check_acyclic : List (String × List String) → Result TaskError Marks
check_acyclic graph =
    visit_each (visit (suc (length graph)) graph) (names graph)
      (record { visiting = []; visited = [] })
