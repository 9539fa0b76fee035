-- ===== src/Plans/Tests.antt =====
-- Small plans, and the properties of the planner at them.
use doppel_agent.Prelude.{
  ℕ, String, ◌≡◌, refl, true, none, some, List, [], ◌∷◌, arith, if◌then◌else◌, str_eq, mem,
  distinct, strip, Result, ok, err,
}
use doppel_agent.Py.{Value, str, list, dict, Items, Fields}
use doppel_agent.Plans.{
  ExecutionSettings, PlanTask, WorkOrderPlan, PlanError, cyclic_dependencies, bad_text, kahn,
  topological_order, text,
}
use doppel_agent.Plans.Topological.{
  IsSchedule, topological_order_total, topological_order-IsSchedule,
}
use doppel_agent.Plans.Cycles.{acyclic-topological_order}

abbrev task : String → List String → PlanTask
task id dependencies = record {
  id = id;
  title = "t";
  prompt = "p";
  dependencies = dependencies;
  access = "read";
  mode = "graph";
  profile_id = none;
}

abbrev diamond : WorkOrderPlan
diamond = record {
  title = "diamond";
  tasks = task "d" ("b" ∷ "c" ∷ []) ∷ task "b" ("a" ∷ []) ∷ task "c" ("a" ∷ []) ∷ task "a" [] ∷ [];
}

abbrev sequence_of_diamond : List String
sequence_of_diamond = "a" ∷ "b" ∷ "c" ∷ "d" ∷ []

diamond_ordered : topological_order diamond ≡ some (ok sequence_of_diamond)
unfolding topological_order kahn mem distinct
diamond_ordered = refl

ring_refused :
    topological_order
      (record { title = "r"; tasks = task "a" ("b" ∷ []) ∷ task "b" ("a" ∷ []) ∷ [] })
    ≡ some (err cyclic_dependencies)
unfolding topological_order kahn mem distinct
ring_refused = refl

topological_order_total_example :
    (r : Result PlanError (List String)) × (topological_order diamond ≡ some r)
topological_order_total_example = topological_order_total diamond

topological_order-IsSchedule_example : IsSchedule diamond.tasks sequence_of_diamond
topological_order-IsSchedule_example =
    topological_order-IsSchedule diamond sequence_of_diamond diamond_ordered

abbrev depth : String → ℕ
depth s = if str_eq s "a" then 0 else if str_eq s "d" then 2 else 1

acyclic-topological_order_example :
    (order : List String) × (topological_order diamond ≡ some (ok order))
unfolding mem distinct
acyclic-topological_order_example = acyclic-topological_order diamond depth refl refl (omega arith)

abbrev payload : Value
payload = dict (
    Fields.field "title" (str "  plan ") (
      Fields.field "tasks"
        (list (
          Items.cons
            (dict (
              Fields.field "id" (str "a-1") (
                Fields.field "title" (str "go")
                  (Fields.field "prompt" (str " do it ") Fields.end))))
            Items.nil))
        Fields.end))

abbrev read_example : WorkOrderPlan
read_example = record {
  title = "plan";
  tasks =
      record {
        id = "a-1";
        title = "go";
        prompt = "do it";
        dependencies = [];
        access = "read";
        mode = "graph";
        profile_id = none;
      }
      ∷ [];
}

blank_refused : text (str "   ") 200 ≡ err bad_text
unfolding text strip
blank_refused = refl

abbrev all_granted : ExecutionSettings
all_granted = record {
  permissions = record {
    workspace_write = true;
    command_execute = true;
    mcp_execute = true;
    delegate = true;
  };
  profile = none;
  effort = "balanced";
  deadline_seconds = 600;
  context = none;
}
