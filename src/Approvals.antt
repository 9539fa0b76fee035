-- ===== src/Approvals.antt =====
-- web/approvals.py: `ApprovalBroker`, and permissions.py: `PermissionManager.check`. Each function is
-- what one thread does while it has the condition's lock; `request` waits between its two halves.
pub mod History
pub mod Tests
use doppel_agent.Prelude.{
  ℕ, String, Bool, true, false, not, ◌&&◌, ◌||◌, Option, none, some, List, [], ◌∷◌, str_eq,
  if◌then◌else◌, is_some, mem, lookup, assign, pop,
}

-- What a pending approval shows, the time of its creation aside.
pub record Pending : Type 0 where
  pub capability : String
  pub tool : String
  pub arguments : String

pub record Broker : Type 0 where
  pub pending : List (String × Pending)
  pub decisions : List (String × Bool)
  pub closing : Bool

-- `__init__`
abbrev pub new_broker : Broker
new_broker = record { pending = []; decisions = []; closing = false }

-- `request` up to its wait, with a fresh id; whether it waits
unfoldable pub open_request : String → Pending → Broker → Bool × Broker
open_request id item b =
    if b.closing then (false, b) else (true, record b { pending = assign id item b.pending })

-- the predicate of the `wait_for`
abbrev pub is_decided : String → Broker → Bool
is_decided id b = b.closing || is_some (lookup id b.decisions)

abbrev or_false : Option Bool → Bool
or_false none = false
or_false (some allow) = allow

-- `request` after its wait, which ends by the predicate or by the timeout
unfoldable pub end_request : String → Broker → Bool × Broker
end_request id b = (
  is_decided id b && not b.closing && or_false (lookup id b.decisions),
  record b { pending = pop id b.pending; decisions = pop id b.decisions },
)

-- `close`
unfoldable pub close : Broker → Broker
close b = record b { closing = true }

-- `list_pending`
abbrev pub list_pending : Broker → List (String × Pending)
list_pending b = b.pending

-- `decide`
unfoldable pub decide : String → Bool → Broker → Bool × Broker
decide id allow b =
    if b.closing || not (is_some (lookup id b.pending)) || is_some (lookup id b.decisions)
    then (false, b)
    else (true, record b { decisions = assign id allow b.decisions })

-- What `check` says, by its reason.
pub data Decision : Type 0 where
  capability_denied denied_or_timed_out approved_call capability_allowed : Decision

abbrev pub is_allowed : Decision → Bool
is_allowed approved_call = true
is_allowed capability_allowed = true
is_allowed _ = false

abbrev pub asks_approval : List String
asks_approval = "workspace_write" ∷ "command_execute" ∷ "mcp_execute" ∷ []

-- `check`; the approver is given by its answer, where there is one
unfoldable pub check : List String → Option Bool → String → Decision
check allowed approver capability =
    if not (mem capability allowed)
    then capability_denied
    else if mem capability asks_approval
    then elim approver [
      | none ↦ capability_allowed
      | some true ↦ approved_call
      | some false ↦ denied_or_timed_out
    ]
    else capability_allowed
