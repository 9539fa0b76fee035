-- ===== src/Approvals/Tests.antt =====
-- A decided request, and a permission check.
use doppel_agent.Prelude.{String, ◌≡◌, refl, true, false, List, [], ◌∷◌, some, mem, lookup, assign}
use doppel_agent.Approvals.{
  Pending, Broker, new_broker, open_request, end_request, decide, check, is_allowed,
}
use doppel_agent.Approvals.History.{System, opens, decides, Reach, here, next, end_request-granted}

abbrev item : Pending
item = record { capability = "workspace_write"; tool = "write_file"; arguments = "{}" }

abbrev asked : Broker
asked = (open_request "a1" item new_broker).1

abbrev decided : System
decided = record { broker = (decide "a1" true asked).1; granted = "a1" ∷ [] }

accepted : (decide "a1" true asked).0 ≡ true
unfolding decide open_request lookup assign
accepted = refl

decided_reached : Reach decided
unfolding decide open_request lookup assign
decided_reached = next (next here (opens "a1" item)) (decides "a1" true)

allowed : (end_request "a1" decided.broker).0 ≡ true
unfolding end_request decide open_request lookup assign
allowed = refl

end_request-granted_example : (mem "a1" decided.granted ≡ true) × (decided.broker.closing ≡ false)
end_request-granted_example = end_request-granted decided "a1" decided_reached allowed

abbrev write_scope : List String
write_scope = "workspace_write" ∷ []

checked : is_allowed (check write_scope (some true) "workspace_write") ≡ true
unfolding check mem
checked = refl
