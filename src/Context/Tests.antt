-- ===== src/Context/Tests.antt =====
-- A history that is compacted, with a size that counts the messages.
use doppel_agent.Prelude.{ℕ, ◌*◌, ◌<◌, String, ◌≡◌, refl, List, [], ◌∷◌, ok, length}
use doppel_agent.Context.{
  text, compaction_note, Message, Policy, new_policy, estimate_tokens, drop_groups, grouped,
  group_messages, compact,
}
use doppel_agent.Context.Bounds.{compact-estimate_tokens}

abbrev size : List Message → ℕ
size ms = 150 * length ms

abbrev message : String → Message
message role = record { role = role; content = text "..."; tool_calls = [] }

abbrev policy : Policy
policy = record { limit_tokens = 300; ratio = 4; scale = 5 }

abbrev history : List Message
history =
    message "system"
    ∷ message "user"
    ∷ message "assistant"
    ∷ message "tool"
    ∷ message "assistant"
    ∷ message "tool"
    ∷ message "assistant"
    ∷ []

abbrev compacted : List Message
compacted =
    message "system"
    ∷ message "user"
    ∷ record { role = "system"; content = compaction_note 1 []; tool_calls = [] }
    ∷ message "assistant"
    ∷ message "tool"
    ∷ message "assistant"
    ∷ []

policy_made : new_policy 300 4 5 ≡ ok policy
unfolding new_policy
policy_made = refl

one_dropped : compact size policy history ≡ ok compacted
unfolding compact estimate_tokens drop_groups group_messages grouped
one_dropped = refl

compact-estimate_tokens_example : estimate_tokens size compacted < 300
compact-estimate_tokens_example =
    compact-estimate_tokens size 300 4 5 policy history compacted policy_made one_dropped
