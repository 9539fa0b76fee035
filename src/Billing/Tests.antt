-- ===== src/Billing/Tests.antt =====
-- Usage counters and details of small responses.
use doppel_agent.Prelude.{ℕ, ◌≡◌, refl, arith, true, List, [], ◌∷◌, some, ok}
use doppel_agent.Py.{Value, none_value, int, dict, Fields, end, field}
use doppel_agent.Billing.Usage.{parse_usage, counter, IsUsage, parse_usage-IsUsage}
use doppel_agent.Billing.Meter.{
  new_meter, record_usage, exhausted, IsBalanced, meter_after, meter_after-IsBalanced,
}
use doppel_agent.Billing.Details.{
  known, IsConsistent, usage_details, summarise, usage_details-IsConsistent,
}
use doppel_agent.Billing.Snapshot.{canonical_usage_details, stored, usage_details-stored}

abbrev response : Fields
response = field "prompt_tokens" (int 12) (
    field "input_tokens" (int 12) (
      field "completion_tokens" (int 5) (
        field "total_tokens" (int 17) (
          field "prompt_cache_hit_tokens" (int 8) (field "prompt_cache_miss_tokens" (int 4) end)))))

response_usage : parse_usage (dict response) ≡ some (12, 5)
unfolding parse_usage counter
response_usage = refl

parse_usage-IsUsage_example : IsUsage response 12 5
parse_usage-IsUsage_example = parse_usage-IsUsage response 12 5 response_usage

usage_details-IsConsistent_example : IsConsistent 12 5 (usage_details response (12, 5))
usage_details-IsConsistent_example = usage_details-IsConsistent response 12 5

usage_details-stored_example :
    canonical_usage_details (stored (usage_details response (12, 5))) (some (12, 5))
    ≡ usage_details response (12, 5)
usage_details-stored_example = usage_details-stored response 12 5

response_details : (usage_details response (12, 5)).cache_state ≡ known
unfolding usage_details summarise
response_details = refl

abbrev history : List (Value × ℕ)
history = (dict response, 0) ∷ (none_value, 40) ∷ []

new_meter-IsBalanced : IsBalanced new_meter
new_meter-IsBalanced = record { balance = refl; estimates = ground arith; silent = λ h. refl }

meter_after-IsBalanced_example : IsBalanced (meter_after history new_meter)
meter_after-IsBalanced_example = meter_after-IsBalanced history new_meter new_meter-IsBalanced

spent : exhausted (some 10) (meter_after ((dict response, 0) ∷ []) new_meter) ≡ ok true
unfolding exhausted record_usage parse_usage counter
spent = refl
