-- ===== src/Billing/Estimates.antt =====
-- `estimate_observation`: the exact estimate for one observation, on a receipt that was validated.
use doppel_agent.Prelude.{
  ℕ, ◌+◌, ◌*◌, String, ◌≡◌, refl, ap, ◌∙◌, Bool, true, false, List, Option, none, some, arith,
  codes, if◌then◌else◌,
}
use mathlib.Core.Path.{sym}
use doppel_agent.Py.{Value}
use doppel_agent.Billing.Usage.{parse_usage}
use doppel_agent.Billing.Details.{DetailState, known, partial, unknown, invalid, Details}
use doppel_agent.Billing.Snapshot.{canonical_usage_details}
use doppel_agent.Billing.Rates.{coefficient}
use doppel_agent.Billing.Amounts.{amount, units, amount-units}

-- The rates of a validated tariff, with the billing basis that asks for them.
pub data Rates : Type 0 where
  input_output_inclusive : (input output : String) → Rates
  cache_partition_output_inclusive : (cached uncached output : String) → Rates

pub data Reason : Type 0 where
  no_frozen_tariff usage_unknown cache_partition_unknown declared_observation : Reason

-- The state is known where there is an amount.
pub record Estimate : Type 0 where
  pub amount : Option (List ℕ)
  pub reason : Reason

abbrev pub unpriced : Reason → Estimate
unpriced reason = record { amount = none; reason = reason }

abbrev pub priced : ℕ → Estimate
priced numerator = record { amount = some (amount numerator); reason = declared_observation }

-- a rate for a number of tokens
abbrev pub charge : ℕ → String → ℕ
charge tokens rate = tokens * coefficient (codes rate)

abbrev is_known : DetailState → Bool
is_known known = true
is_known _ = false

-- A counter of a partition that is known is there.
abbrev counted : Option ℕ → ℕ
counted none = 0
counted (some n) = n

abbrev pub partition_charge : Details → String → String → ℕ
partition_charge observed cached uncached =
    charge (counted observed.cached_input_tokens) cached
    + charge (counted observed.uncached_input_tokens) uncached

unfoldable pub estimate_partition : Details → String → String → String → ℕ → Estimate
estimate_partition observed cached uncached output outputs =
    if is_known observed.cache_state
    then priced (partition_charge observed cached uncached + charge outputs output)
    else unpriced cache_partition_unknown

abbrev pub estimate_pair : Rates → ℕ → ℕ → Value → Estimate
estimate_pair (input_output_inclusive input output) inputs outputs details =
    priced (charge inputs input + charge outputs output)
estimate_pair (cache_partition_output_inclusive cached uncached output) inputs outputs details =
    estimate_partition (canonical_usage_details details (some (inputs, outputs))) cached uncached
      output outputs

abbrev pub estimate_usage : Rates → Option (ℕ × ℕ) → Value → Estimate
estimate_usage rates none details = unpriced usage_unknown
estimate_usage rates (some (inputs, outputs)) details = estimate_pair rates inputs outputs details

-- `estimate_observation`
unfoldable pub estimate_observation : Option Rates → Value → Value → Estimate
estimate_observation none usage details = unpriced no_frozen_tariff
estimate_observation (some rates) usage details = estimate_usage rates (parse_usage usage) details

-- What an amount is for: the tokens of the usage at the rates of the tariff, in hundred-trillionths.
abbrev pub IsFor : Rates → ℕ → ℕ → Value → ℕ → Type 0
IsFor (input_output_inclusive input output) inputs outputs details total =
    total ≡ charge inputs input + charge outputs output
IsFor (cache_partition_output_inclusive cached uncached output) inputs outputs details total =
    (canonical_usage_details details (some (inputs, outputs))).cache_state ≡ known
    × (total
        ≡ partition_charge (canonical_usage_details details (some (inputs, outputs))) cached
            uncached
          + charge outputs output)

is_known-eq : (s : DetailState) → is_known s ≡ true → s ≡ known
is_known-eq known h = refl
is_known-eq partial h = absurd (ground (arith, h))
is_known-eq unknown h = absurd (ground (arith, h))
is_known-eq invalid h = absurd (ground (arith, h))

estimate_pair-IsFor :
    (rates : Rates) (inputs outputs : ℕ) (details : Value) (text : List ℕ)
    → (estimate_pair rates inputs outputs details).amount ≡ some text
    → IsFor rates inputs outputs details (units text)
unfolding estimate_partition
estimate_pair-IsFor (input_output_inclusive input output) inputs outputs details text h =
    let made : amount (charge inputs input + charge outputs output) ≡ text = ground (arith, h) in
    ap (λ t. units t) (sym made) ∙ amount-units (charge inputs input + charge outputs output)
estimate_pair-IsFor (cache_partition_output_inclusive cached uncached output) inputs outputs details
      text h =
    by_state (canonical_usage_details details (some (inputs, outputs))) h
  where
    by_state :
        (observed : Details)
        → (estimate_partition observed cached uncached output outputs).amount ≡ some text
        → (observed.cache_state ≡ known)
          × (units text ≡ partition_charge observed cached uncached + charge outputs output)
    by_state observed k =
        let made : amount (partition_charge observed cached uncached + charge outputs output)
            ≡ text =
          ground (arith, k) in
        (
          is_known-eq observed.cache_state (ground (arith, k)),
          ap (λ t. units t) (sym made)
              ∙ amount-units (partition_charge observed cached uncached + charge outputs output),
        )

-- An amount is only given for usage that was reported, under a partition basis only with a known
-- partition of the input, and its text stands for exactly the sum of the tokens at their rates.
pub estimate_observation-IsFor :
    (rates : Rates) (usage details : Value) (text : List ℕ)
    → (estimate_observation (some rates) usage details).amount ≡ some text
    → (inputs : ℕ) × (outputs : ℕ) × (parse_usage usage ≡ some (inputs, outputs))
      × IsFor rates inputs outputs details (units text)
unfolding estimate_observation
estimate_observation-IsFor rates usage details text h = by_usage (parse_usage usage) h
  where
    by_usage :
        (o : Option (ℕ × ℕ))
        → (estimate_usage rates o details).amount ≡ some text
        → (inputs : ℕ) × (outputs : ℕ) × (o ≡ some (inputs, outputs))
          × IsFor rates inputs outputs details (units text)
    by_usage none k = absurd (ground (arith, k))
    by_usage (some (i, o)) k = (i, o, refl, estimate_pair-IsFor rates i o details text k)
