-- ===== src/Billing/Prices.antt =====
-- A tariff of two rates, frozen, read back and applied to one observation.
use doppel_agent.Prelude.{
  ℕ, String, ◌≡◌, refl, true, some, codes, ok, lookup, mem, distinct, lstrip, rstrip, rstrip_cons,
  strip,
}
use doppel_agent.Py.{Value, none_value, str, int, dict, Fields, end, field}
use doppel_agent.Billing.Usage.{parse_usage, counter}
use doppel_agent.Billing.Rates.{
  rate, coefficient, before_point, after_point, has_point, is_rate, strip_cons, strip_char,
  normal_text, strip_end, normalised, number, ljust,
}
use doppel_agent.Billing.Spelling.{rate-coefficient}
use doppel_agent.Billing.Amounts.{amount, units, decimal, padded}
use doppel_agent.Billing.Estimates.{
  Rates, input_output_inclusive, IsFor, estimate_observation, estimate_observation-IsFor,
  estimate_partition,
}
use doppel_agent.Billing.Tariff.{
  Library, Receipt, freeze_tariff, validate_price_receipt, enum, date, inclusive_rates,
  partition_rates, read_rates, read_common, reference, canonical_tariff, binding, freeze_canonical,
  hash, is_bound_to, checked, read_receipt,
}
use doppel_agent.Billing.Receipts.{receipt_value}
use doppel_agent.Billing.Frozen.{freeze_tariff-validate}

rate-coefficient_example :
    (coefficient (codes "1.5") ≡ coefficient (codes "1.500")) × (rate (str "1.5") ≡ ok "1.5")
unfolding before_point after_point has_point is_rate strip_cons strip_char normal_text strip_end
    normalised rate number ljust coefficient
rate-coefficient_example = rate-coefficient "1.500" "1.5" refl

abbrev usage : Fields
usage = field "input_tokens" (int 1000) (field "output_tokens" (int 20) end)

abbrev rates : Rates
rates = input_output_inclusive "1.5" "6"

priced_text :
    (estimate_observation (some rates) (dict usage) none_value).amount ≡ some (codes "0.00162")
unfolding before_point after_point has_point is_rate strip_cons strip_char normal_text strip_end
    normalised rate number ljust coefficient decimal padded amount units estimate_partition
    estimate_observation enum date inclusive_rates partition_rates read_rates read_common reference
    canonical_tariff binding freeze_canonical freeze_tariff hash is_bound_to checked read_receipt
    validate_price_receipt counter parse_usage lookup mem distinct lstrip rstrip rstrip_cons strip
priced_text = refl

estimate_observation-IsFor_example :
    (inputs : ℕ) × (outputs : ℕ) × (parse_usage (dict usage) ≡ some (inputs, outputs))
    × IsFor rates inputs outputs none_value (units (codes "0.00162"))
unfolding before_point after_point has_point is_rate strip_cons strip_char normal_text strip_end
    normalised rate number ljust coefficient decimal padded amount units estimate_partition
    estimate_observation enum date inclusive_rates partition_rates read_rates read_common reference
    canonical_tariff binding freeze_canonical freeze_tariff hash is_bound_to checked read_receipt
    validate_price_receipt counter parse_usage lookup mem distinct lstrip rstrip rstrip_cons strip
estimate_observation-IsFor_example =
    estimate_observation-IsFor rates (dict usage) none_value (codes "0.00162") refl

abbrev sixty_four : String
sixty_four = "0123456789abcdef0123456789abcdef0123456789abcdef0123456789abcdef"

abbrev library : Library
library = record {
  is_day = λ s. true;
  source_digest = λ s. sixty_four;
  binding_digest = λ p. sixty_four;
  frozen_digest = λ f. sixty_four;
}

abbrev tariff : Value
tariff = dict (
    field "version" (int 1) (
      field "currency" (str "EUR") (
        field "effective_date" (str "2024-05-01") (
          field "source_kind" (str "user_declared") (
            field "source_reference" (str " price list ") (
              field "unit_tokens" (int 1000000) (
                field "billing_basis" (str "input_output_inclusive") (
                  field "reasoning_basis" (str "included_in_output") (
                    field "rates"
                      (dict (
                        field "input" (str "1.500") (
                          field "cached_input" none_value
                            (field "uncached_input" none_value (field "output" (str "6") end)))))
                      end)))))))))

abbrev profile : Value
profile = dict (
    field "provider" (str "mock")
      (field "model" (str "m") (field "base_url" (str "http://localhost") end)))

abbrev receipt : Receipt
receipt = record {
  frozen = record {
    common = record {
      currency = "EUR";
      effective_date = "2024-05-01";
      source_kind = "user_declared";
      rates = rates;
    };
    frozen_date = "2024-06-30";
    source_sha256 = sixty_four;
    binding_sha256 = sixty_four;
  };
  tariff_sha256 = sixty_four;
}

freeze_tariff-validate_example :
    validate_price_receipt library (receipt_value receipt) (some profile) ≡ ok receipt
unfolding before_point after_point has_point is_rate strip_cons strip_char normal_text strip_end
    normalised rate number ljust coefficient decimal padded amount units estimate_partition
    estimate_observation enum date inclusive_rates partition_rates read_rates read_common reference
    canonical_tariff binding freeze_canonical freeze_tariff hash is_bound_to checked read_receipt
    validate_price_receipt counter parse_usage lookup mem distinct lstrip rstrip rstrip_cons strip
freeze_tariff-validate_example =
    freeze_tariff-validate library (λ s. refl) (λ p. refl) (λ f. refl) tariff profile
      (str "2024-06-30") receipt refl
