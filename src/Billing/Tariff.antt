-- ===== src/Billing/Tariff.antt =====
-- Declared tariffs and frozen receipts: `canonical_tariff`, `freeze_tariff` and
-- `validate_price_receipt`.
use doppel_agent.Prelude.{
  ℕ, String, Bool, true, false, not, ◌&&◌, ◌||◌, List, [], ◌∷◌, Option, none, some, str_eq, ltb,
  leb, ◌==◌, if◌then◌else◌, length, all, mem, codes, text_length, utf8_length, has_nul, strip,
  Result, ok, err, guard, ◌>>◌, ◌>>=◌,
}
use doppel_agent.Py.{Value, none_value, bool, str, int, dict, Fields, get_or, keys_are}
use doppel_agent.Billing.Rates.{
  TariffError, billing_tariff_invalid, billing_receipt_invalid, rate, is_digit,
}
use doppel_agent.Billing.Amounts.{unit_tokens}
use doppel_agent.Billing.Estimates.{Rates, input_output_inclusive, cache_partition_output_inclusive}

-- The fields of `_common` that are not constant; the rates tell the billing basis.
pub record Common : Type 0 where
  pub currency : String
  pub effective_date : String
  pub source_kind : String
  pub rates : Rates

-- The frame that `tariff_sha256` is taken of.
pub record Frozen : Type 0 where
  pub common : Common
  pub frozen_date : String
  pub source_sha256 : String
  pub binding_sha256 : String

pub record Receipt : Type 0 where
  pub frozen : Frozen
  pub tariff_sha256 : String

pub record Profile : Type 0 where
  pub provider : String
  pub model : String
  pub base_url : String

-- The standard library: which dates of the form dddd-dd-dd exist, and the digests of `_digest` for
-- its three domains.
pub record Library : Type 0 where
  pub is_day : String → Bool
  pub source_digest : String → String
  pub binding_digest : Profile → String
  pub frozen_digest : Frozen → String

abbrev pub currencies : List String
currencies = "CNY" ∷ "USD" ∷ "EUR" ∷ "GBP" ∷ "JPY" ∷ []

abbrev pub source_kinds : List String
source_kinds = "user_declared" ∷ "offline_fixture" ∷ "official_reference" ∷ []

abbrev pub rate_keys : List String
rate_keys = "input" ∷ "cached_input" ∷ "uncached_input" ∷ "output" ∷ []

-- `_enum`, with the text that it accepts
unfoldable pub enum : List String → Value → Result TariffError String
enum values (str s) = if mem s values then ok s else err billing_tariff_invalid
enum values _ = err billing_tariff_invalid

-- the regular expression of `_date`
abbrev date_codes : List ℕ → Bool
date_codes (a ∷ b ∷ c ∷ d ∷ h ∷ m ∷ n ∷ i ∷ x ∷ y ∷ []) =
    all is_digit (a ∷ b ∷ c ∷ d ∷ m ∷ n ∷ x ∷ y ∷ []) && ((h == b'-') && (i == b'-'))
date_codes _ = false

-- `_date`
unfoldable pub date : Library → Value → Result TariffError String
date library (str s) =
    if date_codes (codes s) && library.is_day s then ok s else err billing_tariff_invalid
date library _ = err billing_tariff_invalid

abbrev pub is_nothing : Value → Bool
is_nothing none_value = true
is_nothing _ = false

abbrev pub absent : String → Fields → Result TariffError (Unit {0})
absent key d = guard (is_nothing (get_or key none_value d)) billing_tariff_invalid

abbrev pub rate_at : String → Fields → Result TariffError String
rate_at key d = rate (get_or key none_value d)

-- the loop of `_rates` for each basis, in the order of the sorted keys
unfoldable pub inclusive_rates : Fields → Result TariffError Rates
inclusive_rates d = do
  absent "cached_input" d
  input ← rate_at "input" d
  output ← rate_at "output" d
  absent "uncached_input" d
  ok (input_output_inclusive input output)

unfoldable pub partition_rates : Fields → Result TariffError Rates
partition_rates d = do
  cached ← rate_at "cached_input" d
  absent "input" d
  output ← rate_at "output" d
  uncached ← rate_at "uncached_input" d
  ok (cache_partition_output_inclusive cached uncached output)

abbrev pub rates_for : String → Fields → Result TariffError Rates
rates_for basis d =
    if str_eq basis "input_output_inclusive" then inclusive_rates d else partition_rates d

-- `_rates`
unfoldable pub read_rates : String → Value → Result TariffError Rates
read_rates basis (dict d) = guard (keys_are rate_keys d) billing_tariff_invalid >> rates_for basis d
read_rates basis _ = err billing_tariff_invalid

abbrev pub is_int : ℕ → Value → Bool
is_int n (int m) = m == n
is_int n _ = false

abbrev pub bases : List String
bases = "input_output_inclusive" ∷ "cache_partition_output_inclusive" ∷ []

-- `_common`
unfoldable pub read_common : Library → Fields → Result TariffError Common
read_common library d = do
  guard (is_int 1 (get_or "version" none_value d)) billing_tariff_invalid
  currency ← enum currencies (get_or "currency" none_value d)
  source ← enum source_kinds (get_or "source_kind" none_value d)
  guard (is_int unit_tokens (get_or "unit_tokens" none_value d)) billing_tariff_invalid
  basis ← enum bases (get_or "billing_basis" none_value d)
  reasoning ← enum ("included_in_output" ∷ []) (get_or "reasoning_basis" none_value d)
  day ← date library (get_or "effective_date" none_value d)
  rates ← read_rates basis (get_or "rates" none_value d)
  ok (record { currency = currency; effective_date = day; source_kind = source; rates = rates })

abbrev pub config_keys : List String
config_keys =
    "version" ∷ "currency" ∷ "effective_date" ∷ "source_kind" ∷ "source_reference" ∷ "unit_tokens"
    ∷ "billing_basis" ∷ "reasoning_basis" ∷ "rates" ∷ []

-- the source reference: not blank, without control characters, at most 2048 bytes; it is stripped
unfoldable pub reference : Value → Result TariffError String
reference (str s) =
    if text_length (strip s) == 0 || (not (all (leb 32) (codes s)) || ltb 2048 (utf8_length s))
    then err billing_tariff_invalid
    else ok (strip s)
reference _ = err billing_tariff_invalid

-- `canonical_tariff`, with the source reference beside the common fields
unfoldable pub canonical_tariff : Library → Value → Result TariffError (Common × String)
canonical_tariff library (dict d) = do
  guard (keys_are config_keys d) billing_tariff_invalid
  common ← read_common library d
  source ← reference (get_or "source_reference" none_value d)
  ok (common, source)
canonical_tariff library _ = err billing_tariff_invalid

abbrev pub bounded_text : ℕ → ℕ → Value → Result TariffError String
bounded_text least most (str s) =
    if (leb least (text_length s) && leb (text_length s) most) && not (has_nul s)
    then ok s
    else err billing_tariff_invalid
bounded_text least most _ = err billing_tariff_invalid

-- `_binding`
unfoldable pub binding : Library → Value → Result TariffError String
binding library (dict d) = do
  provider ← enum ("openai" ∷ "mock" ∷ "explicit_override" ∷ []) (get_or "provider" none_value d)
  model ← bounded_text 1 400 (get_or "model" none_value d)
  url ← bounded_text 0 4096 (get_or "base_url" (str "") d)
  ok (library.binding_digest (record { provider = provider; model = model; base_url = url }))
binding library _ = err billing_tariff_invalid

-- `a > b` of texts: by code points, a prefix before what continues it
abbrev codes_after : List ℕ → List ℕ → Bool
codes_after [] ys = false
codes_after (x ∷ xs) [] = true
codes_after (x ∷ xs) (y ∷ ys) = ltb y x || ((x == y) && codes_after xs ys)

abbrev pub is_after : String → String → Bool
is_after a b = codes_after (codes a) (codes b)

abbrev pub receipt_of : Library → Frozen → Receipt
receipt_of library frozen = record { frozen = frozen; tariff_sha256 = library.frozen_digest frozen }

unfoldable pub freeze_canonical :
    Library → Value → String → Common × String → Result TariffError (Option Receipt)
freeze_canonical library profile frozen_date (common, source) =
    if is_after common.effective_date frozen_date
    then ok none
    else (binding library profile >>= λ b. ok (
        some (
          receipt_of library (record {
            common = common;
            frozen_date = frozen_date;
            source_sha256 = library.source_digest source;
            binding_sha256 = b;
          }))))

-- `freeze_tariff`
unfoldable pub freeze_tariff : Library → Value → Value → Value → Result TariffError (Option Receipt)
freeze_tariff library none_value profile day = date library day >>= λ d. ok none
freeze_tariff library value profile day = do
  frozen_date ← date library day
  canonical ← canonical_tariff library value
  freeze_canonical library profile frozen_date canonical

-- `_hash`
abbrev is_hex : ℕ → Bool
is_hex c = is_digit c || (leb b'a' c && leb c b'f')

abbrev pub is_hash : String → Bool
is_hash s = (length (codes s) == 64) && all is_hex (codes s)

unfoldable pub hash : Value → Result TariffError String
hash (str s) = if is_hash s then ok s else err billing_receipt_invalid
hash _ = err billing_receipt_invalid

abbrev is_false : Value → Bool
is_false (bool false) = true
is_false _ = false

abbrev receipt_keys : List String
receipt_keys =
    "version" ∷ "currency" ∷ "effective_date" ∷ "frozen_date" ∷ "source_kind" ∷ "source_sha256"
    ∷ "binding_sha256" ∷ "unit_tokens" ∷ "billing_basis" ∷ "reasoning_basis" ∷ "rates"
    ∷ "tariff_sha256" ∷ "source_verified" ∷ "billing_complete" ∷ "account_cap_guaranteed" ∷ []

abbrev is_text : String → Value → Bool
is_text s (str t) = str_eq t s
is_text s _ = false

-- `result["rates"] != value["rates"]`: a rate is written in its canonical spelling
abbrev pub same_rates : Rates → Value → Bool
same_rates (input_output_inclusive input output) (dict d) =
    is_text input (get_or "input" none_value d) && is_text output (get_or "output" none_value d)
same_rates (cache_partition_output_inclusive cached uncached output) (dict d) =
    is_text cached (get_or "cached_input" none_value d)
    && (is_text uncached (get_or "uncached_input" none_value d)
        && is_text output (get_or "output" none_value d))
same_rates _ _ = false

abbrev flags_false : Fields → Bool
flags_false d =
    is_false (get_or "source_verified" none_value d)
    && (is_false (get_or "billing_complete" none_value d)
        && is_false (get_or "account_cap_guaranteed" none_value d))

-- the optional comparison with the profile that a receipt was frozen for
unfoldable pub is_bound_to : Library → Option Value → String → Result TariffError (Unit {0})
is_bound_to library none b = ok tt
is_bound_to library (some profile) b =
    binding library profile >>= λ own. guard (str_eq own b) billing_receipt_invalid

-- the digest of the frame, and the binding
unfoldable pub checked : Library → Option Value → String → Frozen → Result TariffError Receipt
checked library profile digest frozen =
    guard (str_eq (library.frozen_digest frozen) digest) billing_receipt_invalid
    >> (is_bound_to library profile frozen.binding_sha256
        >> ok (record { frozen = frozen; tariff_sha256 = digest }))

unfoldable pub read_receipt : Library → Option Value → Fields → Result TariffError Receipt
read_receipt library profile d = do
  guard (keys_are receipt_keys d) billing_receipt_invalid
  common ← read_common library d
  frozen_date ← date library (get_or "frozen_date" none_value d)
  guard (not (is_after common.effective_date frozen_date)) billing_receipt_invalid
  guard (flags_false d) billing_receipt_invalid
  source ← hash (get_or "source_sha256" none_value d)
  bound ← hash (get_or "binding_sha256" none_value d)
  digest ← hash (get_or "tariff_sha256" none_value d)
  guard (same_rates common.rates (get_or "rates" none_value d)) billing_receipt_invalid
  checked library profile digest (record {
    common = common;
    frozen_date = frozen_date;
    source_sha256 = source;
    binding_sha256 = bound;
  })

abbrev as_receipt_error {ℓ} : {A : Type ℓ} → Result TariffError A → Result TariffError A
as_receipt_error (ok a) = ok a
as_receipt_error (err e) = err billing_receipt_invalid

-- `validate_price_receipt`: every refusal is the same error
unfoldable pub validate_price_receipt : Library → Value → Option Value → Result TariffError Receipt
validate_price_receipt library (dict d) profile = as_receipt_error (read_receipt library profile d)
validate_price_receipt library _ profile = err billing_receipt_invalid
