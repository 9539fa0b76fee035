-- ===== src/Billing/Receipts.antt =====
-- The dictionary of a receipt, and how its parts are read back from it.
use doppel_agent.Prelude.{
  String, ◌≡◌, refl, true, false, List, [], ◌∷◌, some, arith, str_eq, eq_iff, mem, ok, >>=-eq-ok,
  guard-eq-ok, Bool-cases, inl, inr, ◌⊎◌,
}
use mathlib.Core.Path.{subst}
use doppel_agent.Py.{
  Value, none_value, bool, str, int, negative, dict, list, tuple, opaque, Fields, end, field,
  get_or, keys_are,
}
use doppel_agent.Billing.Rates.{billing_tariff_invalid, rate}
use doppel_agent.Billing.Spelling.{rate-coefficient}
use doppel_agent.Billing.Amounts.{unit_tokens}
use doppel_agent.Billing.Estimates.{Rates, input_output_inclusive, cache_partition_output_inclusive}
use doppel_agent.Billing.Tariff.{
  Common, Receipt, Library, currencies, source_kinds, bases, enum, date, rate_keys, rate_at, absent,
  rates_for, inclusive_rates, partition_rates, read_rates, is_int, read_common, binding, is_after,
  is_hash, hash, same_rates, is_bound_to, checked, read_receipt,
}

-- The dictionary that `freeze_tariff` returns.
abbrev basis_of : Rates → String
basis_of (input_output_inclusive input output) = "input_output_inclusive"
basis_of (cache_partition_output_inclusive cached uncached output) =
    "cache_partition_output_inclusive"

abbrev rates_value : Rates → Value
rates_value (input_output_inclusive input output) = dict (
    field "cached_input" none_value (
      field "input" (str input)
        (field "output" (str output) (field "uncached_input" none_value end))))
rates_value (cache_partition_output_inclusive cached uncached output) = dict (
    field "cached_input" (str cached) (
      field "input" none_value
        (field "output" (str output) (field "uncached_input" (str uncached) end))))

abbrev receipt_fields : Receipt → Fields
receipt_fields r = field "version" (int 1) (
    field "currency" (str r.frozen.common.currency) (
      field "effective_date" (str r.frozen.common.effective_date) (
        field "source_kind" (str r.frozen.common.source_kind) (
          field "unit_tokens" (int unit_tokens) (
            field "billing_basis" (str (basis_of r.frozen.common.rates)) (
              field "reasoning_basis" (str "included_in_output") (
                field "rates" (rates_value r.frozen.common.rates) (
                  field "frozen_date" (str r.frozen.frozen_date) (
                    field "source_sha256" (str r.frozen.source_sha256) (
                      field "binding_sha256" (str r.frozen.binding_sha256) (
                        field "source_verified" (bool false) (
                          field "billing_complete" (bool false) (
                            field "account_cap_guaranteed" (bool false)
                              (field "tariff_sha256" (str r.tariff_sha256) end))))))))))))))

unfoldable pub receipt_value : Receipt → Value
receipt_value r = dict (receipt_fields r)

enum-again :
    (values : List String) (v : Value) (s : String)
    → enum values v ≡ ok s
    → enum values (str s) ≡ ok s
unfolding enum
enum-again values (str t) s h = ground (arith, h)
enum-again values none_value s h = absurd (ground (arith, h))
enum-again values (bool b) s h = absurd (ground (arith, h))
enum-again values (int n) s h = absurd (ground (arith, h))
enum-again values (negative n) s h = absurd (ground (arith, h))
enum-again values (dict d) s h = absurd (ground (arith, h))
enum-again values (list xs) s h = absurd (ground (arith, h))
enum-again values (tuple xs) s h = absurd (ground (arith, h))
enum-again values (opaque n) s h = absurd (ground (arith, h))

pub date-again :
    (library : Library) (v : Value) (s : String)
    → date library v ≡ ok s
    → date library (str s) ≡ ok s
unfolding date
date-again library (str t) s h = ground (arith, h)
date-again library none_value s h = absurd (ground (arith, h))
date-again library (bool b) s h = absurd (ground (arith, h))
date-again library (int n) s h = absurd (ground (arith, h))
date-again library (negative n) s h = absurd (ground (arith, h))
date-again library (dict d) s h = absurd (ground (arith, h))
date-again library (list xs) s h = absurd (ground (arith, h))
date-again library (tuple xs) s h = absurd (ground (arith, h))
date-again library (opaque n) s h = absurd (ground (arith, h))

rate-again : (v : Value) (s : String) → rate v ≡ ok s → rate (str s) ≡ ok s
unfolding rate
rate-again (str t) s h = (rate-coefficient t s h).1
rate-again none_value s h = absurd (ground (arith, h))
rate-again (bool b) s h = absurd (ground (arith, h))
rate-again (int n) s h = absurd (ground (arith, h))
rate-again (negative n) s h = absurd (ground (arith, h))
rate-again (dict d) s h = absurd (ground (arith, h))
rate-again (list xs) s h = absurd (ground (arith, h))
rate-again (tuple xs) s h = absurd (ground (arith, h))
rate-again (opaque n) s h = absurd (ground (arith, h))

-- Rates that are read back from the dictionary they are kept in.
unfoldable pub AreKept : Rates → Type 0
AreKept (input_output_inclusive input output) =
    (rate (str input) ≡ ok input) × (rate (str output) ≡ ok output)
AreKept (cache_partition_output_inclusive cached uncached output) =
    (rate (str cached) ≡ ok cached)
    × (rate (str uncached) ≡ ok uncached)
    × (rate (str output) ≡ ok output)

inclusive_rates-AreKept : (d : Fields) (r : Rates) → inclusive_rates d ≡ ok r → AreKept r
unfolding inclusive_rates AreKept
inclusive_rates-AreKept d r h =
    let first = >>=-eq-ok (absent "cached_input" d) _ h in
    let second = >>=-eq-ok (rate_at "input" d) _ first.2 in
    let third = >>=-eq-ok (rate_at "output" d) _ second.2 in
    let fourth = >>=-eq-ok (absent "uncached_input" d) _ third.2 in
    let made : input_output_inclusive second.0 third.0 ≡ r = ground (arith, fourth.2) in
    subst AreKept made (
      rate-again (get_or "input" none_value d) second.0 second.1,
      rate-again (get_or "output" none_value d) third.0 third.1,
    )

partition_rates-AreKept : (d : Fields) (r : Rates) → partition_rates d ≡ ok r → AreKept r
unfolding partition_rates AreKept
partition_rates-AreKept d r h =
    let first = >>=-eq-ok (rate_at "cached_input" d) _ h in
    let second = >>=-eq-ok (absent "input" d) _ first.2 in
    let third = >>=-eq-ok (rate_at "output" d) _ second.2 in
    let fourth = >>=-eq-ok (rate_at "uncached_input" d) _ third.2 in
    let made : cache_partition_output_inclusive first.0 fourth.0 third.0 ≡ r =
      ground (arith, fourth.2) in
    subst AreKept made (
      rate-again (get_or "cached_input" none_value d) first.0 first.1,
      rate-again (get_or "uncached_input" none_value d) fourth.0 fourth.1,
      rate-again (get_or "output" none_value d) third.0 third.1,
    )

read_rates-AreKept :
    (basis : String) (v : Value) (r : Rates) → read_rates basis v ≡ ok r → AreKept r
unfolding read_rates
read_rates-AreKept basis (dict d) r h =
    by_basis (Bool-cases (str_eq basis "input_output_inclusive"))
  where
    read : rates_for basis d ≡ ok r
    read = (guard-eq-ok (keys_are rate_keys d) billing_tariff_invalid _ h).1

    by_basis :
        (str_eq basis "input_output_inclusive" ≡ true)
          ⊎ (str_eq basis "input_output_inclusive" ≡ false)
        → AreKept r
    by_basis (inl b) = inclusive_rates-AreKept d r (ground (arith, b, read))
    by_basis (inr b) = partition_rates-AreKept d r (ground (arith, b, read))
read_rates-AreKept basis none_value r h = absurd (ground (arith, h))
read_rates-AreKept basis (bool b) r h = absurd (ground (arith, h))
read_rates-AreKept basis (str s) r h = absurd (ground (arith, h))
read_rates-AreKept basis (int n) r h = absurd (ground (arith, h))
read_rates-AreKept basis (negative n) r h = absurd (ground (arith, h))
read_rates-AreKept basis (list xs) r h = absurd (ground (arith, h))
read_rates-AreKept basis (tuple xs) r h = absurd (ground (arith, h))
read_rates-AreKept basis (opaque n) r h = absurd (ground (arith, h))

-- Common fields that are read back from the dictionary they are kept in.
pub record IsCommon (library : Library) (c : Common) : Type 0 where
  pub currency : enum currencies (str c.currency) ≡ ok c.currency
  pub source : enum source_kinds (str c.source_kind) ≡ ok c.source_kind
  pub day : date library (str c.effective_date) ≡ ok c.effective_date
  pub rates : AreKept c.rates

pub read_common-IsCommon :
    (library : Library) (d : Fields) (c : Common)
    → read_common library d ≡ ok c
    → IsCommon library c
unfolding read_common
read_common-IsCommon library d c h =
    let h1 = guard-eq-ok (is_int 1 (get_or "version" none_value d)) billing_tariff_invalid _ h in
    let h2 = >>=-eq-ok (enum currencies (get_or "currency" none_value d)) _ h1.1 in
    let h3 = >>=-eq-ok (enum source_kinds (get_or "source_kind" none_value d)) _ h2.2 in
    let h4 =
      guard-eq-ok (is_int unit_tokens (get_or "unit_tokens" none_value d)) billing_tariff_invalid _
        h3.2 in
    let h5 = >>=-eq-ok (enum bases (get_or "billing_basis" none_value d)) _ h4.1 in
    let h6 =
      >>=-eq-ok (enum ("included_in_output" ∷ []) (get_or "reasoning_basis" none_value d)) _ h5.2 in
    let h7 = >>=-eq-ok (date library (get_or "effective_date" none_value d)) _ h6.2 in
    let h8 = >>=-eq-ok (read_rates h5.0 (get_or "rates" none_value d)) _ h7.2 in
    let made : record { currency = h2.0; effective_date = h7.0; source_kind = h3.0; rates = h8.0 }
        ≡ c =
      ground (arith, h8.2) in
    subst (IsCommon library) made (record {
      currency = enum-again currencies (get_or "currency" none_value d) h2.0 h2.1;
      source = enum-again source_kinds (get_or "source_kind" none_value d) h3.0 h3.1;
      day = date-again library (get_or "effective_date" none_value d) h7.0 h7.1;
      rates = read_rates-AreKept h5.0 (get_or "rates" none_value d) h8.0 h8.1;
    })

read_rates-back : (r : Rates) → AreKept r → read_rates (basis_of r) (rates_value r) ≡ ok r
unfolding read_rates AreKept inclusive_rates partition_rates mem
read_rates-back (input_output_inclusive input output) (a, b) = rw (a, b) refl
read_rates-back (cache_partition_output_inclusive cached uncached output) (a, b, c) =
    rw (a, c, b) refl

basis_of-enum : (r : Rates) → enum bases (str (basis_of r)) ≡ ok (basis_of r)
unfolding enum mem
basis_of-enum (input_output_inclusive input output) = refl
basis_of-enum (cache_partition_output_inclusive cached uncached output) = refl

included : enum ("included_in_output" ∷ []) (str "included_in_output") ≡ ok "included_in_output"
unfolding enum mem
included = refl

read_common-back :
    (library : Library) (r : Receipt)
    → IsCommon library r.frozen.common
    → read_common library (receipt_fields r) ≡ ok r.frozen.common
unfolding read_common
read_common-back library r c =
    rw
      (
        c.currency,
        c.source,
        basis_of-enum r.frozen.common.rates,
        included,
        c.day,
        read_rates-back r.frozen.common.rates c.rates,
      )
      refl

hash-back : (s : String) → is_hash s ≡ true → hash (str s) ≡ ok s
unfolding hash
hash-back s h = ground (arith, h)

same_rates-back : (r : Rates) → same_rates r (rates_value r) ≡ true
same_rates-back (input_output_inclusive input output) =
    ground (arith, eq_iff input input, eq_iff output output)
same_rates-back (cache_partition_output_inclusive cached uncached output) =
    ground (arith, eq_iff cached cached, eq_iff uncached uncached, eq_iff output output)

str_eq_same : (s : String) → str_eq s s ≡ true
str_eq_same s = ground (arith, eq_iff s s)

-- A receipt whose parts are read back from its dictionary.
pub record IsReceipt (library : Library) (profile : Value) (r : Receipt) : Type 0 where
  pub common : IsCommon library r.frozen.common
  pub day : date library (str r.frozen.frozen_date) ≡ ok r.frozen.frozen_date
  pub effective : is_after r.frozen.common.effective_date r.frozen.frozen_date ≡ false
  pub source : is_hash r.frozen.source_sha256 ≡ true
  pub bound : is_hash r.frozen.binding_sha256 ≡ true
  pub hashed : is_hash r.tariff_sha256 ≡ true
  pub digest : library.frozen_digest r.frozen ≡ r.tariff_sha256
  pub owner : binding library profile ≡ ok r.frozen.binding_sha256

pub read_receipt-back :
    (library : Library) (profile : Value) (r : Receipt)
    → IsReceipt library profile r
    → read_receipt library (some profile) (receipt_fields r) ≡ ok r
unfolding read_receipt checked is_bound_to mem
read_receipt-back library profile r i =
    rw
      (
        read_common-back library r i.common,
        i.day,
        i.effective,
        hash-back r.frozen.source_sha256 i.source,
        hash-back r.frozen.binding_sha256 i.bound,
        hash-back r.tariff_sha256 i.hashed,
        same_rates-back r.frozen.common.rates,
        i.digest,
        str_eq_same r.tariff_sha256,
        i.owner,
        str_eq_same r.frozen.binding_sha256,
      )
      refl
