-- ===== src/Billing/Details.antt =====
-- provider_observation.py: the details of the token counters, from a response (`_usage_details`) and
-- from a stored snapshot (`canonical_usage_details`).
use doppel_agent.Prelude.{
  ℕ, ◌+◌, ◌≤◌, String, ◌≡◌, Bool, true, false, not, ◌&&◌, ◌||◌, List, [], ◌∷◌, ◌++◌, Option, none,
  some, arith, leb, ◌==◌, if◌then◌else◌, is_some,
}
use doppel_agent.Py.{
  Value, none_value, bool, str, int, negative, dict, list, tuple, opaque, Fields, get_field,
}

pub data DetailState : Type 0 where
  known partial unknown invalid : DetailState

pub record Details : Type 0 where
  pub cached_input_tokens : Option ℕ
  pub uncached_input_tokens : Option ℕ
  pub reasoning_output_tokens : Option ℕ
  pub cache_state : DetailState
  pub reasoning_state : DetailState

-- `empty_usage_details`
abbrev pub empty_usage_details : Details
empty_usage_details = record {
  cached_input_tokens = none;
  uncached_input_tokens = none;
  reasoning_output_tokens = none;
  cache_state = unknown;
  reasoning_state = unknown;
}

-- an integer from 0 to `base`
abbrev pub within : ℕ → Value → Option ℕ
within base (int n) = if leb n base then some n else none
within base _ = none

abbrev pub all_within : ℕ → ℕ → List Value → Bool
all_within base n [] = true
all_within base n (v ∷ vs) =
    let rest = all_within base n vs in
    elim (within base v) [ none ↦ false | some m ↦ (m == n) && rest ]

-- `_detail_counter`: the counter, and whether the values are invalid
abbrev pub detail_counter : List Value → ℕ → Option ℕ × Bool
detail_counter [] base = (none, false)
detail_counter (v ∷ vs) base = elim (within base v) [
  | none ↦ (none, true)
  | some n ↦ if all_within base n vs then (some n, false) else (none, true)
]

-- `[raw[name]] if name in raw else []`
abbrev pub given : String → Fields → List Value
given name raw = elim (get_field name raw) [ none ↦ [] | some v ↦ v ∷ [] ]

-- the value of `inner` in the dictionary under `name`, and whether that is no dictionary
abbrev pub nested : String → String → Fields → List Value × Bool
nested name inner raw = elim (get_field name raw) [
  | none ↦ ([], false)
  | some (dict d) ↦ (given inner d, false)
  | some _ ↦ ([], true)
]

abbrev pub both_sum : Option ℕ → Option ℕ → ℕ → Bool
both_sum (some hit) (some miss) total = (hit + miss) == total
both_sum _ _ total = true

abbrev pub cache_state_of : Option ℕ → Option ℕ → DetailState
cache_state_of (some hit) (some miss) = known
cache_state_of none none = unknown
cache_state_of _ _ = partial

abbrev pub reason_state_of : Option ℕ → DetailState
reason_state_of (some n) = known
reason_state_of none = unknown

abbrev pub set_cache : Bool → Option ℕ → Option ℕ → DetailState → Details → Details
set_cache good hit miss state d =
    if good
    then record d { cached_input_tokens = hit; uncached_input_tokens = miss; cache_state = state }
    else record d { cache_state = invalid }

abbrev pub set_reason : Bool → Option ℕ → DetailState → Details → Details
set_reason good reason state d =
    if good
    then record d { reasoning_output_tokens = reason; reasoning_state = state }
    else record d { reasoning_state = invalid }

-- what is made of the gathered values
unfoldable pub summarise : List Value → List Value → List Value → Bool → Bool → ℕ → ℕ → Details
summarise hits misses reasons bad_cache bad_reasoning inputs outputs =
    let hit = detail_counter hits inputs in
    let miss = detail_counter misses inputs in
    let reason = detail_counter reasons outputs in
    set_reason (not (bad_reasoning || reason.1)) reason.0 (reason_state_of reason.0) (
      set_cache (not (bad_cache || hit.1 || miss.1 || not (both_sum hit.0 miss.0 inputs))) hit.0
        miss.0 (cache_state_of hit.0 miss.0) empty_usage_details)

-- `_usage_details`
unfoldable pub usage_details : Fields → ℕ × ℕ → Details
usage_details raw (inputs, outputs) =
    let a = nested "input_tokens_details" "cached_tokens" raw in
    let b = nested "prompt_tokens_details" "cached_tokens" raw in
    let c = nested "output_tokens_details" "reasoning_tokens" raw in
    let d = nested "completion_tokens_details" "reasoning_tokens" raw in
    summarise (given "prompt_cache_hit_tokens" raw ++ (a.0 ++ b.0))
      (given "prompt_cache_miss_tokens" raw) (c.0 ++ d.0) (a.1 || b.1) (c.1 || d.1) inputs outputs

-- What details say that are fit to be stored beside the base counters.
pub record IsConsistent (inputs outputs : ℕ) (d : Details) : Type 0 where
  pub complete :
      d.cache_state ≡ known
      → (is_some d.cached_input_tokens ≡ true) × (is_some d.uncached_input_tokens ≡ true)
  pub sums :
      (hit miss : ℕ)
      → d.cached_input_tokens ≡ some hit
      → d.uncached_input_tokens ≡ some miss
      → hit + miss ≡ inputs
  pub reasons : (n : ℕ) → d.reasoning_output_tokens ≡ some n → n ≤ outputs
  pub unfit :
      d.cache_state ≡ invalid → (d.cached_input_tokens ≡ none) × (d.uncached_input_tokens ≡ none)

pub detail_counter-le :
    (vs : List Value) (base n : ℕ) → (detail_counter vs base).0 ≡ some n → n ≤ base
detail_counter-le [] base n h = absurd (ground arith)
detail_counter-le (int m ∷ vs) base n h = ground (arith, h)
detail_counter-le (none_value ∷ vs) base n h = absurd (ground (arith, h))
detail_counter-le (bool b ∷ vs) base n h = absurd (ground (arith, h))
detail_counter-le (str s ∷ vs) base n h = absurd (ground (arith, h))
detail_counter-le (negative m ∷ vs) base n h = absurd (ground (arith, h))
detail_counter-le (dict d ∷ vs) base n h = absurd (ground (arith, h))
detail_counter-le (list d ∷ vs) base n h = absurd (ground (arith, h))
detail_counter-le (tuple d ∷ vs) base n h = absurd (ground (arith, h))
detail_counter-le (opaque m ∷ vs) base n h = absurd (ground (arith, h))

gathered-IsConsistent :
    (hit miss reason : Option ℕ × Bool) (bad_cache bad_reasoning : Bool) (inputs outputs : ℕ)
    → ((n : ℕ) → reason.0 ≡ some n → n ≤ outputs)
    → IsConsistent inputs outputs (
        set_reason (not (bad_reasoning || reason.1)) reason.0 (reason_state_of reason.0) (
          set_cache
            (not (bad_cache || hit.1 || miss.1 || not (both_sum hit.0 miss.0 inputs)))
            hit.0
            miss.0
            (cache_state_of hit.0 miss.0)
            empty_usage_details))
gathered-IsConsistent (hit, a) (miss, b) (reason, c) bad_cache bad_reasoning inputs outputs h =
    record {
      complete = λ k. ground (arith, k);
      sums = λ x y k l. ground (arith, k, l);
      reasons = λ n k. ground (arith, k, h n);
      unfit = λ k. ground (arith, k);
    }

summarise-IsConsistent :
    (hits misses reasons : List Value) (bad_cache bad_reasoning : Bool) (inputs outputs : ℕ)
    → IsConsistent inputs outputs
        (summarise hits misses reasons bad_cache bad_reasoning inputs outputs)
unfolding summarise
summarise-IsConsistent hits misses reasons bad_cache bad_reasoning inputs outputs =
    gathered-IsConsistent (detail_counter hits inputs) (detail_counter misses inputs)
      (detail_counter reasons outputs) bad_cache bad_reasoning inputs outputs
      (λ n h. detail_counter-le reasons outputs n h)

-- Whatever a response holds, the details that are kept of it agree with its base counters: known
-- cache counters are both there and add up to the input, an invalid cache keeps neither, and the
-- reasoning tokens are within the output.
pub usage_details-IsConsistent :
    (raw : Fields) (inputs outputs : ℕ)
    → IsConsistent inputs outputs (usage_details raw (inputs, outputs))
unfolding usage_details
usage_details-IsConsistent raw inputs outputs = summarise-IsConsistent _ _ _ _ _ inputs outputs
