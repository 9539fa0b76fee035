-- ===== src/Billing/Snapshot.antt =====
-- `canonical_usage_details`: a stored snapshot of the details is read again.
use doppel_agent.Prelude.{
  ℕ, ◌+◌, String, ◌≡◌, ◌∙◌, ap, refl, Bool, true, false, not, ◌&&◌, ◌||◌, List, Option, none, some,
  arith, leb, ◌==◌, if◌then◌else◌, str_eq,
}
use doppel_agent.Py.{Value, none_value, str, int, dict, Fields, end, field, get_field, get_or}
use doppel_agent.Billing.Details.{
  DetailState, known, partial, unknown, invalid, Details, empty_usage_details, within,
  detail_counter, set_cache, set_reason, both_sum, summarise, detail_counter-le, cache_state_of,
  reason_state_of, usage_details,
}

abbrev state_named : String → Option DetailState
state_named s =
    if str_eq s "known"
    then some known
    else if str_eq s "partial"
    then some partial
    else if str_eq s "unknown"
    then some unknown
    else if str_eq s "invalid"
    then some invalid
    else none

abbrev read_state : Value → Option DetailState
read_state (str s) = state_named s
read_state _ = none

-- An optional counter: `some` of `none` for `None`, and none where the value is no counter.
abbrev read_counter : ℕ → Value → Option (Option ℕ)
read_counter base none_value = some none
read_counter base v = elim (within base v) [ none ↦ none | some n ↦ some (some n) ]

abbrev is_none_value : Value → Bool
is_none_value none_value = true
is_none_value _ = false

-- `valid_cache`, with the counters that are then kept
unfoldable pub read_cache : DetailState → Value → Value → ℕ → Option (Option ℕ × Option ℕ)
read_cache known hit miss inputs = elim (read_counter inputs hit) [
  | some (some h) ↦ elim (read_counter inputs miss) [
    | some (some m) ↦ if (h + m) == inputs then some (some h, some m) else none
    | _ ↦ none
  ]
  | _ ↦ none
]
read_cache partial hit miss inputs = elim (read_counter inputs hit) [
  | none ↦ none
  | some (some h) ↦ elim (read_counter inputs miss) [ some none ↦ some (some h, none) | _ ↦ none ]
  | some none ↦ elim (read_counter inputs miss) [ some (some m) ↦ some (none, some m) | _ ↦ none ]
]
read_cache _ hit miss inputs =
    if is_none_value hit && is_none_value miss then some (none, none) else none

-- `valid_reason`, with the counter that is then kept
unfoldable pub read_reason : DetailState → Value → ℕ → Option (Option ℕ)
read_reason known v outputs = elim (within outputs v) [ none ↦ none | some n ↦ some (some n) ]
read_reason partial v outputs = none
read_reason _ v outputs = if is_none_value v then some none else none

abbrev with_cache : DetailState → Option (Option ℕ × Option ℕ) → Details → Details
with_cache state none d = set_cache false none none state d
with_cache state (some (hit, miss)) d = set_cache true hit miss state d

abbrev with_reason : DetailState → Option (Option ℕ) → Details → Details
with_reason state none d = set_reason false none state d
with_reason state (some reason) d = set_reason true reason state d

abbrev cache_read : Option DetailState → Value → Value → ℕ → Details → Details
cache_read none hit miss inputs d = set_cache false none none unknown d
cache_read (some state) hit miss inputs d = with_cache state (read_cache state hit miss inputs) d

abbrev reason_read : Option DetailState → Value → ℕ → Details → Details
reason_read none v outputs d = set_reason false none unknown d
reason_read (some state) v outputs d = with_reason state (read_reason state v outputs) d

unfoldable pub read_details : Fields → ℕ → ℕ → Details
read_details d inputs outputs =
    reason_read (read_state (get_or "reasoning_state" none_value d))
      (get_or "reasoning_output_tokens" none_value d) outputs
      (cache_read (read_state (get_or "cache_state" none_value d))
        (get_or "cached_input_tokens" none_value d) (get_or "uncached_input_tokens" none_value d)
        inputs empty_usage_details)

abbrev unreadable : Details
unreadable = record empty_usage_details { cache_state = invalid; reasoning_state = invalid }

abbrev is_version : Option Value → Bool
is_version (some (int n)) = n == 1
is_version _ = false

unfoldable pub canonical_usage_details : Value → Option (ℕ × ℕ) → Details
canonical_usage_details value none = empty_usage_details
canonical_usage_details (dict d) (some (inputs, outputs)) =
    if is_version (get_field "version" d) then read_details d inputs outputs else unreadable
canonical_usage_details _ (some pair) = unreadable

-- how the details are stored: the dictionary of `empty_usage_details`, brought up to date
abbrev pub state_name : DetailState → String
state_name known = "known"
state_name partial = "partial"
state_name unknown = "unknown"
state_name invalid = "invalid"

abbrev stored_counter : Option ℕ → Value
stored_counter none = none_value
stored_counter (some n) = int n

unfoldable pub stored : Details → Value
stored d = dict (
    field "version" (int 1) (
      field "cached_input_tokens" (stored_counter d.cached_input_tokens) (
        field "uncached_input_tokens" (stored_counter d.uncached_input_tokens) (
          field "reasoning_output_tokens" (stored_counter d.reasoning_output_tokens) (
            field "cache_state" (str (state_name d.cache_state))
              (field "reasoning_state" (str (state_name d.reasoning_state)) end))))))

state_named-name : (s : DetailState) → state_named (state_name s) ≡ some s
state_named-name known = refl
state_named-name partial = refl
state_named-name unknown = refl
state_named-name invalid = refl

stored-read :
    (d : Details) (inputs outputs : ℕ)
    → canonical_usage_details (stored d) (some (inputs, outputs))
      ≡ reason_read (some d.reasoning_state) (stored_counter d.reasoning_output_tokens) outputs (
          cache_read
            (some d.cache_state)
            (stored_counter d.cached_input_tokens)
            (stored_counter d.uncached_input_tokens)
            inputs
            empty_usage_details)
unfolding canonical_usage_details stored read_details
stored-read d inputs outputs =
    rw (state_named-name d.cache_state, state_named-name d.reasoning_state) refl

AtMost : ℕ → Option ℕ → Type 0
AtMost base o = (n : ℕ) → o ≡ some n → leb n base ≡ true

cache-back :
    (good : Bool) (hit miss : Option ℕ) (inputs : ℕ)
    → AtMost inputs hit
    → AtMost inputs miss
    → (good ≡ true → both_sum hit miss inputs ≡ true)
    → cache_read
        (some (set_cache good hit miss (cache_state_of hit miss) empty_usage_details).cache_state)
        (stored_counter
          (set_cache good hit miss
            (cache_state_of hit miss)
            empty_usage_details).cached_input_tokens)
        (stored_counter
          (set_cache good hit miss
            (cache_state_of hit miss)
            empty_usage_details).uncached_input_tokens)
        inputs
        empty_usage_details
      ≡ set_cache good hit miss (cache_state_of hit miss) empty_usage_details
unfolding read_cache AtMost
cache-back false hit miss inputs h m s = refl
cache-back true none none inputs h m s = refl
cache-back true (some a) none inputs h m s = ground (arith, h a refl)
cache-back true none (some b) inputs h m s = ground (arith, m b refl)
cache-back true (some a) (some b) inputs h m s = ground (arith, h a refl, m b refl, s refl)

reason-back :
    (good : Bool) (reason : Option ℕ) (outputs : ℕ) (d : Details)
    → d.reasoning_state ≡ unknown
    → d.reasoning_output_tokens ≡ none
    → AtMost outputs reason
    → reason_read
        (some (set_reason good reason (reason_state_of reason) d).reasoning_state)
        (stored_counter (set_reason good reason (reason_state_of reason) d).reasoning_output_tokens)
        outputs
        d
      ≡ set_reason good reason (reason_state_of reason) d
unfolding read_reason AtMost
reason-back false reason outputs d e f h = rw f refl
reason-back true none outputs d e f h = refl
reason-back true (some n) outputs d e f h = ground (arith, h n refl)

detail_counter-AtMost : (vs : List Value) (base : ℕ) → AtMost base (detail_counter vs base).0
unfolding AtMost
detail_counter-AtMost vs base n h = ground (arith, detail_counter-le vs base n h)

set_cache-reason :
    (good : Bool) (hit miss : Option ℕ) (state : DetailState)
    → ((set_cache good hit miss state empty_usage_details).reasoning_state ≡ unknown)
      × ((set_cache good hit miss state empty_usage_details).reasoning_output_tokens ≡ none)
set_cache-reason true hit miss state = (refl, refl)
set_cache-reason false hit miss state = (refl, refl)

gathered-back :
    (good sound : Bool) (hit miss reason : Option ℕ) (inputs outputs : ℕ) (cached : Details)
    → cached ≡ set_cache good hit miss (cache_state_of hit miss) empty_usage_details
    → AtMost inputs hit
    → AtMost inputs miss
    → AtMost outputs reason
    → (good ≡ true → both_sum hit miss inputs ≡ true)
    → canonical_usage_details
        (stored (set_reason sound reason (reason_state_of reason) cached))
        (some (inputs, outputs))
      ≡ set_reason sound reason (reason_state_of reason) cached
gathered-back good sound hit miss reason inputs outputs cached e h m r s = by_sound sound
  where
    back :
        cache_read
          (some cached.cache_state)
          (stored_counter cached.cached_input_tokens)
          (stored_counter cached.uncached_input_tokens)
          inputs
          empty_usage_details
        ≡ cached
    back = rw e (cache-back good hit miss inputs h m s)

    by_sound :
        (b : Bool)
        → canonical_usage_details
            (stored (set_reason b reason (reason_state_of reason) cached))
            (some (inputs, outputs))
          ≡ set_reason b reason (reason_state_of reason) cached
    by_sound true =
        stored-read (set_reason true reason (reason_state_of reason) cached) inputs outputs
        ∙ ap (reason_read (some (reason_state_of reason)) (stored_counter reason) outputs) back
        ∙ reason-back true reason outputs cached
            (rw e (set_cache-reason good hit miss (cache_state_of hit miss)).0)
            (rw e (set_cache-reason good hit miss (cache_state_of hit miss)).1) r
    by_sound false =
        stored-read (set_reason false reason (reason_state_of reason) cached) inputs outputs
        ∙ ap (reason_read (some invalid) (stored_counter cached.reasoning_output_tokens) outputs)
            back
        ∙ reason-back false reason outputs cached
            (rw e (set_cache-reason good hit miss (cache_state_of hit miss)).0)
            (rw e (set_cache-reason good hit miss (cache_state_of hit miss)).1) r

good-sum : (a b c d : Bool) → not (a || b || c || not d) ≡ true → d ≡ true
good-sum a b c d h = ground (arith, h)

summarise-back :
    (hits misses reasons : List Value) (bad_cache bad_reasoning : Bool) (inputs outputs : ℕ)
    → canonical_usage_details
        (stored (summarise hits misses reasons bad_cache bad_reasoning inputs outputs))
        (some (inputs, outputs))
      ≡ summarise hits misses reasons bad_cache bad_reasoning inputs outputs
unfolding summarise
summarise-back hits misses reasons bad_cache bad_reasoning inputs outputs =
    let hit = detail_counter hits inputs in
    let miss = detail_counter misses inputs in
    gathered-back (not (bad_cache || hit.1 || miss.1 || not (both_sum hit.0 miss.0 inputs)))
      (not (bad_reasoning || (detail_counter reasons outputs).1)) hit.0 miss.0
      (detail_counter reasons outputs).0 inputs outputs _ refl (detail_counter-AtMost hits inputs)
      (detail_counter-AtMost misses inputs) (detail_counter-AtMost reasons outputs)
      (good-sum bad_cache hit.1 miss.1 (both_sum hit.0 miss.0 inputs))

-- The details that are kept of a response, stored and read again beside the same base counters, are
-- what they were.
pub usage_details-stored :
    (raw : Fields) (inputs outputs : ℕ)
    → canonical_usage_details
        (stored (usage_details raw (inputs, outputs)))
        (some (inputs, outputs))
      ≡ usage_details raw (inputs, outputs)
unfolding usage_details
usage_details-stored raw inputs outputs = summarise-back _ _ _ _ _ inputs outputs
