-- ===== src/Billing/Meter.antt =====
-- `TokenUsageMeter`: the guard that is charged after each response, and its projection. Each method
-- runs under the meter's lock.
use doppel_agent.Prelude.{
  ℕ, ◌+◌, ◌≤◌, ◌≡◌, Bool, true, false, not, ◌&&◌, ◌||◌, List, [], ◌∷◌, Option, none, some, arith,
  ltb, leb, ◌==◌, if◌then◌else◌, Result, ok, err,
}
use doppel_agent.Py.{Value}
use doppel_agent.Billing.Usage.{max_safe, parse_usage}

pub record Meter : Type 0 where
  pub guard : ℕ
  pub estimated : ℕ
  pub known : ℕ
  pub unknown : ℕ
  pub inputs : ℕ
  pub outputs : ℕ

abbrev pub new_meter : Meter
new_meter = record { guard = 0; estimated = 0; known = 0; unknown = 0; inputs = 0; outputs = 0 }

pub data MeterError : Type 0 where
  budget_invalid estimate_invalid : MeterError

-- `exhausted`
unfoldable pub exhausted : Option ℕ → Meter → Result MeterError Bool
exhausted none m = ok false
exhausted (some budget) m =
    if ltb max_safe budget || ltb budget 1 then err budget_invalid else ok (ltb budget m.guard)

pub data State : Type 0 where
  unknown_state partial_state known_state : State

-- `_project`: what is exported of a number beyond the safe integers is `none`.
pub record Projection : Type 0 where
  pub current : Option (ℕ × ℕ)
  pub guard_tokens : Option ℕ
  pub guard_overflow : Bool
  pub estimated_guard_tokens : Option ℕ
  pub estimated_guard_overflow : Bool
  pub state : State
  pub known_usage_turns : ℕ
  pub unknown_usage_turns : ℕ
  pub input_tokens : Option ℕ
  pub output_tokens : Option ℕ
  pub subtotal_overflow : Bool

abbrev exported : ℕ → Option ℕ
exported n = if leb n max_safe then some n else none

unfoldable pub project : Option (ℕ × ℕ) → Meter → Projection
project current m =
    let overflow = ltb max_safe (m.inputs + m.outputs) in
    let shown = not (m.known == 0) && not overflow in
    record {
      current = current;
      guard_tokens = exported m.guard;
      guard_overflow = ltb max_safe m.guard;
      estimated_guard_tokens = exported m.estimated;
      estimated_guard_overflow = ltb max_safe m.estimated;
      state =
          if m.known == 0
          then unknown_state
          else if not (m.unknown == 0) || overflow
          then partial_state
          else known_state;
      known_usage_turns = m.known;
      unknown_usage_turns = m.unknown;
      input_tokens = if shown then some m.inputs else none;
      output_tokens = if shown then some m.outputs else none;
      subtotal_overflow = overflow;
    }

-- the accounting of `record`, behind its checks
abbrev charge : Option (ℕ × ℕ) → ℕ → Meter → Meter
charge none estimate m = record m {
  guard = m.guard + estimate;
  estimated = m.estimated + estimate;
  unknown = m.unknown + 1;
}
charge (some (i, o)) estimate m = record m {
  guard = m.guard + (i + o);
  known = m.known + 1;
  inputs = m.inputs + i;
  outputs = m.outputs + o;
}

-- `record`: the estimate is asked for only where the counters are unknown, and must then be a
-- positive safe integer.
unfoldable pub record_usage : Value → ℕ → Meter → Result MeterError Projection × Meter
record_usage usage estimate m = elim (parse_usage usage) [
  | some pair ↦ let m' = charge (some pair) estimate m in (ok (project (some pair) m'), m')
  | none ↦
      let m' = charge none estimate m in
      if ltb max_safe estimate || ltb estimate 1
      then (err estimate_invalid, m)
      else (ok (project none m'), m')
]

-- The guard is what was estimated and what was reported, and nothing else.
pub record IsBalanced (m : Meter) : Type 0 where
  pub balance : m.guard ≡ m.estimated + (m.inputs + m.outputs)
  pub estimates : m.unknown ≤ m.estimated
  pub silent : m.known ≡ 0 → m.inputs + m.outputs ≡ 0

abbrev pub meter_after : List (Value × ℕ) → Meter → Meter
meter_after [] m = m
meter_after ((usage, estimate) ∷ rest) m = meter_after rest (record_usage usage estimate m).1

record_usage-IsBalanced :
    (usage : Value) (estimate : ℕ) (m : Meter)
    → IsBalanced m
    → IsBalanced (record_usage usage estimate m).1
unfolding record_usage
record_usage-IsBalanced usage estimate m h = ground arith

-- After any responses, the guard is the sum of the estimates and of the reported input and output
-- tokens, each response without counters has added at least one token to the estimates, and without
-- a response with counters nothing is reported.
pub meter_after-IsBalanced :
    (responses : List (Value × ℕ)) (m : Meter) → IsBalanced m → IsBalanced (meter_after responses m)
meter_after-IsBalanced [] m h = h
meter_after-IsBalanced ((usage, estimate) ∷ rest) m h =
    meter_after-IsBalanced rest (record_usage usage estimate m).1
      (record_usage-IsBalanced usage estimate m h)

meter_grows :
    (usage : Value) (estimate : ℕ) (m : Meter) → m.guard ≤ (record_usage usage estimate m).1.guard
unfolding record_usage
meter_grows usage estimate m = ground arith

-- A budget that is exhausted stays exhausted whatever responses follow.
pub exhausted-meter_after :
    (budget : Option ℕ) (responses : List (Value × ℕ)) (m : Meter)
    → exhausted budget m ≡ ok true
    → exhausted budget (meter_after responses m) ≡ ok true
unfolding exhausted
exhausted-meter_after budget [] m h = h
exhausted-meter_after budget ((usage, estimate) ∷ rest) m h =
    exhausted-meter_after budget rest (record_usage usage estimate m).1
      (exhausted_mono budget m (record_usage usage estimate m).1 (meter_grows usage estimate m) h)
  where
    exhausted_mono :
        (b : Option ℕ) (m n : Meter)
        → m.guard ≤ n.guard
        → exhausted b m ≡ ok true
        → exhausted b n ≡ ok true
    exhausted_mono none m n le h = absurd (ground (arith, h))
    exhausted_mono (some b) m n le h = ground (arith, le, h)
