-- ===== src/Billing/Usage.antt =====
-- `parse_usage`: the token counters that a provider reports.
use doppel_agent.Prelude.{
  ℕ, suc, ◌+◌, ◌≤◌, String, ◌≡◌, refl, Bool, true, false, not, ◌&&◌, ◌||◌, List, [], ◌∷◌, Option,
  none, some, arith, ltb, leb, ◌==◌, if◌then◌else◌, length, All,
}
use doppel_agent.Py.{Value, int, dict, Fields, get_field}

-- `MAX_SAFE`, 2 ** 53 - 1
abbrev pub max_safe : ℕ
max_safe = 9007199254740991

-- `_integer`, with the number that it accepts
abbrev pub integer : Value → Option ℕ
integer (int n) = if leb n max_safe then some n else none
integer _ = none

-- The values of the aliases that the dictionary has.
abbrev pub present_values : List String → Fields → List Value
present_values [] d = []
present_values (k ∷ ks) d =
    let rest = present_values ks d in elim (get_field k d) [ none ↦ rest | some v ↦ v ∷ rest ]

-- Every value is the integer `n`.
abbrev pub all_are : ℕ → List Value → Bool
all_are n [] = true
all_are n (v ∷ vs) =
    let rest = all_are n vs in elim (integer v) [ none ↦ false | some m ↦ (m == n) && rest ]

-- One counter group: at least one alias, each an integer, all the same.
unfoldable pub counter : List Value → Option ℕ
counter [] = none
counter (v ∷ vs) = elim (integer v) [ none ↦ none | some n ↦ if all_are n vs then some n else none ]

abbrev pub total_agrees : Option Value → ℕ → Bool
total_agrees none total = true
total_agrees (some v) total = elim (integer v) [ none ↦ false | some n ↦ n == total ]

abbrev pub input_aliases : List String
input_aliases = "input_tokens" ∷ "prompt_tokens" ∷ []

abbrev pub output_aliases : List String
output_aliases = "output_tokens" ∷ "completion_tokens" ∷ []

-- the check of the total, behind both counters
abbrev checked_pair : ℕ → ℕ → Option Value → Option (ℕ × ℕ)
checked_pair i o total =
    if ltb max_safe (i + o) || not (total_agrees total (i + o)) then none else some (i, o)

unfoldable pub parse_usage : Value → Option (ℕ × ℕ)
parse_usage (dict d) = elim (counter (present_values input_aliases d)) [
  | none ↦ none
  | some i ↦ elim (counter (present_values output_aliases d)) [
    | none ↦ none
    | some o ↦ checked_pair i o (get_field "total_tokens" d)
  ]
]
parse_usage _ = none

-- Each value under the aliases is the integer `n`.
abbrev pub AreInt : ℕ → List Value → Type 0
AreInt n vs = All (λ v. integer v ≡ some n) vs

all_are-AreInt : (n : ℕ) (vs : List Value) → all_are n vs ≡ true → AreInt n vs
all_are-AreInt n [] h = tt
all_are-AreInt n (v ∷ vs) h = by_integer (integer v) refl (all_are-AreInt n vs)
  where
    by_integer :
        (o : Option ℕ)
        → integer v ≡ o
        → (all_are n vs ≡ true → AreInt n vs)
        → (integer v ≡ some n) × AreInt n vs
    by_integer none e ih = absurd (ground (arith, e, h))
    by_integer (some m) e ih = (ground (arith, e, h), ih (ground (arith, e, h)))

counter-AreInt : (vs : List Value) (n : ℕ) → counter vs ≡ some n → (1 ≤ length vs) × AreInt n vs
unfolding counter
counter-AreInt [] n h = absurd (ground arith)
counter-AreInt (v ∷ vs) n h = by_integer (integer v) refl
  where
    by_integer :
        (o : Option ℕ)
        → integer v ≡ o
        → (1 ≤ suc (length vs)) × ((integer v ≡ some n) × AreInt n vs)
    by_integer none e = absurd (ground (arith, e, h))
    by_integer (some m) e =
        (omega arith, (ground (arith, e, h), all_are-AreInt n vs (ground (arith, e, h))))

pub record IsUsage (d : Fields) (i o : ℕ) : Type 0 where
  pub input_given : 1 ≤ length (present_values input_aliases d)
  pub inputs : AreInt i (present_values input_aliases d)
  pub output_given : 1 ≤ length (present_values output_aliases d)
  pub outputs : AreInt o (present_values output_aliases d)
  pub safe : i + o ≤ max_safe
  pub total : total_agrees (get_field "total_tokens" d) (i + o) ≡ true

-- Accepted counters are those that every alias present reports, at least one for the input and one
-- for the output; their sum is a safe integer and equals a reported total.
pub parse_usage-IsUsage :
    (d : Fields) (i o : ℕ) → parse_usage (dict d) ≡ some (i, o) → IsUsage d i o
unfolding parse_usage
parse_usage-IsUsage d i o h = by_input (counter (present_values input_aliases d)) refl
  where
    by_output :
        (a : ℕ) (r : Option ℕ)
        → counter (present_values input_aliases d) ≡ some a
        → counter (present_values output_aliases d) ≡ r
        → IsUsage d i o
    by_output a none e k = absurd (ground (arith, e, k, h))
    by_output a (some b) e k = ground (
      arith,
      h,
      counter-AreInt (present_values input_aliases d) i,
      counter-AreInt (present_values output_aliases d) o,
    )

    by_input : (r : Option ℕ) → counter (present_values input_aliases d) ≡ r → IsUsage d i o
    by_input none e = absurd (ground (arith, e, h))
    by_input (some a) e = by_output a (counter (present_values output_aliases d)) e refl
