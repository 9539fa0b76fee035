-- ===== src/Provider/Retry.antt =====
-- The retry loop of `_anext_turn_owned`, `_backoff`, and the run-wide allowance
-- `_RunRetryAllowance`. A tick is 2 ^ -57 seconds, so the jitter of the backoff is a whole number.
use Prim.Native.Nat.{min}
use doppel_agent.Prelude.{
  ℕ, zero, suc, ◌+◌, ◌-◌, ◌*◌, ◌^◌, Bool, true, not, ◌||◌, List, [], ◌∷◌, Option, none, some, ltb,
  leb, ◌==◌, if◌then◌else◌,
}

-- The exceptions that the loop catches.
pub data Failure : Type 0 where
  timeout network : Failure
  http_status : ℕ → Failure

-- What one attempt does: it returns a turn, fails so that the loop sees it, or raises anything else
-- (a refused response, a failed close, a cancellation).
pub data Attempt (T : Type 0) : Type 0 where
  returned : T → Attempt T
  failed : Failure → Attempt T
  raised : Attempt T

-- One round as its surroundings decide it: the attempt, the `Retry-After` delay if the response
-- names one, the random number in 53 bits, and the clock after the attempt.
pub record Round (T : Type 0) : Type 0 where
  pub attempt : Attempt T
  pub retry_after : Option ℕ
  pub random : ℕ
  pub now : ℕ

abbrev pub second : ℕ
second = 2 ^ 57

-- `min(4.0, 0.25 * 2 ** attempt) * (0.75 + random * 0.5)`
unfoldable pub backoff : ℕ → ℕ → Option ℕ → ℕ
backoff attempt random none = min 16 (2 ^ attempt) * (3 * 2 ^ 53 + 2 * random)
backoff attempt random (some requested) = requested

pub record Allowance : Type 0 where
  pub retries_left : ℕ
  pub backoff_left : ℕ

-- `_RunRetryAllowance()`
abbrev pub fresh_allowance : Allowance
fresh_allowance = record { retries_left = 2; backoff_left = 10 * second }

-- `_RunRetryAllowance.reserve`; `none` where it refuses
unfoldable pub reserve : ℕ → Allowance → Option Allowance
reserve delay a =
    if a.retries_left == 0 || ltb a.backoff_left delay
    then none
    else some (record { retries_left = a.retries_left - 1; backoff_left = a.backoff_left - delay })

-- `not isinstance(exc, HTTPStatusError) or status == 429 or status >= 500`
abbrev pub is_retryable : Failure → Bool
is_retryable (http_status code) = (code == 429) || leb 500 code
is_retryable _ = true

pub data Ending (T : Type 0) : Type 0 where
  success : T → Ending T
  gave_up : Failure → ℕ → Ending T
  escaped : Ending T
  -- no attempt was made: excluded by `max_attempts < 1` in the constructor
  no_attempt : Ending T

-- How the loop ended, the sleeps that it made, latest first, and what is left of the allowance.
pub record Turn (T : Type 0) : Type 0 where
  pub ending : Ending T
  pub sleeps : List ℕ
  pub allowance : Option Allowance

-- `allowance is not None and not allowance.reserve(delay)` breaks the loop; `some` goes on.
unfoldable pub claim : ℕ → Option Allowance → Option (Option Allowance)
unfolding reserve
claim delay none = some none
claim delay (some a) = elim (reserve delay a) [ none ↦ none | some b ↦ some (some b) ]

-- The handler of a failed attempt, with `left` attempts behind it: `none` where it breaks the loop,
-- else what is left of the allowance.
unfoldable pub goes_on : ℕ → ℕ → ℕ → ℕ → Failure → Option Allowance → Option (Option Allowance)
unfolding claim
goes_on deadline now delay left failure allowance =
    if not (is_retryable failure) || (left == 0)
    then none
    else if ltb deadline (now + delay)
    then none
    else claim delay allowance

module _ {T : Type 0} (rounds : ℕ → Round T) (deadline : ℕ) where
  unfoldable pub delay_of : ℕ → ℕ
  unfolding backoff
  delay_of attempt = backoff attempt (rounds attempt).random (rounds attempt).retry_after

  -- The `for` loop, at attempt number `attempt` with `left` attempts to go.
  unfoldable pub retry_loop : ℕ → ℕ → List ℕ → Option Allowance → Turn T
  unfolding delay_of goes_on
  retry_loop zero attempt sleeps allowance = record {
    ending = no_attempt;
    sleeps = sleeps;
    allowance = allowance;
  }
  retry_loop (suc left) attempt sleeps allowance = elim (rounds attempt).attempt [
    | returned turn ↦ record { ending = success turn; sleeps = sleeps; allowance = allowance }
    | raised ↦ record { ending = escaped; sleeps = sleeps; allowance = allowance }
    | failed failure ↦
        elim (goes_on deadline (rounds attempt).now (delay_of attempt) left failure allowance) [
          | none ↦ record {
            ending = gave_up failure (suc attempt);
            sleeps = sleeps;
            allowance = allowance;
          }
          | some rest ↦ retry_loop left (suc attempt) (delay_of attempt ∷ sleeps) rest
        ]
  ]

  -- `_anext_turn_owned` up to what it records with the circuit.
  unfoldable pub owned_turn : ℕ → Option Allowance → Turn T
  unfolding retry_loop
  owned_turn max_attempts allowance = retry_loop max_attempts 0 [] allowance
