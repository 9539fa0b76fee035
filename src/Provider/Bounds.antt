-- ===== src/Provider/Bounds.antt =====
-- The bounds of the retry loop: attempts, sleeps and the run-wide allowance.
use Prim.Native.Nat.{min}
use doppel_agent.Prelude.{
  ℕ, zero, suc, ◌+◌, ◌*◌, ◌^◌, ◌≤◌, ◌<◌, ◌≡◌, refl, sym, true, List, [], ◌∷◌, Option, none, some,
  arith, length,
}
use mathlib.Core.Path.{subst}
use native.Mathlib.Decide.{dec_lt}
use native.Mathlib.Nat.{pow-suc}
use doppel_agent.Provider.Retry.{
  Failure, Attempt, returned, failed, raised, Round, second, backoff, Allowance, is_retryable,
  Ending, success, gave_up, escaped, no_attempt, Turn, goes_on, delay_of, retry_loop, owned_turn,
}

abbrev pub sum : List ℕ → ℕ
sum [] = 0
sum (x ∷ xs) = x + sum xs

-- `b` is `a` after sleeps of `total` ticks in all, `n` of them.
abbrev pub Spent : Option Allowance → Option Allowance → ℕ → ℕ → Type 0
Spent none none n total = Unit
Spent (some a) (some b) n total =
    (b.retries_left + n ≡ a.retries_left) × (b.backoff_left + total ≡ a.backoff_left)
Spent _ _ n total = ⊥

Spent-refl : (a : Option Allowance) → Spent a a 0 0
Spent-refl none = tt
Spent-refl (some a) = omega arith

goes_on-Spent :
    (deadline now delay left : ℕ) (f : Failure) (a b c : Option Allowance) (n total : ℕ)
    → goes_on deadline now delay left f b ≡ some c
    → Spent a b n total
    → Spent a c (suc n) (delay + total)
      × (now + delay ≤ deadline)
      × (0 < left)
      × (is_retryable f ≡ true)
unfolding goes_on
goes_on-Spent deadline now delay left f none none none n total h s = ground arith
goes_on-Spent deadline now delay left f (some a) (some b) (some c) n total h s = ground arith
goes_on-Spent deadline now delay left f none (some b) c n total h s = absurd s
goes_on-Spent deadline now delay left f (some a) none c n total h s = absurd s
goes_on-Spent deadline now delay left f none none (some c) n total h s = absurd (ground arith)
goes_on-Spent deadline now delay left f (some a) (some b) none n total h s = absurd (ground arith)

module _ {T : Type 0} (rounds : ℕ → Round T) (deadline : ℕ) where
  -- How the loop ends tells what its last attempt, number `n`, did.
  abbrev pub Ended : Ending T → ℕ → Type 0
  Ended (success turn) n = (rounds n).attempt ≡ returned turn
  Ended (gave_up f attempts) n = (attempts ≡ suc n) × ((rounds n).attempt ≡ failed f)
  Ended escaped n = (rounds n).attempt ≡ raised
  Ended no_attempt n = ⊥

  -- Attempt `i` failed in a way that may be retried, and its delay fitted before the deadline.
  pub record Retried (i : ℕ) : Type 0 where
    pub failure : Failure
    pub seen : (rounds i).attempt ≡ failed failure
    pub retryable : is_retryable failure ≡ true
    pub in_time : (rounds i).now + delay_of rounds deadline i ≤ deadline

  pub record IsBounded (max : ℕ) (start : Option Allowance) (t : Turn T) : Type 0 where
    pub few : length t.sleeps < max
    pub spent : Spent start t.allowance (length t.sleeps) (sum t.sleeps)
    pub ended : Ended t.ending (length t.sleeps)
    pub retried : (i : ℕ) → i < length t.sleeps → Retried i

  Retried-suc :
      (n : ℕ) → ((i : ℕ) → i < n → Retried i) → Retried n → (i : ℕ) → i < suc n → Retried i
  Retried-suc n earlier last i h = elim (dec_lt i n) [
    | yes p ↦ earlier i p
    | no p ↦ let e : i ≡ n = omega arith in subst Retried (sym e) last
  ]

  module _ (max : ℕ) (start : Option Allowance) where
    retry_loop-IsBounded :
        (left : ℕ) (sleeps : List ℕ) (allowance : Option Allowance)
        → 0 < left
        → length sleeps + left ≡ max
        → Spent start allowance (length sleeps) (sum sleeps)
        → ((i : ℕ) → i < length sleeps → Retried i)
        → IsBounded max start (retry_loop rounds deadline left (length sleeps) sleeps allowance)
    unfolding retry_loop
    retry_loop-IsBounded zero sleeps allowance p total spent earlier = absurd (omega arith)
    retry_loop-IsBounded (suc left) sleeps allowance p total spent earlier =
        by_attempt (rounds (length sleeps)).attempt refl (λ rest q spent' earlier'.
          retry_loop-IsBounded left (delay_of rounds deadline (length sleeps) ∷ sleeps) rest q
            (omega arith) spent' earlier')
      where
        n : ℕ
        n = length sleeps

        delay : ℕ
        delay = delay_of rounds deadline n

        by_decision :
            (f : Failure)
            → (rounds n).attempt ≡ failed f
            → (o : Option (Option Allowance))
            → goes_on deadline (rounds n).now delay left f allowance ≡ o
            → ((rest : Option Allowance)
                → 0 < left
                → Spent start rest (suc n) (delay + sum sleeps)
                → ((i : ℕ) → i < suc n → Retried i)
                → IsBounded max start
                    (retry_loop rounds deadline left (suc n) (delay ∷ sleeps) rest))
            → IsBounded max start (retry_loop rounds deadline (suc left) n sleeps allowance)
        by_decision f e none stop again =
            rw (e, stop, retry_loop)
              (record { few = omega arith; spent = spent; ended = (refl, e); retried = earlier })
        by_decision f e (some rest) on again =
            let (spent', in_time, more, retryable) =
              goes_on-Spent deadline (rounds n).now delay left f start allowance rest n (sum sleeps)
                on spent in
            rw (e, on, retry_loop)
              (again rest more spent' (
                Retried-suc n earlier
                  (record { failure = f; seen = e; retryable = retryable; in_time = in_time })))

        by_attempt :
            (a : Attempt T)
            → (rounds n).attempt ≡ a
            → ((rest : Option Allowance)
                → 0 < left
                → Spent start rest (suc n) (delay + sum sleeps)
                → ((i : ℕ) → i < suc n → Retried i)
                → IsBounded max start
                    (retry_loop rounds deadline left (suc n) (delay ∷ sleeps) rest))
            → IsBounded max start (retry_loop rounds deadline (suc left) n sleeps allowance)
        by_attempt (returned turn) e again =
            rw (e, retry_loop)
              (record { few = omega arith; spent = spent; ended = e; retried = earlier })
        by_attempt raised e again =
            rw (e, retry_loop)
              (record { few = omega arith; spent = spent; ended = e; retried = earlier })
        by_attempt (failed f) e again =
            by_decision f e (goes_on deadline (rounds n).now delay left f allowance) refl again

  -- A turn makes at least one attempt and at most `max_attempts`; it sleeps once between two
  -- attempts, within what the run-wide allowance has left; each attempt but the last failed in a
  -- retryable way with its delay before the deadline, and the last one decides how the turn ends.
  pub owned_turn-IsBounded :
      (max_attempts : ℕ) (allowance : Option Allowance)
      → 1 ≤ max_attempts
      → IsBounded max_attempts allowance (owned_turn rounds deadline max_attempts allowance)
  unfolding owned_turn
  owned_turn-IsBounded max_attempts allowance h =
      retry_loop-IsBounded max_attempts allowance max_attempts [] allowance h (omega arith)
        (Spent-refl allowance) (λ i impossible. absurd (omega arith))

pow-pos : (n : ℕ) → 1 ≤ 2 ^ n
pow-pos zero = omega arith
pow-pos (suc n) = omega (arith, pow-suc 2 n, pow-pos n)

scaled_bounds : (m x : ℕ) → 1 ≤ m → m ≤ 16 → (x ≤ m * x) × (m * x ≤ 16 * x)
scaled_bounds m x low high = (grind arith, grind arith)

-- The delay of a retry without `Retry-After` is at least 3/16 of a second and below 5 seconds.
pub backoff_bounds :
    (attempt random : ℕ)
    → random < 2 ^ 53
    → (3 * second ≤ 16 * backoff attempt random none) × (backoff attempt random none < 5 * second)
unfolding backoff
backoff_bounds attempt random h = omega (
  arith,
  pow-pos attempt,
  scaled_bounds (min 16 (2 ^ attempt)) (3 * 2 ^ 53 + 2 * random) (omega (arith, pow-pos attempt))
      (omega arith),
)
