-- ===== src/Provider/Tests.antt =====
-- The circuit breaker and the retry loop at small inputs.
use doppel_agent.Prelude.{
  ℕ, zero, suc, ◌*◌, ◌≡◌, refl, false, [], ◌∷◌, Option, none, some, arith, ok,
}
use doppel_agent.Provider.Circuit.{Limits, Circuit, closed, enter_circuit}
use doppel_agent.Provider.Retry.{
  timeout, network, http_status, returned, failed, Round, second, fresh_allowance, success, gave_up,
  owned_turn,
}
use doppel_agent.Provider.Bounds.{IsBounded, owned_turn-IsBounded}
use doppel_agent.Provider.Requests.{
  System, idle, Reach, here, next, enter, probes, Reach-single_probe, Reach-unblocked,
}
use doppel_agent.Provider.Turns.{Request, Policy, refused, anext_turn}
use doppel_agent.Provider.Outage.{serve, GivesUp, outage-refuses}

abbrev limits : Limits
limits = record { threshold = 2; reset = 30 }

abbrev half_open : Circuit
half_open = record { failures = 2; open_until = 30; probe = some 0; fresh = 1 }

-- Attempts 0 and 1 time out, attempt 2 returns.
abbrev flaky : ℕ → Round ℕ
flaky zero = record { attempt = failed timeout; retry_after = none; random = 0; now = 0 }
flaky (suc zero) = record {
  attempt = failed (http_status 503);
  retry_after = some 1;
  random = 0;
  now = 0;
}
flaky (suc (suc n)) = record { attempt = returned 7; retry_after = none; random = 0; now = 0 }

flaky_returns : (owned_turn flaky (10 * second) 3 (some fresh_allowance)).ending ≡ success 7
unfolding owned_turn
flaky_returns = refl

flaky_rests : (owned_turn flaky (10 * second) 2 none).ending ≡ gave_up (http_status 503) 2
unfolding owned_turn
flaky_rests = refl

owned_turn-IsBounded_example :
    IsBounded flaky
      (10 * second)
      3
      (some fresh_allowance)
      (owned_turn flaky (10 * second) 3 (some fresh_allowance))
owned_turn-IsBounded_example =
    owned_turn-IsBounded flaky (10 * second) 3 (some fresh_allowance) (omega arith)

-- One request, let in with no lease.
abbrev one_in : System
one_in = record { circuit = closed; inflight = record { lease = none; decided = false } ∷ [] }

abbrev tight : Limits
tight = record { threshold = 0; reset = 30 }

abbrev probing : System
probing = record {
  circuit = record { failures = 0; open_until = 0; probe = some 0; fresh = 1 };
  inflight = record { lease = some 0; decided = false } ∷ [];
}

probe_enters : Reach tight idle probing
unfolding enter_circuit
probe_enters = next here (enter 0 (some 0) probing.circuit refl refl)

Reach-single_probe_example : probes probing.inflight ≡ 1
Reach-single_probe_example = Reach-single_probe tight probing probe_enters

Reach-unblocked_example :
    (lease : Option ℕ) × (c : Circuit) × (enter_circuit limits 5 closed ≡ (ok lease, c))
Reach-unblocked_example = Reach-unblocked limits idle 5 here refl (omega arith)

abbrev policy : Policy
policy = record {
  limits = record { threshold = 2; reset = 30 };
  max_attempts = 1;
  retry_budget = 10;
}

abbrev down : Round ℕ
down = record { attempt = failed network; retry_after = none; random = 0; now = 0 }

abbrev at : ℕ → Request ℕ
at t = record { entered = t; started = t; ended = t; rounds = λ n. down; allowance = none }

at-GivesUp : (t : ℕ) → GivesUp policy (at t)
unfolding owned_turn
at-GivesUp t = record { failure = network; attempts = 1; ends = refl }

outage-refuses_example :
    anext_turn policy (at 20) (serve policy (at 0 ∷ at 1 ∷ []) closed)
    ≡ (refused, serve policy (at 0 ∷ at 1 ∷ []) closed)
outage-refuses_example =
    outage-refuses policy (at 0 ∷ []) (at 1) (at 20) refl (at-GivesUp 0, tt) (at-GivesUp 1)
      (omega arith)
