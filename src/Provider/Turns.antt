-- ===== src/Provider/Turns.antt =====
-- `anext_turn`: enter the circuit, run the attempts, record the ending, release the lease.
use doppel_agent.Prelude.{ℕ, ◌+◌, ◌≡◌, refl, Option, none, arith, ok, err}
use doppel_agent.Provider.Circuit.{
  Limits, Circuit, enter_circuit, record_success, record_failure, release_probe, release,
}
use doppel_agent.Provider.Retry.{
  Round, Allowance, Ending, success, gave_up, escaped, no_attempt, Turn, owned_turn,
}

-- What surrounds one request: the clock at its entry, at the start of its attempts and at the end
-- of a failed loop, the rounds of its attempts, and the allowance of its run.
pub record Request (T : Type 0) : Type 0 where
  pub entered : ℕ
  pub started : ℕ
  pub ended : ℕ
  pub rounds : ℕ → Round T
  pub allowance : Option Allowance

-- `max_attempts` and `retry_budget_seconds`
pub record Policy : Type 0 where
  pub limits : Limits
  pub max_attempts : ℕ
  pub retry_budget : ℕ

pub data Answer (T : Type 0) : Type 0 where
  refused : Answer T
  answered : Turn T → Answer T

module _ {T : Type 0} where
  -- The last statements of `_anext_turn_owned`: any other exception records nothing.
  abbrev pub record_ending : Limits → ℕ → Ending T → Option ℕ → Circuit → Circuit
  record_ending limits now (success turn) lease c = record_success lease c
  record_ending limits now (gave_up f attempts) lease c = record_failure limits now lease c
  record_ending limits now escaped lease c = c
  record_ending limits now no_attempt lease c = record_failure limits now lease c

  abbrev pub attempts_of : Policy → Request T → Turn T
  attempts_of p r = owned_turn r.rounds (r.started + p.retry_budget) p.max_attempts r.allowance

  unfoldable pub anext_turn : Policy → Request T → Circuit → Answer T × Circuit
  anext_turn p r c =
      let (entry, c') = enter_circuit p.limits r.entered c in
      elim entry [
        | err e ↦ (refused, c')
        | ok lease ↦ (
          answered (attempts_of p r),
          release lease (record_ending p.limits r.ended (attempts_of p r).ending lease c'),
        )
      ]

  -- However a request ends, it leaves no probe behind where there was none.
  pub anext_turn-releases :
      (p : Policy) (r : Request T) (c : Circuit)
      → c.probe ≡ none
      → (anext_turn p r c).1.probe ≡ none
  unfolding anext_turn enter_circuit record_success record_failure release_probe
  anext_turn-releases p r c h = by_ending (attempts_of p r).ending refl
    where
      by_ending : (e : Ending T) → (attempts_of p r).ending ≡ e → (anext_turn p r c).1.probe ≡ none
      by_ending (success t) e = ground arith
      by_ending (gave_up f n) e = ground arith
      by_ending escaped e = ground arith
      by_ending no_attempt e = ground arith
