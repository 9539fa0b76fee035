-- ===== src/Provider/Circuit.antt =====
-- The circuit breaker of `AsyncOpenAICompatibleProvider`. Each method below runs under the
-- provider's `_circuit_lock`, so it is one step. Times are whole clock ticks.
use doppel_agent.Prelude.{
  ℕ, suc, ◌+◌, ◌≤◌, ◌<◌, ◌≡◌, ◌≢◌, refl, ap, eq_false_of, Bool, true, false, Option, none, some,
  arith, ltb, leb, ◌==◌, if◌then◌else◌, Result, ok, err,
}

-- `circuit_failure_threshold` and `circuit_reset_seconds`
pub record Limits : Type 0 where
  pub threshold : ℕ
  pub reset : ℕ

-- `_failures`, `_open_until`, `_half_open_probe`. A lease is an `object()`, told from every other by
-- its identity: the number `fresh` is the next identity that was not yet given out.
pub record Circuit : Type 0 where
  pub failures : ℕ
  pub open_until : ℕ
  pub probe : Option ℕ
  pub fresh : ℕ

abbrev pub closed : Circuit
closed = record { failures = 0; open_until = 0; probe = none; fresh = 0 }

-- `ProviderCircuitOpen`
pub data CircuitOpen : Type 0 where
  circuit_open : CircuitOpen

-- the branch of `_enter_circuit` with no probe in flight
unfoldable pub enter_idle : Limits → ℕ → Circuit → Result CircuitOpen (Option ℕ) × Circuit
enter_idle limits now c =
    if ltb c.failures limits.threshold
    then (ok none, c)
    else if ltb now c.open_until
    then (err circuit_open, c)
    else (ok (some c.fresh), record c { probe = some c.fresh; fresh = suc c.fresh })

unfoldable pub enter_circuit : Limits → ℕ → Circuit → Result CircuitOpen (Option ℕ) × Circuit
unfolding enter_idle
enter_circuit limits now c = elim c.probe [
  | some l ↦ (err circuit_open, c)
  | none ↦ enter_idle limits now c
]

-- `self._half_open_probe is lease`
abbrev pub same_lease : Option ℕ → Option ℕ → Bool
same_lease none none = true
same_lease (some a) (some b) = a == b
same_lease _ _ = false

unfoldable pub record_success : Option ℕ → Circuit → Circuit
record_success lease c =
    if same_lease c.probe lease then record c { failures = 0; open_until = 0; probe = none } else c

unfoldable pub record_failure : Limits → ℕ → Option ℕ → Circuit → Circuit
record_failure limits now lease c =
    if same_lease c.probe lease
    then record c {
      failures = c.failures + 1;
      open_until =
          if leb limits.threshold (c.failures + 1) then now + limits.reset else c.open_until;
      probe = none;
    }
    else c

unfoldable pub release_probe : ℕ → Circuit → Circuit
release_probe lease c = if same_lease c.probe (some lease) then record c { probe = none } else c

-- The `finally` of `anext_turn`.
abbrev pub release : Option ℕ → Circuit → Circuit
release none c = c
release (some lease) c = release_probe lease c

same_lease-ne : (a b : Option ℕ) → a ≢ b → same_lease a b ≡ false
same_lease-ne none none h = absurd (h refl)
same_lease-ne none (some b) h = refl
same_lease-ne (some a) none h = refl
same_lease-ne (some a) (some b) h =
    eq_false_of (a == b) (λ e. h (ap {B = Option ℕ} some (ground (arith, e))))

-- A decision by a request that does not hold the current lease changes nothing, whether the
-- request is an ordinary one that began before the probe or a probe that was retired.
pub stale_decision :
    (limits : Limits) (now : ℕ) (lease : Option ℕ) (c : Circuit)
    → c.probe ≢ lease
    → (record_success lease c ≡ c) × (record_failure limits now lease c ≡ c) × (release lease c ≡ c)
unfolding record_success record_failure release_probe
stale_decision limits now none c other =
    let e = same_lease-ne c.probe none other in (rw e refl, rw e refl, refl)
stale_decision limits now (some l) c other =
    let e = same_lease-ne c.probe (some l) other in (rw e refl, rw e refl, rw e refl)

-- While a probe is in flight every request is refused. With no probe, a request is let in as an
-- ordinary one below the threshold; at the threshold it is refused before `open_until`, and from
-- then on it becomes the probe, under a lease that no request had before.
pub enter_circuit_cases :
    (limits : Limits) (now : ℕ) (c : Circuit)
    → ((l : ℕ) → c.probe ≡ some l → enter_circuit limits now c ≡ (err circuit_open, c))
      × (c.probe ≡ none
          → (c.failures < limits.threshold → enter_circuit limits now c ≡ (ok none, c))
            × (limits.threshold ≤ c.failures
                → now < c.open_until
                → enter_circuit limits now c ≡ (err circuit_open, c))
            × (limits.threshold ≤ c.failures
                → c.open_until ≤ now
                → ((enter_circuit limits now c).0 ≡ ok (some c.fresh))
                  × ((enter_circuit limits now c).1.probe ≡ some c.fresh)
                  × ((enter_circuit limits now c).1.fresh ≡ suc c.fresh)))
unfolding enter_circuit
enter_circuit_cases limits now c = (
  λ l e. ground arith,
  λ e. (
    λ below. ground arith,
    λ at_limit early. ground arith,
    λ at_limit due. (ground arith, ground arith, ground arith),
  ),
)
