-- ===== src/Provider/Requests.antt =====
-- Requests that share one circuit breaker, in any interleaving. A request enters, may record a
-- success or a failure, and at last runs the `finally` of `anext_turn`, which releases its lease.
use doppel_agent.Prelude.{
  ℕ, ◌+◌, ◌≤◌, ◌<◌, ◌≡◌, refl, sym, ◌∙◌, ap, Bool, true, false, not, ◌&&◌, is_some, inl, inr,
  Bool-cases, ltb→lt, ltb→ge, List, [], ◌∷◌, ◌++◌, Option, none, some, arith, ltb, if◌then◌else◌,
  ok,
}
use mathlib.Core.Path.{subst}
use doppel_agent.Provider.Circuit.{
  enter_circuit_cases, Limits, Circuit, closed, enter_circuit, same_lease, record_success,
  record_failure, release_probe, release,
}

-- A request between its entry and its `finally`: its lease, and whether its outcome was recorded.
pub record Ticket : Type 0 where
  pub lease : Option ℕ
  pub decided : Bool

pub record System : Type 0 where
  pub circuit : Circuit
  pub inflight : List Ticket

abbrev pub idle : System
idle = record { circuit = closed; inflight = [] }

pub data Step (limits : Limits) (s : System) : System → Type 0 where
  -- a request is let in
  enter :
      {t : System} (now : ℕ) (lease : Option ℕ) (c : Circuit)
      → enter_circuit limits now s.circuit ≡ (ok lease, c)
      → t
        ≡ record { circuit = c; inflight = record { lease = lease; decided = false } ∷ s.inflight }
      → Step limits s t
  succeed :
      {t : System} (xs ys : List Ticket) (k : Ticket)
      → s.inflight ≡ xs ++ k ∷ ys
      → t ≡ record {
        circuit = record_success k.lease s.circuit;
        inflight = xs ++ record k { decided = true } ∷ ys;
      }
      → Step limits s t
  fail :
      {t : System} (now : ℕ) (xs ys : List Ticket) (k : Ticket)
      → s.inflight ≡ xs ++ k ∷ ys
      → t ≡ record {
        circuit = record_failure limits now k.lease s.circuit;
        inflight = xs ++ record k { decided = true } ∷ ys;
      }
      → Step limits s t
  -- the `finally`, after which the request is gone
  leave :
      {t : System} (xs ys : List Ticket) (k : Ticket)
      → s.inflight ≡ xs ++ k ∷ ys
      → t ≡ record { circuit = release k.lease s.circuit; inflight = xs ++ ys }
      → Step limits s t

pub data Reach (limits : Limits) (s : System) : System → Type 0 where
  here : Reach limits s s
  next : {t u : System} → Reach limits s t → Step limits t u → Reach limits s u

abbrev holds : ℕ → Ticket → ℕ
holds l k = if same_lease k.lease (some l) then 1 else 0

-- How many requests in flight hold lease `l`.
abbrev holders : ℕ → List Ticket → ℕ
holders l [] = 0
holders l (k ∷ rest) = holds l k + holders l rest

-- A probe that is not decided yet.
abbrev pub is_probe : Ticket → Bool
is_probe k = is_some k.lease && not k.decided

abbrev one_if : Bool → ℕ
one_if b = if b then 1 else 0

-- How many requests in flight are probes that are not decided yet.
abbrev pub probes : List Ticket → ℕ
probes [] = 0
probes (k ∷ rest) = one_if (is_probe k) + probes rest

holders-split :
    (l : ℕ) (k : Ticket) (xs ys : List Ticket)
    → holders l (xs ++ k ∷ ys) ≡ holds l k + holders l (xs ++ ys)
holders-split l k [] ys = refl
holders-split l k (x ∷ xs) ys = omega (arith, holders-split l k xs ys)

probes-split :
    (k : Ticket) (xs ys : List Ticket)
    → probes (xs ++ k ∷ ys) ≡ one_if (is_probe k) + probes (xs ++ ys)
probes-split k [] ys = refl
probes-split k (x ∷ xs) ys = omega (arith, probes-split k xs ys)

-- How many of them hold lease `l` and are not decided yet.
abbrev awaiting : List Ticket → ℕ → ℕ
awaiting [] l = 0
awaiting (k ∷ rest) l = (if is_probe k then holds l k else 0) + awaiting rest l

awaiting-split :
    (l : ℕ) (k : Ticket) (xs ys : List Ticket)
    → awaiting (xs ++ k ∷ ys) l ≡ (if is_probe k then holds l k else 0) + awaiting (xs ++ ys) l
awaiting-split l k [] ys = refl
awaiting-split l k (x ∷ xs) ys = omega (arith, awaiting-split l k xs ys)

pub record IsSound (s : System) : Type 0 where
  pub held : (l : ℕ) → s.circuit.probe ≡ some l → holders l s.inflight ≡ 1
  pub awaited : (l : ℕ) → s.circuit.probe ≡ some l → awaiting s.inflight l ≡ 1
  pub single : probes s.inflight ≡ one_if (is_some s.circuit.probe)
  pub unused : (l : ℕ) → s.circuit.fresh ≤ l → holders l s.inflight ≡ 0
  pub given : (l : ℕ) → s.circuit.probe ≡ some l → l < s.circuit.fresh

awaiting-le :
    (l : ℕ) (ks : List Ticket) → (awaiting ks l ≤ holders l ks) × (awaiting ks l ≤ probes ks)
awaiting-le l [] = (omega arith, omega arith)
awaiting-le l (k ∷ rest) =
    let ih = awaiting-le l rest in (ground (arith, ih.0), ground (arith, ih.1))

-- what a decision under a lease leaves of the current probe
abbrev after : Option ℕ → Option ℕ → Option ℕ
after probe lease = if same_lease probe lease then none else probe

-- The requests beside one that is decided or gone.
record IsRest (s : System) (k : Ticket) (rest : List Ticket) : Type 0 where
  other : (l : ℕ) → after s.circuit.probe k.lease ≡ some l → holds l k ≡ 0
  held : (l : ℕ) → after s.circuit.probe k.lease ≡ some l → holders l rest ≡ 1
  awaited : (l : ℕ) → after s.circuit.probe k.lease ≡ some l → awaiting rest l ≡ 1
  single : probes rest ≡ one_if (is_some (after s.circuit.probe k.lease))
  unused : (l : ℕ) → s.circuit.fresh ≤ l → (holds l k ≡ 0) × (holders l rest ≡ 0)
  given : (l : ℕ) → after s.circuit.probe k.lease ≡ some l → l < s.circuit.fresh

split-IsRest :
    (s : System) (xs ys : List Ticket) (k : Ticket)
    → IsSound s
    → s.inflight ≡ xs ++ k ∷ ys
    → IsRest s k (xs ++ ys)
split-IsRest s xs ys k inv e = by_probe s.circuit.probe refl
  where
    held_by : (l : ℕ) → s.circuit.probe ≡ some l → holds l k + holders l (xs ++ ys) ≡ 1
    held_by l p = omega (arith, inv.held l p, holders-split l k xs ys, ap (holders l) e)

    awaited_by :
        (l : ℕ)
        → s.circuit.probe ≡ some l
        → (if is_probe k then holds l k else 0) + awaiting (xs ++ ys) l ≡ 1
    awaited_by l p =
        omega (arith, inv.awaited l p, awaiting-split l k xs ys, ap (λ ks. awaiting ks l) e)

    single_by : one_if (is_probe k) + probes (xs ++ ys) ≡ one_if (is_some s.circuit.probe)
    single_by = omega (arith, inv.single, probes-split k xs ys, ap probes e)

    unused_by : (l : ℕ) → s.circuit.fresh ≤ l → (holds l k ≡ 0) × (holders l (xs ++ ys) ≡ 0)
    unused_by l p =
        let all : holds l k + holders l (xs ++ ys) ≡ 0 =
          omega (arith, inv.unused l p, holders-split l k xs ys, ap (holders l) e) in
        (omega (arith, all), omega (arith, all))

    by_probe : (p : Option ℕ) → s.circuit.probe ≡ p → IsRest s k (xs ++ ys)
    by_probe none q = record {
      other = λ l h. absurd (ground (arith, q, h));
      held = λ l h. absurd (ground (arith, q, h));
      awaited = λ l h. absurd (ground (arith, q, h));
      single = ground (arith, q, single_by);
      unused = unused_by;
      given = λ l h. absurd (ground (arith, q, h));
    }
    by_probe (some m) q = by_lease k.lease refl
      where
        by_lease : (o : Option ℕ) → k.lease ≡ o → IsRest s k (xs ++ ys)
        by_lease none r = record {
          other = λ l h. ground (arith, r);
          held = λ l h. ground (arith, r, h, q, held_by l);
          awaited = λ l h. ground (arith, r, h, q, awaited_by l);
          single = ground (arith, r, q, single_by);
          unused = unused_by;
          given = λ l h. ground (arith, r, h, q, inv.given l);
        }
        by_lease (some n) r = record {
          other = λ l h. ground (arith, r, h, q);
          held = λ l h. ground (arith, r, h, q, held_by m q);
          awaited = λ l h. ground (arith, r, h, q, awaited_by m q);
          single =
              ground
                (arith, r, q, single_by, held_by m q, awaited_by m q, awaiting-le m (xs ++ ys));
          unused = unused_by;
          given = λ l h. ground (arith, r, h, q, inv.given l);
        }

-- A request that is decided, under any change of the circuit that ends its lease.
decided-IsSound :
    (s : System) (xs ys : List Ticket) (k : Ticket) (c : Circuit)
    → IsSound s
    → s.inflight ≡ xs ++ k ∷ ys
    → c.fresh ≡ s.circuit.fresh
    → c.probe ≡ after s.circuit.probe k.lease
    → IsSound (record { circuit = c; inflight = xs ++ record k { decided = true } ∷ ys })
decided-IsSound s xs ys k c inv e f p =
    let r = split-IsRest s xs ys k inv e in
    let done : Ticket = record k { decided = true } in
    record {
      held = λ l h.
          omega (arith, holders-split l done xs ys, r.other l (sym p ∙ h), r.held l (sym p ∙ h));
      awaited = λ l h. ground (arith, awaiting-split l done xs ys, r.awaited l (sym p ∙ h));
      single = ground (arith, probes-split done xs ys, r.single, p);
      unused = λ l h. ground (arith, holders-split l done xs ys, r.unused l, f, h);
      given = λ l h. ground (arith, f, r.given l (sym p ∙ h));
    }

gone-IsSound :
    (s : System) (xs ys : List Ticket) (k : Ticket) (c : Circuit)
    → IsSound s
    → s.inflight ≡ xs ++ k ∷ ys
    → c.fresh ≡ s.circuit.fresh
    → c.probe ≡ after s.circuit.probe k.lease
    → IsSound (record { circuit = c; inflight = xs ++ ys })
gone-IsSound s xs ys k c inv e f p =
    let r = split-IsRest s xs ys k inv e in
    record {
      held = λ l h. r.held l (sym p ∙ h);
      awaited = λ l h. r.awaited l (sym p ∙ h);
      single = ground (arith, r.single, p);
      unused = λ l h. (r.unused l (ground (arith, f, h))).1;
      given = λ l h. ground (arith, f, r.given l (sym p ∙ h));
    }

success-after :
    (lease : Option ℕ) (c : Circuit)
    → ((record_success lease c).fresh ≡ c.fresh)
      × ((record_success lease c).probe ≡ after c.probe lease)
unfolding record_success
success-after lease c = (ground arith, ground arith)

failure-after :
    (limits : Limits) (now : ℕ) (lease : Option ℕ) (c : Circuit)
    → ((record_failure limits now lease c).fresh ≡ c.fresh)
      × ((record_failure limits now lease c).probe ≡ after c.probe lease)
unfolding record_failure
failure-after limits now lease c = (ground arith, ground arith)

release-after :
    (lease : Option ℕ) (c : Circuit)
    → ((release lease c).fresh ≡ c.fresh) × ((release lease c).probe ≡ after c.probe lease)
unfolding release_probe
release-after none c = (refl, by_probe c.probe)
  where
    by_probe : (p : Option ℕ) → p ≡ after p none
    by_probe none = refl
    by_probe (some l) = refl
release-after (some l) c = (ground arith, ground arith)

enter-IsSound :
    (limits : Limits) (s : System) (now : ℕ) (lease : Option ℕ) (c : Circuit)
    → IsSound s
    → enter_circuit limits now s.circuit ≡ (ok lease, c)
    → IsSound
        (record { circuit = c; inflight = record { lease = lease; decided = false } ∷ s.inflight })
unfolding enter_circuit
enter-IsSound limits s now lease c inv e = record {
  held = λ l p. ground (arith, inv.held l, inv.unused l, inv.unused s.circuit.fresh);
  awaited = λ l p. ground (
    arith,
    inv.awaited l,
    inv.unused l,
    inv.unused s.circuit.fresh,
    awaiting-le s.circuit.fresh s.inflight,
  );
  single = ground (arith, inv.single);
  unused = λ l p. ground (arith, inv.unused l);
  given = λ l p. ground (arith, inv.given l);
}

Step-IsSound : (limits : Limits) (s : System) {t : System} → Step limits s t → IsSound s → IsSound t
Step-IsSound limits s (enter now lease c e same) inv =
    subst IsSound (sym same) (enter-IsSound limits s now lease c inv e)
Step-IsSound limits s (succeed xs ys k e same) inv =
    let a = success-after k.lease s.circuit in
    subst IsSound (sym same) (decided-IsSound s xs ys k _ inv e a.0 a.1)
Step-IsSound limits s (fail now xs ys k e same) inv =
    let a = failure-after limits now k.lease s.circuit in
    subst IsSound (sym same) (decided-IsSound s xs ys k _ inv e a.0 a.1)
Step-IsSound limits s (leave xs ys k e same) inv =
    let a = release-after k.lease s.circuit in
    subst IsSound (sym same) (gone-IsSound s xs ys k _ inv e a.0 a.1)

pub Reach-IsSound : (limits : Limits) (s : System) → Reach limits idle s → IsSound s
Reach-IsSound limits s here = record {
  held = λ l p. absurd (ground arith);
  awaited = λ l p. absurd (ground arith);
  single = refl;
  unused = λ l p. refl;
  given = λ l p. absurd (ground arith);
}
Reach-IsSound limits s (next {t = m} r step) = Step-IsSound limits m step (Reach-IsSound limits m r)

enter_when_due :
    (limits : Limits) (now : ℕ) (c : Circuit)
    → c.probe ≡ none
    → c.open_until ≤ now
    → (lease : Option ℕ) × (d : Circuit) × (enter_circuit limits now c ≡ (ok lease, d))
enter_when_due limits now c none_held due = elim (Bool-cases (ltb c.failures limits.threshold)) [
  | inl below ↦ (none, c, ((enter_circuit_cases limits now c).1 none_held).0 (ltb→lt _ _ below))
  | inr at_limit ↦
      let (entered, _, _) =
        ((enter_circuit_cases limits now c).1 none_held).2 (ltb→ge _ _ at_limit) due in
      (
        some c.fresh,
        (enter_circuit limits now c).1,
        λ i. (entered i, (enter_circuit limits now c).1),
      )
]

-- In every interleaving of requests, the requests in flight that were let in as a probe and whose
-- outcome is not recorded yet are one while the circuit has a current probe, and none while it has not.
pub Reach-single_probe :
    (limits : Limits) (s : System)
    → Reach limits idle s
    → probes s.inflight ≡ (if is_some s.circuit.probe then 1 else 0)
Reach-single_probe limits s r = (Reach-IsSound limits s r).single

-- The circuit does not stay blocked by a lost probe: when no request is in flight and the reset
-- time has come, the next request is let in, after any history.
pub Reach-unblocked :
    (limits : Limits) (s : System) (now : ℕ)
    → Reach limits idle s
    → s.inflight ≡ []
    → s.circuit.open_until ≤ now
    → (lease : Option ℕ) × (c : Circuit) × (enter_circuit limits now s.circuit ≡ (ok lease, c))
Reach-unblocked limits s now r empty due = by_probe s.circuit.probe refl
  where
    by_probe :
        (o : Option ℕ)
        → s.circuit.probe ≡ o
        → (lease : Option ℕ) × (c : Circuit) × (enter_circuit limits now s.circuit ≡ (ok lease, c))
    by_probe (some l) e =
        absurd (omega (arith, (Reach-IsSound limits s r).held l e, ap (holders l) empty))
    by_probe none e = enter_when_due limits now s.circuit e due
