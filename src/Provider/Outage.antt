-- ===== src/Provider/Outage.antt =====
-- An outage: requests that fail one after another open the circuit at the threshold.
use doppel_agent.Prelude.{
  ℕ, suc, ◌+◌, ◌≤◌, ◌<◌, ◌≡◌, refl, ◌∙◌, List, [], ◌∷◌, ◌++◌, none, arith, leb, if◌then◌else◌,
  length, All,
}
use doppel_agent.Provider.Circuit.{Circuit, closed, enter_circuit, record_failure}
use doppel_agent.Provider.Retry.{Failure, gave_up}
use doppel_agent.Provider.Turns.{Request, Policy, refused, attempts_of, anext_turn}

module _ {T : Type 0} (p : Policy) where
  -- Requests one after another.
  pub serve : List (Request T) → Circuit → Circuit
  serve [] c = c
  serve (r ∷ rs) c = serve rs (anext_turn p r c).1

  -- All the attempts that the request would make fail.
  pub record GivesUp (r : Request T) : Type 0 where
    pub failure : Failure
    pub attempts : ℕ
    pub ends : (attempts_of p r).ending ≡ gave_up failure attempts

  abbrev after_failure : Circuit → Request T → Circuit
  after_failure c r = record c {
    failures = c.failures + 1;
    open_until =
        if leb p.limits.threshold (c.failures + 1) then r.ended + p.limits.reset else c.open_until;
    probe = none;
  }

  anext_turn-GivesUp :
      (r : Request T) (c : Circuit)
      → c.probe ≡ none
      → c.failures < p.limits.threshold
      → GivesUp r
      → (anext_turn p r c).1 ≡ after_failure c r
  unfolding anext_turn enter_circuit record_failure
  anext_turn-GivesUp r c idle below g = ground (arith, g.ends)

  serve-GivesUp :
      (rs : List (Request T)) (c : Circuit)
      → c.probe ≡ none
      → c.failures + length rs ≤ p.limits.threshold
      → All GivesUp rs
      → ((serve rs c).failures ≡ c.failures + length rs) × ((serve rs c).probe ≡ none)
  unfolding serve
  serve-GivesUp [] c idle room g = (omega arith, idle)
  serve-GivesUp (r ∷ rs) c idle room g =
      let step = anext_turn-GivesUp r c idle (omega arith) g.0 in
      rw (step, serve)
        (let (count, none_held) = serve-GivesUp rs (after_failure c r) refl (omega arith) g.1 in
          (omega arith, none_held))

  serve-append :
      (rs : List (Request T)) (r : Request T) (c : Circuit)
      → serve (rs ++ r ∷ []) c ≡ (anext_turn p r (serve rs c)).1
  unfolding serve
  serve-append [] r c = refl
  serve-append (q ∷ rs) r c = serve-append rs r (anext_turn p q c).1

  -- After as many failing requests in a row as the threshold, from a closed circuit, every request
  -- that enters before the last failure plus the reset time is refused and changes nothing.
  pub outage-refuses :
      (rs : List (Request T)) (last next : Request T)
      → suc (length rs) ≡ p.limits.threshold
      → All GivesUp rs
      → GivesUp last
      → next.entered < last.ended + p.limits.reset
      → anext_turn p next (serve (rs ++ last ∷ []) closed)
        ≡ (refused, serve (rs ++ last ∷ []) closed)
  unfolding anext_turn enter_circuit
  outage-refuses rs last next long gs g early =
      let (count, idle) = serve-GivesUp rs closed refl (omega arith) gs in
      let final : serve (rs ++ last ∷ []) closed ≡ after_failure (serve rs closed) last =
        serve-append rs last closed
        ∙ anext_turn-GivesUp last (serve rs closed) idle (omega arith) g in
      rw final (ground arith)
