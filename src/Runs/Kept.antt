-- ===== src/Runs/Kept.antt =====
-- The rows that a change of the table keeps in their places, with their ids, keys and requests.
use doppel_agent.Prelude.{
  String, ◌≡◌, refl, sym, ap, ◌∙◌, Bool, true, false, not, ◌&&◌, some, List, [], ◌∷◌, ◌++◌, arith,
  str_eq, is_some, inl, inr, Bool-cases, map,
}
use mathlib.Core.Path.{subst}
use doppel_agent.Runs.Tables.{Run, is_at, find_run, find_key, has_key, update_run}
use doppel_agent.Runs.Claims.{waits}

-- What a calm operation keeps of a row: one of run `id` that does not wait for a decision does not wait
-- afterwards either.
pub record IsKept (id : String) (calm : Bool) (r s : Run) : Type 0 where
  pub same_id : s.run_id ≡ r.run_id
  pub same_key : s.idempotency_key ≡ r.idempotency_key
  pub same_request : s.request ≡ r.request
  pub still :
      calm ≡ true → str_eq r.run_id id ≡ true → waits (some r) ≡ false → waits (some s) ≡ false

-- The rows before are kept, in their places; there may be new ones behind them.
unfoldable pub Extends : String → Bool → List Run → List Run → Type 0
Extends id calm [] after = Unit
Extends id calm (r ∷ rs) [] = ⊥
Extends id calm (r ∷ rs) (s ∷ ss) = IsKept id calm r s × Extends id calm rs ss

module _ (id : String) (calm : Bool) where
  pub IsKept-refl : (r : Run) → IsKept id calm r r
  IsKept-refl r = record {
    same_id = refl;
    same_key = refl;
    same_request = refl;
    still = λ c at h. h;
  }

  pub Extends-append : (runs more : List Run) → Extends id calm runs (runs ++ more)
  unfolding Extends
  Extends-append [] more = tt
  Extends-append (r ∷ rs) more = (IsKept-refl r, Extends-append rs more)

  pub Extends-same : (runs after : List Run) → after ≡ runs → Extends id calm runs after
  unfolding Extends
  Extends-same runs after e = subst (Extends id calm runs) (sym e) (Extends_refl runs)
    where
      Extends_refl : (rs : List Run) → Extends id calm rs rs
      Extends_refl [] = tt
      Extends_refl (r ∷ rs) = (IsKept-refl r, Extends_refl rs)

  pub Extends-update_run :
      (other : String) (f : Run → Run) (runs : List Run)
      → ((r : Run) → is_at other r ≡ true → IsKept id calm r (f r))
      → Extends id calm runs (update_run other f runs)
  unfolding Extends update_run
  Extends-update_run other f [] k = tt
  Extends-update_run other f (r ∷ rs) k = (
    elim (Bool-cases (is_at other r)) [ inl e ↦ rw e (k r e) | inr e ↦ rw e (IsKept-refl r) ],
    Extends-update_run other f rs k,
  )

  pub Extends-map :
      (f : Run → Run) (runs : List Run)
      → ((r : Run) → IsKept id calm r (f r))
      → Extends id calm runs (map f runs)
  unfolding Extends
  Extends-map f [] k = tt
  Extends-map f (r ∷ rs) k = (k r, Extends-map f rs k)

  pub find_key-Extends :
      (key : String) (before after : List Run) (run : Run)
      → Extends id calm before after
      → find_key key before ≡ some run
      → (s : Run) × (find_key key after ≡ some s)
        × (s.run_id ≡ run.run_id)
        × (s.request ≡ run.request)
  unfolding Extends find_key
  find_key-Extends key [] after run e h = absurd (ground (arith, h))
  find_key-Extends key (r ∷ rs) [] run e h = absurd e
  find_key-Extends key (r ∷ rs) (s ∷ ss) run e h =
      elim (Bool-cases (has_key key r.idempotency_key)) [
        | inl k ↦ (
          s,
          ground (arith, k, e.0.same_key),
          ground (arith, k, h, e.0.same_id),
          ground (arith, k, h, e.0.same_request),
        )
        | inr k ↦
            let (t, found, a, b) = find_key-Extends key rs ss run e.1 (ground (arith, k, h)) in
            (t, ground (arith, k, e.0.same_key, found), a, b)
      ]

-- The run is there and does not wait for a decision.
abbrev pub is_settled : String → List Run → Bool
is_settled id runs = is_some (find_run id runs) && not (waits (find_run id runs))

pub not-eq-true : (b : Bool) → not b ≡ true → b ≡ false
not-eq-true true h = absurd (ground (arith, h))
not-eq-true false h = refl

pub is_settled-Extends :
    (id : String) (before after : List Run)
    → Extends id true before after
    → is_settled id before ≡ true
    → is_settled id after ≡ true
unfolding Extends find_run
is_settled-Extends id [] after e h = absurd (ground (arith, h))
is_settled-Extends id (r ∷ rs) [] e h = absurd e
is_settled-Extends id (r ∷ rs) (s ∷ ss) e h = elim (Bool-cases (is_at id r)) [
  | inl k ↦
      let after : is_at id s ≡ true = ap (λ x. str_eq x id) e.0.same_id ∙ k in
      rw after (ap not (e.0.still refl k (not-eq-true (waits (some r)) (sym (rw k refl) ∙ h))))
  | inr k ↦
      let after : is_at id s ≡ false = ap (λ x. str_eq x id) e.0.same_id ∙ k in
      rw after (is_settled-Extends id rs ss e.1 (sym (rw k refl) ∙ h))
]
