-- ===== src/Prelude/Results.antt =====
-- Code that may raise, as values: `ok` or the exception.
use mathlib.Core.Path.{◌≡◌, refl}
use mathlib.Core.Bool.{Bool, true, false}
use native.Mathlib.Omega.{arith}
use doppel_agent.Prelude.Tests.{if◌then◌else◌}

pub data Result {ℓ} (E : Type 0) (A : Type ℓ) : Type ℓ where
  err : E → Result E A
  ok : A → Result E A

infixl 5 ◌>>=◌ ◌>>◌
-- A raised exception skips what follows.
abbrev pub ◌>>=◌ {ℓ κ} :
    {E : Type 0} {A : Type ℓ} {B : Type κ} → Result E A → (A → Result E B) → Result E B
err raised >>= rest = err raised
ok value >>= rest = rest value

abbrev pub ◌>>◌ {ℓ} : {E : Type 0} {B : Type ℓ} → Result E (Unit {0}) → Result E B → Result E B
first >> rest = first >>= λ nothing. rest

-- `if not test: raise e`
abbrev pub guard : {E : Type 0} → Bool → E → Result E (Unit {0})
guard test e = if test then ok tt else err e

module _ {ℓ} {E : Type 0} {B : Type ℓ} where
  -- What returned behind a bind had both parts return.
  pub >>=-eq-ok {κ} :
      {A : Type κ} (first : Result E A) (rest : A → Result E B) {b : B}
      → (first >>= rest) ≡ ok b
      → (a : A) × (first ≡ ok a) × (rest a ≡ ok b)
  >>=-eq-ok (err raised) rest h = absurd (ground (arith, h))
  >>=-eq-ok (ok value) rest h = (value, refl, h)

  pub guard-eq-ok :
      (test : Bool) (e : E) (rest : Result E B) {b : B}
      → (guard test e >> rest) ≡ ok b
      → (test ≡ true) × (rest ≡ ok b)
  guard-eq-ok false e rest h = absurd (ground (arith, h))
  guard-eq-ok true e rest h = (refl, h)
