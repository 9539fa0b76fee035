-- ===== src/Billing/Spelling.antt =====
-- A rate in its canonical spelling.
use doppel_agent.Prelude.{
  ℕ, ◌≤◌, String, ◌≡◌, refl, ap, ◌∙◌, Bool, true, false, List, [], ◌∷◌, ◌++◌, arith, ◌==◌,
  if◌then◌else◌, length, all, codes, ok, inl, inr, ◌⊎◌, Bool-cases,
}
use mathlib.Core.Path.{subst, sym}
use text.Mathlib.TextEquality.{codes_equal}
use Prim.Native.Char.{code}
use Prim.Native.Nat.{Ordering, compare}
use doppel_agent.Py.{str}
use doppel_agent.Billing.Rates.{
  is_digit, before_point, after_point, has_point, is_whole, is_fraction, is_rate, strip_cons,
  strip_char, normal_text, end_cons, strip_end, normalised, rate, coefficient,
}
use doppel_agent.Billing.Normalised.{
  ljust-strip_end, split_point, strip_end-facts, normalised-join, is_whole-digits,
  joined-coefficient, joined-is_rate,
}

AsNormalised : List ℕ → Type 0
AsNormalised cs =
    (coefficient (normalised cs) ≡ coefficient cs)
    × (is_rate (normalised cs) ≡ true)
    × (normalised (normalised cs) ≡ normalised cs)

joined-AsNormalised :
    (w f : List ℕ) → is_whole w ≡ true → is_fraction f ≡ true → AsNormalised (w ++ (b'.' ∷ f))
unfolding AsNormalised
joined-AsNormalised w f hw hf =
    let digits : all is_digit f ≡ true = ground (arith, hf) in
    let short : length f ≤ 8 = ground (arith, hf) in
    let join = normalised-join w f (is_whole-digits w hw) digits in
    let facts = strip_end-facts f digits in
    let kept =
      joined-is_rate w (strip_end b'0' f) hw facts.0 (omega (arith, facts.1, short)) facts.2 in
    (
      ap (λ xs. coefficient xs) join
          ∙ joined-coefficient w (strip_end b'0' f) f (is_whole-digits w hw)
              (ljust-strip_end 8 f short),
      subst (λ xs. is_rate xs ≡ true) (sym join) kept.0,
      subst (λ xs. normalised xs ≡ xs) (sym join) kept.1,
    )

unpointed : (cs : List ℕ) → has_point cs ≡ false → is_rate cs ≡ true → AsNormalised cs
unfolding AsNormalised normalised
unpointed cs b h = (ground (arith, b), ground (arith, b, h), ground (arith, b))

normalised-AsNormalised : (cs : List ℕ) → is_rate cs ≡ true → AsNormalised cs
unfolding is_rate
normalised-AsNormalised cs h = by_point (Bool-cases (has_point cs))
  where
    by_point : (has_point cs ≡ true) ⊎ (has_point cs ≡ false) → AsNormalised cs
    by_point (inl b) = subst AsNormalised (sym (split_point cs b)) (
        joined-AsNormalised (before_point cs) (after_point cs) (ground (arith, h))
          (ground (arith, h, b)))
    by_point (inr b) = unpointed cs b h

codes-strip_char : (end : ℕ) (s : String) → codes (strip_char end s) ≡ strip_end end (codes s)
unfolding strip_char strip_cons strip_end
codes-strip_char end String.[] = refl
codes-strip_char end (String.◌∷◌ c s) = by_rest (strip_char end s) (codes-strip_char end s)
  where
    stripped :
        (b : Bool) → codes (if b then "" else String.◌∷◌ c "") ≡ (if b then [] else code c ∷ [])
    stripped true = refl
    stripped false = refl

    none_left : (xs : List ℕ) → [] ≡ xs → codes (strip_cons end c "") ≡ end_cons end (code c) xs
    none_left [] k = stripped (code c == end)
    none_left (x ∷ xs) k = absurd (ground (arith, k))

    by_rest :
        (r : String)
        → codes r ≡ strip_end end (codes s)
        → codes (strip_cons end c r) ≡ end_cons end (code c) (strip_end end (codes s))
    by_rest String.[] e = none_left (strip_end end (codes s)) e
    by_rest (String.◌∷◌ d t) e = ap (λ xs. code c ∷ xs) e ∙ nonempty (strip_end end (codes s)) e
      where
        nonempty : (xs : List ℕ) → code d ∷ codes t ≡ xs → code c ∷ xs ≡ end_cons end (code c) xs
        nonempty [] k = absurd (ground (arith, k))
        nonempty (x ∷ xs) k = refl

compare_same : (a b : ℕ) → a ≡ b → compare a b ≡ Ordering.eq
compare_same a b h = ground (arith, h)

codes_inj : (s t : String) → codes s ≡ codes t → s ≡ t
codes_inj String.[] String.[] h = refl
codes_inj String.[] (String.◌∷◌ d t) h = absurd (ground (arith, h))
codes_inj (String.◌∷◌ c s) String.[] h = absurd (ground (arith, h))
codes_inj (String.◌∷◌ c s) (String.◌∷◌ d t) h =
    let first : code c ≡ code d = ground (arith, h) in
    let rest : codes s ≡ codes t = ground (arith, h) in
    let same : c ≡ d = codes_equal c d (compare_same (code c) (code d) first) in
    λ i. String.◌∷◌ (same i) (codes_inj s t rest i)

pub codes-normal_text : (s : String) → codes (normal_text s) ≡ normalised (codes s)
unfolding normal_text normalised
codes-normal_text s =
    ground (arith, codes-strip_char b'0' s, codes-strip_char b'.' (strip_char b'0' s))

-- A rate that is accepted is stored as a text that is accepted as itself, and that stands for the same
-- number of hundred-millionths as the text that was given.
pub rate-coefficient :
    (value r : String)
    → rate (str value) ≡ ok r
    → (coefficient (codes r) ≡ coefficient (codes value)) × (rate (str r) ≡ ok r)
unfolding rate AsNormalised
rate-coefficient value r h =
    let good : is_rate (codes value) ≡ true = ground (arith, h) in
    let made : normal_text value ≡ r = ground (arith, h) in
    let q = normalised-AsNormalised (codes value) good in
    let text : codes r ≡ normalised (codes value) = ap codes (sym made) ∙ codes-normal_text value in
    let again : codes (normal_text r) ≡ codes r =
      codes-normal_text r ∙ ap (λ xs. normalised xs) text ∙ q.2 ∙ sym text in
    (
      ap (λ xs. coefficient xs) text ∙ q.0,
      ground (
        arith,
        subst (λ xs. is_rate xs ≡ true) (sym text) q.1,
        codes_inj (normal_text r) r again,
      ),
    )
