-- ===== src/Billing/Normalised.antt =====
-- What normalising a rate keeps of it.
use doppel_agent.Prelude.{
  ℕ, zero, suc, ◌≤◌, ◌≡◌, refl, ap, ◌∙◌, true, false, List, [], ◌∷◌, ◌++◌, arith, if◌then◌else◌,
  length, all,
}
use doppel_agent.Billing.Rates.{
  is_digit, before_point, after_point, has_point, is_whole, is_rate, end_cons, strip_end,
  normalised, ljust, coefficient,
}

-- Trailing zeros come back when the text is filled up.
pub ljust-strip_end :
    (k : ℕ) (cs : List ℕ) → length cs ≤ k → ljust k (strip_end b'0' cs) ≡ ljust k cs
unfolding ljust strip_end
ljust-strip_end k [] h = refl
ljust-strip_end zero (c ∷ cs) h = absurd (omega (arith, h))
ljust-strip_end (suc k) (c ∷ cs) h =
    by_rest (strip_end b'0' cs) (ljust-strip_end k cs (omega (arith, h)))
  where
    by_rest :
        (rest : List ℕ)
        → ljust k rest ≡ ljust k cs
        → ljust (suc k) (end_cons b'0' c rest) ≡ c ∷ ljust k cs
    by_rest [] e = ground (arith, e)
    by_rest (d ∷ ds) e = ap (λ xs. c ∷ xs) e

pub split_point :
    (cs : List ℕ) → has_point cs ≡ true → cs ≡ before_point cs ++ (b'.' ∷ after_point cs)
unfolding has_point before_point after_point
split_point [] h = absurd (ground (arith, h))
split_point (c ∷ cs) h = ground (arith, h, split_point cs)

has_point-join : (w f : List ℕ) → has_point (w ++ (b'.' ∷ f)) ≡ true
unfolding has_point
has_point-join [] f = refl
has_point-join (c ∷ w) f = ground (arith, has_point-join w f)

-- A text of digits has no point.
pub digits-point :
    (w f : List ℕ)
    → all is_digit w ≡ true
    → (before_point (w ++ (b'.' ∷ f)) ≡ w)
      × (after_point (w ++ (b'.' ∷ f)) ≡ f)
      × (before_point w ≡ w)
      × (after_point w ≡ [])
      × (has_point w ≡ false)
unfolding before_point after_point has_point
digits-point [] f h = (refl, refl, refl, refl, refl)
digits-point (c ∷ cs) f h =
    let ih = digits-point cs f (ground (arith, h)) in
    (
      ground (arith, h, ih.0),
      ground (arith, h, ih.1),
      ground (arith, h, ih.2),
      ground (arith, h, ih.3),
      ground (arith, h, ih.4),
    )

digits-strip_end : (w : List ℕ) → all is_digit w ≡ true → strip_end b'.' w ≡ w
unfolding strip_end
digits-strip_end [] h = refl
digits-strip_end (c ∷ cs) h = ground (arith, h, digits-strip_end cs)

strip_end-append :
    (end : ℕ) (w : List ℕ) (c : ℕ) (f : List ℕ)
    → strip_end end (w ++ (c ∷ f))
      ≡ elim (strip_end end (c ∷ f)) [ [] ↦ strip_end end w | x ∷ xs ↦ w ++ (x ∷ xs) ]
unfolding strip_end
strip_end-append end [] c f = by_tail (strip_end end (c ∷ f))
  where
    by_tail : (r : List ℕ) → r ≡ elim r [ [] ↦ [] | x ∷ xs ↦ x ∷ xs ]
    by_tail [] = refl
    by_tail (x ∷ xs) = refl
strip_end-append end (d ∷ w) c f = by_tail (strip_end end (c ∷ f)) (strip_end-append end w c f)
  where
    by_tail :
        (r : List ℕ)
        → strip_end end (w ++ (c ∷ f)) ≡ elim r [ [] ↦ strip_end end w | x ∷ xs ↦ w ++ (x ∷ xs) ]
        → strip_end end (d ∷ (w ++ (c ∷ f)))
          ≡ elim r [ [] ↦ strip_end end (d ∷ w) | x ∷ xs ↦ d ∷ (w ++ (x ∷ xs)) ]
    by_tail [] e = ap (λ xs. end_cons end d xs) e
    by_tail (x ∷ xs) e = ap (λ ys. end_cons end d ys) e ∙ nonempty w
      where
        nonempty : (w : List ℕ) → end_cons end d (w ++ (x ∷ xs)) ≡ d ∷ (w ++ (x ∷ xs))
        nonempty [] = refl
        nonempty (y ∷ ys) = refl

pub strip_end-facts :
    (cs : List ℕ)
    → all is_digit cs ≡ true
    → (all is_digit (strip_end b'0' cs) ≡ true)
      × (length (strip_end b'0' cs) ≤ length cs)
      × (strip_end b'0' (strip_end b'0' cs) ≡ strip_end b'0' cs)
unfolding strip_end
strip_end-facts [] h = (refl, omega arith, refl)
strip_end-facts (c ∷ cs) h = by_rest (strip_end b'0' cs) (strip_end-facts cs (ground (arith, h)))
  where
    by_rest :
        (r : List ℕ)
        → (all is_digit r ≡ true) × (length r ≤ length cs) × (strip_end b'0' r ≡ r)
        → (all is_digit (end_cons b'0' c r) ≡ true)
          × (length (end_cons b'0' c r) ≤ suc (length cs))
          × (strip_end b'0' (end_cons b'0' c r) ≡ end_cons b'0' c r)
    by_rest [] (d, l, s) = (ground (arith, h), ground arith, ground arith)
    by_rest (x ∷ xs) (d, l, s) =
        (ground (arith, h, d), omega (arith, l), ap (λ ys. end_cons b'0' c ys) s)

-- How a rate with a point is normalised, from its digits before and behind the point.
abbrev rejoined : List ℕ → List ℕ → List ℕ
rejoined w [] = w
rejoined w (c ∷ f) = w ++ (b'.' ∷ c ∷ f)

pub zeros-strip_end :
    (w f : List ℕ) → strip_end b'0' (w ++ (b'.' ∷ f)) ≡ w ++ (b'.' ∷ strip_end b'0' f)
unfolding strip_end
zeros-strip_end w f = strip_end-append b'0' w b'.' f ∙ by_tail (strip_end b'0' f)
  where
    by_tail :
        (g : List ℕ)
        → (elim (end_cons b'0' b'.' g) [ [] ↦ strip_end b'0' w | x ∷ xs ↦ w ++ (x ∷ xs) ])
          ≡ w ++ (b'.' ∷ g)
    by_tail [] = refl
    by_tail (x ∷ xs) = refl

point-strip_end :
    (w g : List ℕ)
    → all is_digit w ≡ true
    → all is_digit g ≡ true
    → strip_end b'.' (w ++ (b'.' ∷ g)) ≡ rejoined w g
unfolding strip_end
point-strip_end w [] hw hg = strip_end-append b'.' w b'.' [] ∙ digits-strip_end w hw
point-strip_end w (x ∷ xs) hw hg =
    strip_end-append b'.' w b'.' (x ∷ xs)
    ∙ ap (λ r. elim (end_cons b'.' b'.' r) [ [] ↦ strip_end b'.' w | y ∷ ys ↦ w ++ (y ∷ ys) ])
        (digits-strip_end (x ∷ xs) hg)

pub normalised-join :
    (w f : List ℕ)
    → all is_digit w ≡ true
    → all is_digit f ≡ true
    → normalised (w ++ (b'.' ∷ f)) ≡ rejoined w (strip_end b'0' f)
unfolding normalised
normalised-join w f hw hf =
    ap (λ b. if b then strip_end b'.' (strip_end b'0' (w ++ (b'.' ∷ f))) else w ++ (b'.' ∷ f))
      (pointed w)
    ∙ ap (λ xs. strip_end b'.' xs) (zeros-strip_end w f)
    ∙ point-strip_end w (strip_end b'0' f) hw (strip_end-facts f hf).0
  where
    pointed : (v : List ℕ) → has_point (v ++ (b'.' ∷ f)) ≡ true
    pointed v = has_point-join v f

pub is_whole-digits : (w : List ℕ) → is_whole w ≡ true → all is_digit w ≡ true
is_whole-digits [] h = refl
is_whole-digits (c ∷ []) h = ground (arith, h)
is_whole-digits (c ∷ d ∷ w) h = ground (arith, h)

pub joined-coefficient :
    (w g f : List ℕ)
    → all is_digit w ≡ true
    → ljust 8 g ≡ ljust 8 f
    → coefficient (rejoined w g) ≡ coefficient (w ++ (b'.' ∷ f))
unfolding coefficient
joined-coefficient w [] f hw e =
    let d = digits-point w f hw in ground (arith, d.0, d.1, d.2, d.3, e)
joined-coefficient w (x ∷ xs) f hw e =
    let d = digits-point w f hw in
    let c = digits-point w (x ∷ xs) hw in ground (arith, d.0, d.1, c.0, c.1, e)

pub joined-is_rate :
    (w g : List ℕ)
    → is_whole w ≡ true
    → all is_digit g ≡ true
    → length g ≤ 8
    → strip_end b'0' g ≡ g
    → (is_rate (rejoined w g) ≡ true) × (normalised (rejoined w g) ≡ rejoined w g)
unfolding is_rate normalised
joined-is_rate w [] hw hg l s =
    let d = digits-point w [] (is_whole-digits w hw) in
    (ground (arith, d.2, d.4, hw), ground (arith, d.4))
joined-is_rate w (x ∷ xs) hw hg l s =
    let d = digits-point w (x ∷ xs) (is_whole-digits w hw) in
    (
      ground (arith, d.0, d.1, hw, hg, l),
      normalised-join w (x ∷ xs) (is_whole-digits w hw) hg ∙ ap (λ g. rejoined w g) s,
    )
