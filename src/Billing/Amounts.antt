-- ===== src/Billing/Amounts.antt =====
-- `_amount`: an exact decimal text of a number of hundred-trillionths.
use doppel_agent.Prelude.{
  ℕ, zero, suc, ◌+◌, ◌*◌, ◌-◌, ◌/◌, ◌%◌, ◌^◌, ◌<◌, ◌≡◌, refl, ap, ◌∙◌, true, false, List, [], ◌∷◌,
  ◌++◌, arith, ltb, ◌==◌, if◌then◌else◌, length, all, length-append, inl, inr, ◌⊎◌, Bool-cases,
}
use doppel_agent.Billing.Rates.{
  rate_scale, is_digit, before_point, after_point, strip_end, number, ljust,
}
use doppel_agent.Billing.Normalised.{ljust-strip_end, digits-point, zeros-strip_end}

abbrev pub unit_tokens : ℕ
unit_tokens = 10 ^ 6

-- `str(n)`: more fuel than `n` is enough, since each digit divides what is left.
unfoldable pub decimal : ℕ → ℕ → List ℕ
decimal zero n = []
decimal (suc fuel) n =
    let rest = decimal fuel (n / 10) in
    if ltb n 10 then (n + b'0') ∷ [] else rest ++ ((n % 10 + b'0') ∷ [])

-- `f"{n:0kd}"` of a number with at most `k` digits
unfoldable pub padded : ℕ → ℕ → List ℕ
padded zero n = []
padded (suc k) n = padded k (n / 10) ++ ((n % 10 + b'0') ∷ [])

abbrev pub amount_of : ℕ → ℕ → List ℕ
amount_of whole remainder =
    if remainder == 0
    then decimal (suc whole) whole
    else strip_end b'0' (decimal (suc whole) whole ++ (b'.' ∷ padded 14 remainder))

-- `_amount`
unfoldable pub amount : ℕ → List ℕ
amount numerator =
    amount_of (numerator / (rate_scale * unit_tokens)) (numerator % (rate_scale * unit_tokens))

-- The hundred-trillionths that a decimal text stands for.
unfoldable pub units : List ℕ → ℕ
units cs =
    number 0 (before_point cs) * (rate_scale * unit_tokens) + number 0 (ljust 14 (after_point cs))

number-append :
    (n : ℕ) (cs : List ℕ) (c : ℕ) → number n (cs ++ (c ∷ [])) ≡ number n cs * 10 + (c - b'0')
unfolding number
number-append n [] c = refl
number-append n (d ∷ cs) c = number-append (n * 10 + (d - b'0')) cs c

decimal-number : (fuel n : ℕ) → n < fuel → number 0 (decimal fuel n) ≡ n
unfolding decimal number
decimal-number zero n h = absurd (omega (arith, h))
decimal-number (suc fuel) n h = by_size (Bool-cases (ltb n 10)) (decimal-number fuel (n / 10))
  where
    by_size :
        (ltb n 10 ≡ true) ⊎ (ltb n 10 ≡ false)
        → (n / 10 < fuel → number 0 (decimal fuel (n / 10)) ≡ n / 10)
        → number 0
            (if ltb n 10 then (n + b'0') ∷ [] else decimal fuel (n / 10) ++ ((n % 10 + b'0') ∷ []))
          ≡ n
    by_size (inl b) ih = ground (arith, b)
    by_size (inr b) ih =
        ground (arith, b, h, ih, number-append 0 (decimal fuel (n / 10)) (n % 10 + b'0'))

pow : ℕ → ℕ
pow zero = 1
pow (suc k) = 10 * pow k

padded-number : (k n : ℕ) → n < pow k → number 0 (padded k n) ≡ n
unfolding padded number pow
padded-number zero n h = omega (arith, h)
padded-number (suc k) n h = omega (
  arith,
  padded-number k (n / 10) (omega (arith, h)),
  number-append 0 (padded k (n / 10)) (n % 10 + b'0'),
)

padded-length : (k n : ℕ) → length (padded k n) ≡ k
unfolding padded
padded-length zero n = refl
padded-length (suc k) n =
    omega
      (arith, length-append (padded k (n / 10)) ((n % 10 + b'0') ∷ []), padded-length k (n / 10))

all-append :
    (xs : List ℕ) (c : ℕ)
    → all is_digit xs ≡ true
    → is_digit c ≡ true
    → all is_digit (xs ++ (c ∷ [])) ≡ true
all-append [] c h k = ground (arith, k)
all-append (x ∷ xs) c h k = ground (arith, h, all-append xs c)

padded-digits : (k n : ℕ) → all is_digit (padded k n) ≡ true
unfolding padded
padded-digits zero n = refl
padded-digits (suc k) n =
    all-append (padded k (n / 10)) (n % 10 + b'0') (padded-digits k (n / 10)) (ground arith)

decimal-digits : (fuel n : ℕ) → all is_digit (decimal fuel n) ≡ true
unfolding decimal
decimal-digits zero n = refl
decimal-digits (suc fuel) n = by_size (Bool-cases (ltb n 10)) (decimal-digits fuel (n / 10))
  where
    by_size :
        (ltb n 10 ≡ true) ⊎ (ltb n 10 ≡ false)
        → all is_digit (decimal fuel (n / 10)) ≡ true
        → all is_digit
            (if ltb n 10 then (n + b'0') ∷ [] else decimal fuel (n / 10) ++ ((n % 10 + b'0') ∷ []))
          ≡ true
    by_size (inl b) ih = ground (arith, b)
    by_size (inr b) ih = rw b (all-append (decimal fuel (n / 10)) (n % 10 + b'0') ih (ground arith))

ljust-full : (k : ℕ) (cs : List ℕ) → length cs ≡ k → ljust k cs ≡ cs
unfolding ljust
ljust-full zero cs h = refl
ljust-full (suc k) [] h = absurd (omega (arith, h))
ljust-full (suc k) (c ∷ cs) h = ap (λ xs. c ∷ xs) (ljust-full k cs (omega (arith, h)))

whole_units : (w : List ℕ) → all is_digit w ≡ true → units w ≡ number 0 w * 100000000000000
unfolding units ljust number
whole_units w h = let d = digits-point w [] h in rw (d.2, d.3) (omega arith)

joined_units :
    (w g f : List ℕ)
    → all is_digit w ≡ true
    → ljust 14 g ≡ f
    → units (w ++ (b'.' ∷ g)) ≡ number 0 w * 100000000000000 + number 0 f
unfolding units
joined_units w g f h e = let d = digits-point w g h in rw (d.0, d.1, e) refl

amount_of-units :
    (whole remainder : ℕ)
    → remainder < 100000000000000
    → units (amount_of whole remainder) ≡ whole * 100000000000000 + remainder
unfolding units pow
amount_of-units whole remainder h = by_remainder (Bool-cases (remainder == 0))
  where
    w : List ℕ
    w = decimal (suc whole) whole

    f : List ℕ
    f = padded 14 remainder

    back : number 0 w ≡ whole
    back = decimal-number (suc whole) whole (omega arith)

    filled : ljust 14 (strip_end b'0' f) ≡ f
    filled =
        ljust-strip_end 14 f (omega (arith, padded-length 14 remainder))
        ∙ ljust-full 14 f (padded-length 14 remainder)

    by_remainder :
        (remainder == 0 ≡ true) ⊎ (remainder == 0 ≡ false)
        → units (amount_of whole remainder) ≡ whole * 100000000000000 + remainder
    by_remainder (inl b) =
        rw b (whole_units w (decimal-digits (suc whole) whole) ∙ ground (arith, b, back))
    by_remainder (inr b) =
        rw (b, zeros-strip_end w f)
          (joined_units w (strip_end b'0' f) f (decimal-digits (suc whole) whole) filled
            ∙ omega (arith, back, padded-number 14 remainder (omega (arith, h))))

-- The text of an amount stands for the very number that it was made of.
pub amount-units : (n : ℕ) → units (amount n) ≡ n
unfolding amount
amount-units n =
    amount_of-units (n / 100000000000000) (n % 100000000000000) (omega arith) ∙ omega arith
