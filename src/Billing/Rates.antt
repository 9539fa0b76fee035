-- ===== src/Billing/Rates.antt =====
-- src/doppel_agent/billing_tariff.py: `_rate` and `_coefficient`.
use doppel_agent.Prelude.{
  ℕ, zero, suc, ◌+◌, ◌*◌, ◌-◌, ◌^◌, String, Bool, false, not, ◌&&◌, ◌||◌, List, [], ◌∷◌, leb, ◌==◌,
  if◌then◌else◌, length, all, codes, Result, ok, err,
}
use Prim.Native.Char.{Char, code}
use doppel_agent.Py.{Value, str}

-- The `ValueError`s of the module.
pub data TariffError : Type 0 where
  billing_tariff_invalid billing_receipt_invalid : TariffError

abbrev pub rate_scale : ℕ
rate_scale = 10 ^ 8

abbrev pub is_digit : ℕ → Bool
is_digit c = leb b'0' c && leb c b'9'

abbrev pub is_point : ℕ → Bool
is_point c = c == b'.'

-- `value.partition(".")`: what stands before and behind the first point
unfoldable pub before_point : List ℕ → List ℕ
before_point [] = []
before_point (c ∷ cs) = let rest = before_point cs in if is_point c then [] else c ∷ rest

unfoldable pub after_point : List ℕ → List ℕ
after_point [] = []
after_point (c ∷ cs) = let rest = after_point cs in if is_point c then cs else rest

-- `"." in value`
unfoldable pub has_point : List ℕ → Bool
has_point [] = false
has_point (c ∷ cs) = is_point c || has_point cs

-- `0|[1-9][0-9]{0,8}`
abbrev pub is_whole : List ℕ → Bool
is_whole [] = false
is_whole (c ∷ []) = is_digit c
is_whole (c ∷ d ∷ cs) =
    (is_digit c && not (c == b'0')) && (leb (length cs) 7 && all is_digit (d ∷ cs))

-- `[0-9]{1,8}`
abbrev pub is_fraction : List ℕ → Bool
is_fraction cs = (leb 1 (length cs) && leb (length cs) 8) && all is_digit cs

-- the regular expression of `_rate`
unfoldable pub is_rate : List ℕ → Bool
is_rate cs = is_whole (before_point cs) && (not (has_point cs) || is_fraction (after_point cs))

-- `value.rstrip(c)` of one character, on a text
unfoldable pub strip_cons : ℕ → Char → String → String
strip_cons end c String.[] = if code c == end then "" else String.◌∷◌ c ""
strip_cons end c (String.◌∷◌ d s) = String.◌∷◌ c (String.◌∷◌ d s)

unfoldable pub strip_char : ℕ → String → String
unfolding strip_cons
strip_char end String.[] = ""
strip_char end (String.◌∷◌ c s) = strip_cons end c (strip_char end s)

unfoldable pub normal_text : String → String
normal_text value =
    if has_point (codes value) then strip_char b'.' (strip_char b'0' value) else value

-- the same on code points
abbrev pub end_cons : ℕ → ℕ → List ℕ → List ℕ
end_cons end c [] = if c == end then [] else c ∷ []
end_cons end c (d ∷ cs) = c ∷ d ∷ cs

unfoldable pub strip_end : ℕ → List ℕ → List ℕ
strip_end end [] = []
strip_end end (c ∷ cs) = end_cons end c (strip_end end cs)

unfoldable pub normalised : List ℕ → List ℕ
normalised cs = if has_point cs then strip_end b'.' (strip_end b'0' cs) else cs

-- `_rate`
unfoldable pub rate : Value → Result TariffError String
rate (str value) =
    if is_rate (codes value) then ok (normal_text value) else err billing_tariff_invalid
rate _ = err billing_tariff_invalid

-- `int(text)` of decimal digits, behind the number of those before
unfoldable pub number : ℕ → List ℕ → ℕ
number n [] = n
number n (c ∷ cs) = number (n * 10 + (c - b'0')) cs

-- `text.ljust(width, "0")`
unfoldable pub ljust : ℕ → List ℕ → List ℕ
ljust zero cs = cs
ljust (suc k) [] = b'0' ∷ ljust k []
ljust (suc k) (c ∷ cs) = c ∷ ljust k cs

-- `_coefficient`
unfoldable pub coefficient : List ℕ → ℕ
coefficient cs = number 0 (before_point cs) * rate_scale + number 0 (ljust 8 (after_point cs))
