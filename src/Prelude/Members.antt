-- ===== src/Prelude/Members.antt =====
-- Python sets and membership tests over strings, kept as lists without repetition.
use Prim.Native.Nat.{suc, ◌≤◌}
use Prim.Native.String.{String}
use mathlib.Core.Path.{◌≡◌, refl, subst}
use mathlib.Core.Logic.{inl, inr}
use mathlib.Core.Bool.{Bool, true, false, ◌&&◌, ◌||◌, not, false≢true}
use mathlib.Core.List.{List, [], ◌∷◌, ◌++◌}
use native.Mathlib.Omega.{arith}
use text.Mathlib.Text.{◌==◌ as str_eq}
use text.Mathlib.TextEquality.{eq_iff}
use doppel_agent.Prelude.Tests.{if◌then◌else◌, Bool-cases}
use doppel_agent.Prelude.Lists.{length, all, All, All-map}

-- `x in xs`
unfoldable pub mem : String → List String → Bool
mem x [] = false
mem x (y ∷ ys) = str_eq y x || mem x ys

-- `len(set(xs)) == len(xs)`
unfoldable pub distinct : List String → Bool
unfolding mem
distinct [] = true
distinct (x ∷ xs) = not (mem x xs) && distinct xs

unfoldable pub remove : String → List String → List String
remove x [] = []
remove x (y ∷ ys) = let rest = remove x ys in if str_eq y x then ys else y ∷ rest

-- The elements of `xs` that stand before the first `x`, all of them where there is no `x`.
unfoldable pub before : String → List String → List String
before x [] = []
before x (y ∷ ys) = let rest = before x ys in if str_eq y x then [] else y ∷ rest

pub mem-append : (x : String) (xs ys : List String) → mem x (xs ++ ys) ≡ (mem x xs || mem x ys)
unfolding mem
mem-append x [] ys = refl
mem-append x (y ∷ xs) ys = ground (arith, mem-append x xs ys)

pub mem-append_left : (x : String) (xs ys : List String) → mem x xs ≡ true → mem x (xs ++ ys) ≡ true
mem-append_left x xs ys h = ground (arith, mem-append x xs ys)

pub mem-cons_self : (x : String) (xs : List String) → mem x (x ∷ xs) ≡ true
unfolding mem
mem-cons_self x xs = ground (arith, eq_iff x x)

pub before-append_mem :
    (x : String) (xs ys : List String) → mem x xs ≡ true → before x (xs ++ ys) ≡ before x xs
unfolding mem before
before-append_mem x [] ys h = ground arith
before-append_mem x (y ∷ xs) ys h = ground (arith, before-append_mem x xs ys)

pub before-append_other :
    (x : String) (xs ys : List String) → mem x xs ≡ false → before x (xs ++ ys) ≡ xs ++ before x ys
unfolding mem before
before-append_other x [] ys h = refl
before-append_other x (y ∷ xs) ys h = ground (arith, before-append_other x xs ys)

pub mem-remove :
    (x y : String) (ys : List String)
    → mem y ys ≡ true
    → str_eq x y ≡ false
    → mem y (remove x ys) ≡ true
unfolding mem remove
mem-remove x y [] h e = ground arith
mem-remove x y (z ∷ zs) h e = ground (arith, eq_iff z x, eq_iff z y, eq_iff x y, mem-remove x y zs)

pub length-remove :
    (x : String) (ys : List String) → mem x ys ≡ true → length ys ≡ suc (length (remove x ys))
unfolding mem remove
length-remove x [] h = ground arith
length-remove x (y ∷ ys) h = ground (arith, length-remove x ys)

-- Every element of `xs` is an element of `ys`.
abbrev pub Within : List String → List String → Type 0
Within xs ys = All (λ x. mem x ys ≡ true) xs

Within-remove :
    (x : String) (xs ys : List String) → mem x xs ≡ false → Within xs ys → Within xs (remove x ys)
unfolding mem
Within-remove x [] ys h w = tt
Within-remove x (z ∷ zs) ys h w = (
  mem-remove x z ys w.0 (ground (arith, eq_iff z x, eq_iff x z)),
  Within-remove x zs ys (ground arith) w.1,
)

-- Distinct elements of a list are at most as many as the list has.
pub distinct-length-le :
    (xs ys : List String) → distinct xs ≡ true → Within xs ys → length xs ≤ length ys
unfolding distinct
distinct-length-le [] ys d w = omega arith
distinct-length-le (x ∷ xs) ys d w =
    let shorter : length xs ≤ length (remove x ys) =
      distinct-length-le xs (remove x ys) (ground arith)
        (Within-remove x xs ys (ground arith) w.1) in
    omega (arith, shorter, length-remove x ys w.0)

-- Distinct elements of a list that are as many as the list has are all of them.
pub distinct-covers :
    (xs ys : List String) (y : String)
    → distinct xs ≡ true
    → Within xs ys
    → length ys ≤ length xs
    → mem y ys ≡ true
    → mem y xs ≡ true
unfolding distinct
distinct-covers xs ys y d w long h = elim (Bool-cases (mem y xs)) [
  | inl here ↦ here
  | inr out ↦ absurd (omega (arith, distinct-length-le (y ∷ xs) ys (rw (out, d) refl) (h, w)))
]

pub Within-weaken : (xs ys : List String) (y : String) → Within xs ys → Within xs (y ∷ ys)
unfolding mem
Within-weaken [] ys y w = tt
Within-weaken (x ∷ xs) ys y w = (ground (arith, w.0), Within-weaken xs ys y w.1)

pub distinct-append :
    (xs ys : List String)
    → distinct xs ≡ true
    → distinct ys ≡ true
    → All (λ y. mem y xs ≡ false) ys
    → distinct (xs ++ ys) ≡ true
unfolding distinct mem
distinct-append [] ys dx dy away = dy
distinct-append (x ∷ xs) ys dx dy away = ground (
  arith,
  mem-append x xs ys,
  apart x ys (All-map ys (λ y h. ground (arith, h)) away),
  distinct-append xs ys (ground arith) dy (All-map ys (λ y h. ground (arith, h)) away),
)
  where
    apart : (x : String) (ys : List String) → All (λ y. str_eq x y ≡ false) ys → mem x ys ≡ false
    apart x [] h = refl
    apart x (y ∷ ys) h = ground (arith, eq_iff x y, eq_iff y x, apart x ys h.1)

-- Membership of each of `ds` in `xs` survives what is put behind `xs`.
pub all-mem-append :
    (ds xs ys : List String) → all (λ d. mem d xs) ds ≡ true → all (λ d. mem d (xs ++ ys)) ds ≡ true
all-mem-append [] xs ys h = refl
all-mem-append (d ∷ ds) xs ys h = ground (arith, mem-append d xs ys, all-mem-append ds xs ys)

-- What holds of every element of `ys` holds of a member.
pub All-mem {κ} :
    (P : String → Type κ) (ys : List String) (x : String) → All P ys → mem x ys ≡ true → P x
unfolding mem
All-mem P [] x h m = absurd (false≢true m)
All-mem P (y ∷ ys) x h m = elim (Bool-cases (str_eq y x)) [
  | inl same ↦ subst P ((eq_iff y x).0 same) h.0
  | inr other ↦ All-mem P ys x h.1 (ground (arith, other))
]

pub Within-refl : (xs : List String) → Within xs xs
Within-refl [] = tt
Within-refl (x ∷ xs) = (mem-cons_self x xs, Within-weaken xs xs x (Within-refl xs))

pub Within-of :
    (xs ys : List String) → ((x : String) → mem x xs ≡ true → mem x ys ≡ true) → Within xs ys
unfolding mem
Within-of [] ys f = tt
Within-of (x ∷ xs) ys f =
    (f x (ground (arith, eq_iff x x)), Within-of xs ys (λ y h. f y (ground (arith, h))))
