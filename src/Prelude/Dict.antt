-- ===== src/Prelude/Dict.antt =====
-- Dictionaries with string keys, in insertion order.
use mathlib.Core.Path.{◌≡◌, refl}
use mathlib.Core.Bool.{true}
use mathlib.Core.Option.{Option, none, some}
use mathlib.Core.List.{List, [], ◌∷◌}
use Prim.Native.Nat.{suc, ◌≤◌}
use Prim.Native.String.{String}
use native.Mathlib.Omega.{arith}
use text.Mathlib.Text.{◌==◌ as str_eq}
use text.Mathlib.TextEquality.{eq_iff}
use doppel_agent.Prelude.Lists.{length}
use mathlib.Core.Bool.{not, ◌&&◌, ◌||◌}
use doppel_agent.Prelude.Tests.{if◌then◌else◌}
unfoldable use doppel_agent.Prelude.Members.{mem, distinct}

module _ {A : Type 0} where
  -- `d.get(k)`
  unfoldable pub lookup : String → List (String × A) → Option A
  lookup k [] = none
  lookup k ((key, v) ∷ rest) = let later = lookup k rest in if str_eq key k then some v else later

  -- `d[k] = v`
  unfoldable pub assign : String → A → List (String × A) → List (String × A)
  assign k v [] = (k, v) ∷ []
  assign k v ((key, w) ∷ rest) =
      let later = assign k v rest in if str_eq key k then (key, v) ∷ rest else (key, w) ∷ later

  -- `d.pop(k, None)`
  unfoldable pub pop : String → List (String × A) → List (String × A)
  pop k [] = []
  pop k ((key, w) ∷ rest) =
      let later = pop k rest in if str_eq key k then later else (key, w) ∷ later

  pub lookup-assign :
      (k l : String) (v : A) (d : List (String × A))
      → lookup l (assign k v d) ≡ (if str_eq k l then some v else lookup l d)
  unfolding lookup assign
  lookup-assign k l v [] = refl
  lookup-assign k l v ((key, w) ∷ rest) =
      ground (arith, eq_iff key k, eq_iff key l, eq_iff k l, lookup-assign k l v rest)

  pub lookup-pop :
      (k l : String) (d : List (String × A))
      → lookup l (pop k d) ≡ (if str_eq k l then none else lookup l d)
  unfolding lookup pop
  lookup-pop k l [] = ground arith
  lookup-pop k l ((key, w) ∷ rest) =
      ground (arith, eq_iff key k, eq_iff key l, eq_iff k l, lookup-pop k l rest)

  pub length-assign_le :
      (k : String) (v : A) (d : List (String × A)) → length (assign k v d) ≤ suc (length d)
  unfolding assign
  length-assign_le k v [] = omega arith
  length-assign_le k v ((key, w) ∷ rest) = ground (arith, length-assign_le k v rest)

  pub length-pop_le : (k : String) (d : List (String × A)) → length (pop k d) ≤ length d
  unfolding pop
  length-pop_le k [] = omega arith
  length-pop_le k ((key, w) ∷ rest) = ground (arith, length-pop_le k rest)

  -- Popping a key that is there shortens the dictionary.
  pub length-pop :
      (k : String) (v : A) (d : List (String × A))
      → lookup k d ≡ some v
      → suc (length (pop k d)) ≤ length d
  unfolding lookup pop
  length-pop k v [] h = absurd (ground arith)
  length-pop k v ((key, w) ∷ rest) h = ground (arith, length-pop k v rest, length-pop_le k rest)

  unfoldable pub names : List (String × A) → List String
  names [] = []
  names ((key, v) ∷ rest) = key ∷ names rest

  pub mem-names-assign :
      (k l : String) (v : A) (d : List (String × A))
      → mem l (names (assign k v d)) ≡ (str_eq k l || mem l (names d))
  unfolding mem names assign
  mem-names-assign k l v [] = ground (arith, eq_iff k l, eq_iff l k)
  mem-names-assign k l v ((key, w) ∷ rest) = ground (
    arith,
    eq_iff key k,
    eq_iff key l,
    eq_iff k l,
    eq_iff l k,
    eq_iff l key,
    mem-names-assign k l v rest,
  )

  pub mem-names-pop :
      (k l : String) (d : List (String × A))
      → mem l (names (pop k d)) ≡ (not (str_eq k l) && mem l (names d))
  unfolding mem names pop
  mem-names-pop k l [] = ground arith
  mem-names-pop k l ((key, w) ∷ rest) = ground (
    arith,
    eq_iff key k,
    eq_iff key l,
    eq_iff k l,
    eq_iff l k,
    eq_iff l key,
    mem-names-pop k l rest,
  )

  pub distinct-names-assign :
      (k : String) (v : A) (d : List (String × A))
      → distinct (names d) ≡ true
      → distinct (names (assign k v d)) ≡ true
  unfolding mem distinct names assign
  distinct-names-assign k v [] h = ground arith
  distinct-names-assign k v ((key, w) ∷ rest) h = ground (
    arith,
    h,
    eq_iff key k,
    eq_iff k key,
    mem-names-assign k key v rest,
    distinct-names-assign k v rest,
  )

  pub distinct-names-pop :
      (k : String) (d : List (String × A))
      → distinct (names d) ≡ true
      → distinct (names (pop k d)) ≡ true
  unfolding mem distinct names pop
  distinct-names-pop k [] h = ground arith
  distinct-names-pop k ((key, w) ∷ rest) h =
      ground (arith, h, mem-names-pop k key rest, distinct-names-pop k rest)

  pub length-names : (d : List (String × A)) → length (names d) ≡ length d
  unfolding names
  length-names [] = refl
  length-names ((key, v) ∷ rest) = omega (arith, length-names rest)
