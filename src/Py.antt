-- ===== src/Py.antt =====
-- The values of the dynamic language that validators read: decoded JSON and what `isinstance` tells
-- apart. A tuple is told from a list; floats and every other object are opaque tags.
use doppel_agent.Prelude.{
  ℕ, String, Bool, ◌&&◌, List, [], ◌∷◌, Option, none, some, str_eq, if◌then◌else◌, mem, all,
}

mutual
  pub data Value : Type 0 where
    none_value : Value
    bool : Bool → Value
    str : String → Value
    int : ℕ → Value
    -- `negative n` is the integer -(n + 1)
    negative : ℕ → Value
    dict : Fields → Value
    list : Items → Value
    tuple : Items → Value
    opaque : ℕ → Value

  -- A dictionary with string keys, in insertion order.
  pub data Fields : Type 0 where
    end : Fields
    field : (key : String) (value : Value) (later : Fields) → Fields

  pub data Items : Type 0 where
    nil : Items
    cons : (first : Value) (others : Items) → Items

abbrev pub elements : Items → List Value
elements nil = []
elements (cons v vs) = v ∷ elements vs

abbrev pub keys : Fields → List String
keys end = []
keys (field k v rest) = k ∷ keys rest

-- `d.get(key)` with `none` for a missing key
abbrev pub get_field : String → Fields → Option Value
get_field key end = none
get_field key (field k v rest) =
    let later = get_field key rest in if str_eq k key then some v else later

-- `d.get(key, default)`
abbrev pub get_or : String → Value → Fields → Value
get_or key default d = elim (get_field key d) [ none ↦ default | some v ↦ v ]

-- `set(d) <= names`
abbrev pub keys_within : List String → Fields → Bool
keys_within names d = all (λ k. mem k names) (keys d)

-- `names <= set(d)`
abbrev pub has_keys : List String → Fields → Bool
has_keys names d = all (λ k. mem k (keys d)) names

-- `set(d) == names`
abbrev pub keys_are : List String → Fields → Bool
keys_are names d = keys_within names d && has_keys names d
