-- ===== src/Python/Dicts.antt =====
-- Dictionaries with string keys, as the list of their entries in order of insertion.
use nighwatch.Common.{String, Option, none, some, List, [], ◌∷◌, ◌==◌, if◌then◌else◌}

module _ {A : Type 0} where
  -- `d.get(key)`
  unfoldable pub lookup : List (String × A) → String → Option A
  lookup [] key = none
  lookup ((k, v) ∷ kvs) key = if k == key then some v else lookup kvs key

  -- `d[key] = value`
  unfoldable pub set_key : List (String × A) → String → A → List (String × A)
  set_key [] key value = (key, value) ∷ []
  set_key ((k, v) ∷ kvs) key value =
      if k == key then (k, value) ∷ kvs else (k, v) ∷ set_key kvs key value

  -- `d.update(other)`
  unfoldable pub update : List (String × A) → List (String × A) → List (String × A)
  update kvs [] = kvs
  update kvs ((k, v) ∷ more) = update (set_key kvs k v) more
