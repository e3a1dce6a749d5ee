-- ===== src/Python/DictLaws.antt =====
-- A property of all entries survives an update.
use nighwatch.Common.{String, List, [], ◌∷◌, ◌==◌, eq_iff, All, Bool-cases, inl, inr}
use nighwatch.Python.Dicts.{set_key, update}

module _ {A : Type 0} (P : String × A → Type 0) where
  pub set_key-All :
      (kvs : List (String × A)) (key : String) (value : A)
      → All P kvs
      → P (key, value)
      → All P (set_key kvs key value)
  unfolding set_key
  set_key-All [] key value h p = (p, tt)
  set_key-All ((k, v) ∷ kvs) key value h p = elim (Bool-cases (k == key)) [
    | inl same ↦ rw same (rw ((eq_iff k key).0 same) p, h.1)
    | inr other ↦ rw other (h.0, set_key-All kvs key value h.1 p)
  ]

  pub update-All : (kvs more : List (String × A)) → All P kvs → All P more → All P (update kvs more)
  unfolding update
  update-All kvs [] h p = h
  update-All kvs ((k, v) ∷ more) h p =
      update-All (set_key kvs k v) more (set_key-All kvs k v h p.0) p.1
