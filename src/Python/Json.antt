-- ===== src/Python/Json.antt =====
-- The values that `json.loads` returns and `json.dumps` takes, which writes a tuple as a list; `F` is
-- the type of floats.
use nighwatch.Common.{String, Bool, true, false, ◌&&◌, List, [], ◌∷◌}
use nighwatch.Python.Int.{ℤ}

mutual
  pub data Json (F : Type 0) : Type 0 where
    null : Json F
    bool : Bool → Json F
    int : ℤ → Json F
    float : F → Json F
    str : String → Json F
    arr : Items F → Json F
    tup : Items F → Json F
    obj : Fields F → Json F

  pub data Items (F : Type 0) : Type 0 where
    nil : Items F
    item : Json F → Items F → Items F

  pub data Fields (F : Type 0) : Type 0 where
    end : Fields F
    field : String → Json F → Fields F → Fields F

module _ {F : Type 0} where
  unfoldable pub items : List (Json F) → Items F
  items [] = nil
  items (v ∷ vs) = item v (items vs)

  unfoldable pub fields : List (String × Json F) → Fields F
  fields [] = end
  fields ((k, v) ∷ kvs) = field k v (fields kvs)

  -- What `json.loads` reads of what `json.dumps` has written.
  unfoldable mutual
    pub as_json : Json F → Json F
    as_json (arr vs) = arr (as_items vs)
    as_json (tup vs) = arr (as_items vs)
    as_json (obj fs) = obj (as_fields fs)
    as_json null = null
    as_json (bool b) = bool b
    as_json (int n) = int n
    as_json (float x) = float x
    as_json (str s) = str s

    pub as_items : Items F → Items F
    as_items nil = nil
    as_items (item v vs) = item (as_json v) (as_items vs)

    pub as_fields : Fields F → Fields F
    as_fields end = end
    as_fields (field k v fs) = field k (as_json v) (as_fields fs)

  -- Whether a value has a hash.
  unfoldable mutual
    pub hashable : Json F → Bool
    hashable (arr vs) = false
    hashable (obj fs) = false
    hashable (tup vs) = all_hashable vs
    hashable null = true
    hashable (bool b) = true
    hashable (int n) = true
    hashable (float x) = true
    hashable (str s) = true

    pub all_hashable : Items F → Bool
    all_hashable nil = true
    all_hashable (item v vs) = hashable v && all_hashable vs
