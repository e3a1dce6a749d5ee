-- ===== src/Models/FromDict.antt =====
-- `from_dict` of `ActionPolicy` and `ActiveTestingPolicy` of agentsec/models.py, over JSON values.
pub mod Laws
use nighwatch.Common.{
  ℕ, zero, suc, String, ◌<>◌, Bool, true, false, ◌||◌, not, Option, none, some, List, [], ◌∷◌,
  Result, ok, err, ◌>>=◌, ◌>>◌, raise_if, ltb, ◌==◌, if◌then◌else◌,
}
use nighwatch.Python.Int.{ℤ, pos, negsuc}
use nighwatch.Python.Json.{
  Json, null, bool, int, float, str, arr, tup, obj, Items, nil, item, Fields, end, field,
}
use nighwatch.Python.Runtime.{Runtime, an_int, value_error, overflow_error}
use nighwatch.Python.Str.{strip}
use nighwatch.Models.Policy.{ActionPolicy, ActiveTestingPolicy}

-- A `ConfigError`, or an exception that is not caught.
pub data ModelError : Type 0 where
  config : String → ModelError
  uncaught : String → ModelError

-- `raw.get(key)`
unfoldable pub get : {F : Type 0} → Fields F → String → Option (Json F)
get end key = none
get (field k v fs) key = if k == key then some v else get fs key

-- `_strict_bool(raw.get(key), name, default)`
unfoldable pub strict_bool : {F : Type 0} → Option (Json F) → String → Bool → Result ModelError Bool
strict_bool none name default = ok default
strict_bool (some null) name default = ok default
strict_bool (some (bool b)) name default = ok b
strict_bool (some v) name default = err (config (name <> " must be a boolean"))

-- The texts of a list of texts; `none` where the value is no such list.
unfoldable pub texts : {F : Type 0} → Items F → Option (List String)
texts nil = some []
texts (item (str s) vs) = elim (texts vs) [ none ↦ none | some ss ↦ some (s ∷ ss) ]
texts (item v vs) = none

-- `raw.get(key, default)` as a list of texts, and the message where it is none
unfoldable pub texts_or :
    {F : Type 0} → String → List String → Option (Json F) → Result ModelError (List String)
unfolding texts
texts_or message default none = ok default
texts_or message default (some (arr vs)) = elim (texts vs) [
  | none ↦ err (config message)
  | some ss ↦ ok ss
]
texts_or message default (some v) = err (config message)

-- A positive number within a bound.
unfoldable pub within : ℕ → ℤ → Option ℕ
within bound (pos zero) = none
within bound (pos (suc n)) = if ltb bound (suc n) then none else some (suc n)
within bound (negsuc n) = none

abbrev pub checked_within : ℕ → String → ℤ → Result ModelError ℕ
checked_within bound message n = elim (within bound n) [
  | none ↦ err (config message)
  | some m ↦ ok m
]

module _ (R : Runtime) where
  int_of_float : String → R.Float → Result ModelError ℤ
  int_of_float message x = elim (R.float_int x) [
    | an_int n ↦ ok n
    | value_error ↦ err (config message)
    | overflow_error ↦ err (uncaught "OverflowError")
  ]

  int_of_text : String → String → Result ModelError ℤ
  int_of_text message s = elim (R.text_int s) [ none ↦ err (config message) | some n ↦ ok n ]

  -- `int(raw.get(key, default))` under the handler of `TypeError` and `ValueError`
  unfoldable pub int_or : String → ℕ → Option (Json R.Float) → Result ModelError ℤ
  unfolding int_of_float int_of_text
  int_or message default none = ok (pos default)
  int_or message default (some (int n)) = ok n
  int_or message default (some (bool true)) = ok (pos 1)
  int_or message default (some (bool false)) = ok (pos 0)
  int_or message default (some (float x)) = int_of_float message x
  int_or message default (some (str s)) = int_of_text message s
  int_or message default (some null) = err (config message)
  int_or message default (some (arr vs)) = err (config message)
  int_or message default (some (tup vs)) = err (config message)
  int_or message default (some (obj fs)) = err (config message)

  float_of_int : ℤ → Result ModelError R.Float
  float_of_int n = elim (R.int_float n) [ none ↦ err (uncaught "OverflowError") | some x ↦ ok x ]

  float_of_text : String → String → Result ModelError R.Float
  float_of_text message s = elim (R.text_float s) [ none ↦ err (config message) | some x ↦ ok x ]

  -- `float(raw.get(key, default))` under the same handler
  unfoldable pub float_or : String → R.Float → Option (Json R.Float) → Result ModelError R.Float
  unfolding float_of_int float_of_text
  float_or message default none = ok default
  float_or message default (some (float x)) = ok x
  float_or message default (some (int n)) = float_of_int n
  float_or message default (some (bool true)) = ok (R.float 1)
  float_or message default (some (bool false)) = ok (R.float 0)
  float_or message default (some (str s)) = float_of_text message s
  float_or message default (some null) = err (config message)
  float_or message default (some (arr vs)) = err (config message)
  float_or message default (some (tup vs)) = err (config message)
  float_or message default (some (obj fs)) = err (config message)

  -- `str(v)`
  abbrev pub str_of : Json R.Float → String
  str_of (str s) = s
  str_of v = R.json_text v

  -- `str(raw.get(key, ""))`
  abbrev pub text_or_empty : Option (Json R.Float) → String
  text_or_empty none = ""
  text_or_empty (some v) = str_of v

  -- `bool(v)`
  unfoldable pub truthy : Json R.Float → Bool
  truthy null = false
  truthy (bool b) = b
  truthy (int (pos zero)) = false
  truthy (int (pos (suc n))) = true
  truthy (int (negsuc n)) = true
  truthy (float x) = R.float_bool x
  truthy (str s) = not (s == "")
  truthy (arr nil) = false
  truthy (arr (item v vs)) = true
  truthy (tup nil) = false
  truthy (tup (item v vs)) = true
  truthy (obj end) = false
  truthy (obj (field k v fs)) = true

  -- `raw or {}` where `raw` is used as a dictionary
  unfoldable pub dict_or_empty : Json R.Float → Result ModelError (Fields R.Float)
  dict_or_empty (obj fs) = ok fs
  dict_or_empty null = ok end
  dict_or_empty (bool false) = ok end
  dict_or_empty (bool true) = err (uncaught "AttributeError")
  dict_or_empty (int (pos zero)) = ok end
  dict_or_empty (int (pos (suc n))) = err (uncaught "AttributeError")
  dict_or_empty (int (negsuc n)) = err (uncaught "AttributeError")
  dict_or_empty (float x) = if R.float_bool x then err (uncaught "AttributeError") else ok end
  dict_or_empty (str s) = if s == "" then ok end else err (uncaught "AttributeError")
  dict_or_empty (arr nil) = ok end
  dict_or_empty (arr (item v vs)) = err (uncaught "AttributeError")
  dict_or_empty (tup nil) = ok end
  dict_or_empty (tup (item v vs)) = err (uncaught "AttributeError")

  -- `ActionPolicy.from_dict`
  unfoldable pub action_policy_from_dict : Json R.Float → Result ModelError ActionPolicy
  action_policy_from_dict value = do
    raw ← dict_or_empty value
    read_only ← strict_bool (get raw "read_only") "actions.read_only" true
    state_mutation ← strict_bool (get raw "state_mutation") "actions.state_mutation" false
    destructive ← strict_bool (get raw "destructive") "actions.destructive" false
    state_approval ←
        strict_bool (get raw "require_state_change_approval")
          "actions.require_state_change_approval" true
    destructive_approval ←
        strict_bool (get raw "require_destructive_approval") "actions.require_destructive_approval"
          true
    ok (record {
      read_only = read_only;
      state_mutation = state_mutation;
      destructive = destructive;
      require_state_change_approval = state_approval;
      require_destructive_approval = destructive_approval;
    })

  -- The checked and stripped `kill_switch_file`.
  unfoldable pub kill_switch_path : Option (Json R.Float) → Result ModelError (Option String)
  kill_switch_path none = ok none
  kill_switch_path (some null) = ok none
  kill_switch_path (some (str s)) =
      if strip s == ""
      then err (config "active_testing.kill_switch_file must be a non-empty string or null")
      else ok (some (strip s))
  kill_switch_path (some v) =
      err (config "active_testing.kill_switch_file must be a non-empty string or null")

  -- `ActiveTestingPolicy.from_dict`
  unfoldable pub active_testing_from_dict : Json R.Float → Result ModelError ActiveTestingPolicy
  active_testing_from_dict value = do
    raw ← dict_or_empty value
    enabled ← strict_bool (get raw "enabled") "active_testing.enabled" false
    payload ←
        int_or "active_testing limits contain an invalid numeric value" 8192
          (get raw "max_payload_bytes")
    cases ← int_or "active_testing limits contain an invalid numeric value" 25 (get raw "max_cases")
    max_payload_bytes ←
        checked_within 1048576 "active_testing.max_payload_bytes must be between 1 and 1048576"
          payload
    max_cases ← checked_within 10000 "active_testing.max_cases must be between 1 and 10000" cases
    path ← kill_switch_path (get raw "kill_switch_file")
    ok (record {
      enabled = enabled;
      max_payload_bytes = max_payload_bytes;
      max_cases = max_cases;
      kill_switch_file = path;
    })
