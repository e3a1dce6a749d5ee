-- ===== src/Models/Origin.antt =====
-- `ScopeOrigin.from_dict` and `RateLimits.from_dict` of agentsec/models.py.
pub mod Laws
pub mod RoundTrip
use nighwatch.Common.{
  ℕ, zero, suc, String, ◌<>◌, Bool, true, false, ◌||◌, not, Option, none, some, List, [], ◌∷◌,
  Result, ok, err, ◌>>=◌, ◌>>◌, raise_if, ltb, eqb, map, ◌==◌, contains, if◌then◌else◌,
}
use nighwatch.Python.Int.{ℤ, pos, negsuc}
use nighwatch.Python.Json.{
  Json, null, bool, int, float, str, arr, obj, Items, nil, item, Fields, end, field,
}
use nighwatch.Python.Runtime.{Runtime}
use nighwatch.Python.Sets.{update_set}
use nighwatch.Models.Config.{ScopeOrigin}
use nighwatch.Models.FromDict.{
  ModelError, config, uncaught, get, texts_or, within, checked_within, int_or, float_or,
  text_or_empty, dict_or_empty,
}
use nighwatch.Models.Host.{normalize_host}
use nighwatch.Models.Policy.{RateLimits}

-- A number into a sorted set.
unfoldable pub add_nat : ℕ → List ℕ → List ℕ
add_nat n [] = n ∷ []
add_nat n (m ∷ ms) = if eqb n m then m ∷ ms else if ltb n m then n ∷ m ∷ ms else m ∷ add_nat n ms

-- `tuple(sorted(set(ns)))`
unfoldable pub sort_nats : List ℕ → List ℕ
unfolding add_nat
sort_nats [] = []
sort_nats (n ∷ ns) = add_nat n (sort_nats ns)

-- The numbers, if each lies between 1 and 65535.
unfoldable pub in_port_range : List ℤ → Option (List ℕ)
unfolding within
in_port_range [] = some []
in_port_range (n ∷ ns) = elim (within 65535 n) [
  | none ↦ none
  | some m ↦ elim (in_port_range ns) [ none ↦ none | some ms ↦ some (m ∷ ms) ]
]

-- A number that must be positive.
unfoldable pub positive : String → ℤ → Result ModelError ℕ
positive message (pos (suc n)) = ok (suc n)
positive message (pos zero) = err (config message)
positive message (negsuc n) = err (config message)

abbrev invalid_limit : String
invalid_limit = "limits contain an invalid numeric value"

-- `normalize_host`, whose `ConfigError` passes on.
abbrev pub host_of : (R : Runtime) → String → Result ModelError String
host_of R host = elim (normalize_host R host) [ err message ↦ err (config message) | ok h ↦ ok h ]

abbrev pub upper_all : (R : Runtime) → List String → List String
upper_all R ms = map R.upper ms

-- `tuple(sorted({item.upper() for item in methods_raw}))`
unfoldable pub method_set : (R : Runtime) → List String → List String
method_set R ms = update_set (λ s. s) [] (upper_all R ms)

abbrev pub is_empty_list : {A : Type 0} → List A → Bool
is_empty_list [] = true
is_empty_list (x ∷ xs) = false

module _ (R : Runtime) where
  -- `{int(port) for port in ports_raw}`, before it is a set
  unfoldable pub port_numbers : String → Items R.Float → Result ModelError (List ℤ)
  port_numbers message nil = ok []
  port_numbers message (item v vs) = do
    n ← int_or R message 0 (some v)
    ns ← port_numbers message vs
    ok (n ∷ ns)

  -- The ports of the host.
  unfoldable pub ports_from : String → Option (Json R.Float) → Result ModelError (List ℕ)
  unfolding port_numbers in_port_range sort_nats
  ports_from host (some (arr (item v vs))) = do
    ns ← port_numbers ("invalid ports for " <> host) (item v vs)
    elim (in_port_range ns) [
      | none ↦ err (config ("invalid port for " <> host))
      | some ms ↦ ok (sort_nats ms)
    ]
  ports_from host v = err (config ("allowed origin " <> host <> " must declare at least one port"))

  unfoldable pub origin_from_fields : Fields R.Float → Result ModelError ScopeOrigin
  origin_from_fields raw = do
    let scheme = R.lower (text_or_empty R (get raw "scheme"))
    raise_if (not (contains ("http" ∷ "https" ∷ []) scheme))
        (config "allowed origin scheme must be http or https")
    host ← host_of R (text_or_empty R (get raw "host"))
    ports ← ports_from host (get raw "ports")
    prefixes ←
        texts_or ("path_prefixes for " <> host <> " must be a list of strings") ("/" ∷ [])
          (get raw "path_prefixes")
    given ←
        texts_or ("methods for " <> host <> " must be a list of strings") ("GET" ∷ [])
          (get raw "methods")
    let methods = method_set R given
    raise_if (is_empty_list methods) (config ("methods for " <> host <> " cannot be empty"))
    ok (record {
      scheme = scheme;
      host = host;
      ports = ports;
      path_prefixes = prefixes;
      methods = methods;
    })

  -- `ScopeOrigin.from_dict`
  unfoldable pub origin_from_dict : Json R.Float → Result ModelError ScopeOrigin
  unfolding origin_from_fields
  origin_from_dict (obj raw) = origin_from_fields raw
  origin_from_dict v = err (config "each allowed origin must be an object")

  -- `RateLimits.from_dict`
  unfoldable pub limits_from_dict : Json R.Float → Result ModelError (RateLimits R)
  unfolding positive
  limits_from_dict value = do
    raw ← dict_or_empty R value
    rate ← float_or R invalid_limit (R.float 1) (get raw "requests_per_second")
    requests ← int_or R invalid_limit 100 (get raw "max_requests")
    concurrent ← int_or R invalid_limit 1 (get raw "max_concurrent_requests")
    cost ← float_or R invalid_limit (R.float 1) (get raw "max_cost_usd")
    raise_if (R.float_le rate (R.float 0)) (config "requests_per_second must be greater than zero")
    max_requests ← positive "max_requests must be greater than zero" requests
    max_concurrent ← positive "max_concurrent_requests must be greater than zero" concurrent
    raise_if (R.float_lt cost (R.float 0)) (config "max_cost_usd cannot be negative")
    ok (record {
      requests_per_second = rate;
      max_requests = max_requests;
      max_concurrent_requests = max_concurrent;
      max_cost_usd = cost;
    })
