-- ===== src/Models/Origin/Laws.antt =====
-- What holds of every origin and of all limits that are accepted.
use nighwatch.Common.{
  ℕ, zero, suc, ◌≤◌, ◌<◌, String, false, not, Option, none, some, List, [], ◌∷◌, ◌≡◌, ◌≢◌, ◌⊎◌,
  refl, arith, All, ok, bind_ok, raise_if_ok, Bool-cases, inl, inr, eqb, ltb, contains,
  Option-cases, Result-cases, sym, ◌<>◌, eq_iff,
}
use nighwatch.Python.Int.{ℤ, pos, negsuc}
use nighwatch.Python.Json.{Json, null, bool, int, float, str, arr, tup, obj, nil, item, Fields}
use nighwatch.Python.Runtime.{Runtime}
use nighwatch.Models.Config.{ScopeOrigin}
use nighwatch.Models.FromDict.{
  config, get, texts_or, within, int_or, float_or, text_or_empty, dict_or_empty,
}
use nighwatch.Models.FromDict.Laws.{within_bounds}
use nighwatch.Models.Host.{normalize_host}
use nighwatch.Models.Policy.{RateLimits}
use nighwatch.Models.Origin.{
  add_nat, sort_nats, in_port_range, host_of, method_set, is_empty_list, port_numbers, ports_from,
  origin_from_fields, origin_from_dict, positive, limits_from_dict, invalid_limit,
}

-- Ascending without repetition.
abbrev pub IsAscending : List ℕ → Type 0
IsAscending [] = Unit
IsAscending (n ∷ []) = Unit
IsAscending (n ∷ m ∷ ms) = (n < m) × IsAscending (m ∷ ms)

add_nat_head :
    (n m : ℕ) (ms : List ℕ)
    → m < n
    → IsAscending (m ∷ ms)
    → IsAscending (add_nat n ms)
    → IsAscending (m ∷ add_nat n ms)
unfolding add_nat
add_nat_head n m [] lt h k = (lt, tt)
add_nat_head n m (j ∷ ms) lt h k = ground (arith, h, k)

IsAscending-tail : (m : ℕ) (ms : List ℕ) → IsAscending (m ∷ ms) → IsAscending ms
IsAscending-tail m [] h = tt
IsAscending-tail m (n ∷ ms) h = h.1

add_nat-IsAscending : (n : ℕ) (ms : List ℕ) → IsAscending ms → IsAscending (add_nat n ms)
unfolding add_nat
add_nat-IsAscending n [] h = tt
add_nat-IsAscending n (m ∷ ms) h = elim (Bool-cases (eqb n m)) [
  | inl same ↦ rw same h
  | inr other ↦ elim (Bool-cases (ltb n m)) [
    | inl less ↦ rw (other, less) (ground (arith, less), h)
    | inr more ↦
        rw (other, more)
          (add_nat_head n m ms (ground (arith, other, more)) h
            (add_nat-IsAscending n ms (IsAscending-tail m ms h)))
  ]
]

abbrev pub IsPort : ℕ → Type 0
IsPort n = (1 ≤ n) × (n ≤ 65535)

add_nat-All :
    (P : ℕ → Type 0) (n : ℕ) (ms : List ℕ)
    → P n
    → All P ms
    → All P (add_nat n ms) × (add_nat n ms ≢ [])
unfolding add_nat
add_nat-All P n [] p h = ((p, tt), λ e. ground (arith, e))
add_nat-All P n (m ∷ ms) p h = elim (Bool-cases (eqb n m)) [
  | inl same ↦ rw same (h, λ e. ground (arith, e))
  | inr other ↦ elim (Bool-cases (ltb n m)) [
    | inl less ↦ rw (other, less) ((p, h), λ e. ground (arith, e))
    | inr more ↦ rw (other, more) ((h.0, (add_nat-All P n ms p h.1).0), λ e. ground (arith, e))
  ]
]

in_port_range-IsPort :
    (ns : List ℤ) (ms : List ℕ)
    → in_port_range ns ≡ some ms
    → All IsPort ms × ((ms ≡ []) → (ns ≡ []))
unfolding in_port_range
in_port_range-IsPort [] ms e =
    let same : [] ≡ ms = ground (arith, e) in (rw (sym same) tt, λ h. refl)
in_port_range-IsPort (n ∷ ns) ms e = elim (Option-cases (within 65535 n)) [
  | inl p ↦ ground (arith, e, p)
  | inr (m, p) ↦ elim (Option-cases (in_port_range ns)) [
    | inl q ↦ ground (arith, e, p, q)
    | inr (rest, q) ↦
        let same : m ∷ rest ≡ ms = ground (arith, e, p, q) in
        let all = (in_port_range-IsPort ns rest q).0 in
        (rw (sym same) (within_bounds 65535 m n p, all), λ h. ground (arith, same, h))
  ]
]

sort_nats_keeps :
    (P : ℕ → Type 0) (ns : List ℕ) → All P ns → All P (sort_nats ns) × IsAscending (sort_nats ns)
unfolding sort_nats
sort_nats_keeps P [] h = (tt, tt)
sort_nats_keeps P (n ∷ ns) h =
    let (all, ascending) = sort_nats_keeps P ns h.1 in
    ((add_nat-All P n (sort_nats ns) h.0 all).0, add_nat-IsAscending n (sort_nats ns) ascending)

sort_nats_some : (ns : List ℕ) → ns ≢ [] → sort_nats ns ≢ []
unfolding sort_nats
sort_nats_some [] h = absurd (h refl)
sort_nats_some (n ∷ ns) h = (add_nat-All (λ m. Unit) n (sort_nats ns) tt (units (sort_nats ns))).1
  where
    units : (ms : List ℕ) → All (λ m. Unit {0}) ms
    units [] = tt
    units (m ∷ ms) = (tt, units ms)

-- A list of ports as it is kept.
abbrev pub IsPorts : List ℕ → Type 0
IsPorts ms = All IsPort ms × IsAscending ms × (ms ≢ [])

module _ (R : Runtime) where
  ports_from-IsPorts :
      (host : String) (v : Option (Json R.Float)) (ms : List ℕ)
      → ports_from R host v ≡ ok ms
      → IsPorts ms
  unfolding ports_from port_numbers
  ports_from-IsPorts host none ms e = ground (arith, e)
  ports_from-IsPorts host (some null) ms e = ground (arith, e)
  ports_from-IsPorts host (some (bool b)) ms e = ground (arith, e)
  ports_from-IsPorts host (some (int n)) ms e = ground (arith, e)
  ports_from-IsPorts host (some (float x)) ms e = ground (arith, e)
  ports_from-IsPorts host (some (str s)) ms e = ground (arith, e)
  ports_from-IsPorts host (some (obj fs)) ms e = ground (arith, e)
  ports_from-IsPorts host (some (arr nil)) ms e = ground (arith, e)
  ports_from-IsPorts host (some (tup vs)) ms e = ground (arith, e)
  ports_from-IsPorts host (some (arr (item v vs))) ms e =
      let (ns, p, e1) =
        bind_ok (port_numbers R ("invalid ports for " <> host) (item v vs)) _ ms e in
      let (n, q, p1) = bind_ok (int_or R ("invalid ports for " <> host) 0 (some v)) _ ns p in
      let (rest, t, p2) = bind_ok (port_numbers R ("invalid ports for " <> host) vs) _ ns p1 in
      elim (Option-cases (in_port_range ns)) [
        | inl u ↦ ground (arith, e1, u)
        | inr (kept, u) ↦
            let same : sort_nats kept ≡ ms = ground (arith, e1, u) in
            let (all, some_port) = in_port_range-IsPort ns kept u in
            let (sorted, ascending) = sort_nats_keeps IsPort kept all in
            let good : IsPorts (sort_nats kept) =
              (sorted, ascending, sort_nats_some kept (λ h. ground (arith, some_port h, p2))) in
            rw same at good
      ]

  -- An origin as it is kept.
  pub record IsOrigin (o : ScopeOrigin) : Type 0 where
    pub given : String
    pub web : (o.scheme ≡ "http") ⊎ (o.scheme ≡ "https")
    pub normal_host : normalize_host R given ≡ ok o.host
    pub good_ports : IsPorts o.ports
    pub some_method : o.methods ≢ []

  origin_from_fields-IsOrigin :
      (raw : Fields R.Float) (o : ScopeOrigin) → origin_from_fields R raw ≡ ok o → IsOrigin o
  unfolding origin_from_fields contains
  origin_from_fields-IsOrigin raw o e =
      let scheme = R.lower (text_or_empty R (get raw "scheme")) in
      let given = text_or_empty R (get raw "host") in
      let (web, e1) =
        raise_if_ok (not (contains ("http" ∷ "https" ∷ []) scheme))
          (config "allowed origin scheme must be http or https") _ o e in
      let (host, p, e2) = bind_ok (host_of R given) _ o e1 in
      let (ports, q, e3) = bind_ok (ports_from R host (get raw "ports")) _ o e2 in
      let (prefixes, r, e4) =
        bind_ok
          (texts_or ("path_prefixes for " <> host <> " must be a list of strings") ("/" ∷ [])
            (get raw "path_prefixes"))
          _ o e3 in
      let (methods, s, e5) =
        bind_ok
          (texts_or ("methods for " <> host <> " must be a list of strings") ("GET" ∷ [])
            (get raw "methods"))
          _ o e4 in
      let (some_method, e6) =
        raise_if_ok (is_empty_list (method_set R methods))
          (config ("methods for " <> host <> " cannot be empty")) _ o e5 in
      record {
        given = given;
        web = ground (arith, web, e6, eq_iff "http" scheme, eq_iff "https" scheme);
        normal_host = elim (Result-cases (normalize_host R given)) [
          | inl (h, t) ↦ ground (arith, t, p, e6)
          | inr (message, t) ↦ ground (arith, t, p)
        ];
        good_ports =
            let same : ports ≡ o.ports = ground (arith, e6) in
            rw same at (ports_from-IsPorts host (get raw "ports") ports q);
        some_method = λ h. ground (arith, some_method, e6, h);
      }

  -- An accepted origin has scheme http or https, a normalised host, at least one port, all between 1
  -- and 65535 and ascending, and at least one method.
  pub origin_from_dict-IsOrigin :
      (v : Json R.Float) (o : ScopeOrigin) → origin_from_dict R v ≡ ok o → IsOrigin o
  unfolding origin_from_dict
  origin_from_dict-IsOrigin (obj fs) o e = origin_from_fields-IsOrigin fs o e
  origin_from_dict-IsOrigin v o e = ground (arith, e)

  -- Limits as they are kept.
  abbrev pub IsLimits : RateLimits R → Type 0
  IsLimits l =
      (R.float_le l.requests_per_second (R.float 0) ≡ false)
      × (1 ≤ l.max_requests)
      × (1 ≤ l.max_concurrent_requests)
      × (R.float_lt l.max_cost_usd (R.float 0) ≡ false)

  positive_ok : (message : String) (n : ℤ) (m : ℕ) → positive message n ≡ ok m → 1 ≤ m
  unfolding positive
  positive_ok message (pos zero) m e = ground (arith, e)
  positive_ok message (pos (suc n)) m e = ground (arith, e)
  positive_ok message (negsuc n) m e = ground (arith, e)

  pub limits_from_dict-IsLimits :
      (v : Json R.Float) (l : RateLimits R) → limits_from_dict R v ≡ ok l → IsLimits l
  unfolding limits_from_dict
  limits_from_dict-IsLimits v l e =
      let (raw, p0, e0) = bind_ok (dict_or_empty R v) _ l e in
      let (rate, p1, e1) =
        bind_ok (float_or R invalid_limit (R.float 1) (get raw "requests_per_second")) _ l e0 in
      let (requests, p2, e2) =
        bind_ok (int_or R invalid_limit 100 (get raw "max_requests")) _ l e1 in
      let (concurrent, p3, e3) =
        bind_ok (int_or R invalid_limit 1 (get raw "max_concurrent_requests")) _ l e2 in
      let (cost, p4, e4) =
        bind_ok (float_or R invalid_limit (R.float 1) (get raw "max_cost_usd")) _ l e3 in
      let (some_rate, e5) =
        raise_if_ok (R.float_le rate (R.float 0))
          (config "requests_per_second must be greater than zero") _ l e4 in
      let (max_requests, p6, e6) =
        bind_ok (positive "max_requests must be greater than zero" requests) _ l e5 in
      let (max_concurrent, p7, e7) =
        bind_ok (positive "max_concurrent_requests must be greater than zero" concurrent) _ l e6 in
      let (some_cost, e8) =
        raise_if_ok (R.float_lt cost (R.float 0)) (config "max_cost_usd cannot be negative") _ l
          e7 in
      (
        ground (arith, some_rate, e8),
        ground (arith, positive_ok _ requests max_requests p6, e8),
        ground (arith, positive_ok _ concurrent max_concurrent p7, e8),
        ground (arith, some_cost, e8),
      )
