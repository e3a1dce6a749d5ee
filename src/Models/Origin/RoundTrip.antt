-- ===== src/Models/Origin/RoundTrip.antt =====
-- What JSON makes of the dictionary of an origin, and its reading.
use nighwatch.Common.{
  ℕ, zero, suc, String, ◌<>◌, true, false, some, List, [], ◌∷◌, ◌≡◌, ◌≢◌, refl, arith, All, ok, err,
  eq_iff, map, contains,
}
use nighwatch.Python.Int.{pos}
use nighwatch.Python.Json.{str, int, arr, items, fields, as_json, as_items, as_fields}
use nighwatch.Python.Runtime.{Runtime}
use nighwatch.Python.Str.{strip}
use nighwatch.Models.Config.{ScopeOrigin, origin_dict, strs}
use nighwatch.Models.FromDict.{ModelError, config, get, texts, texts_or, within, int_or}
use nighwatch.Models.Host.{normalize_host}
use nighwatch.Models.Origin.{
  add_nat, sort_nats, in_port_range, method_set, host_of, port_numbers, ports_from,
  origin_from_fields, origin_from_dict, is_empty_list,
}
use nighwatch.Models.Origin.Laws.{IsAscending, IsPort, IsPorts}
use nighwatch.Models.Engagement.{stripped, origins_from}

pub texts-map : (F : Type 0) (ss : List String) → texts {F = F} (items (map str ss)) ≡ some ss
unfolding texts items
texts-map F [] = refl
texts-map F (s ∷ ss) = ground (arith, texts-map F ss)

pub as_items-strs :
    (F : Type 0) (ss : List String) → as_items {F = F} (items (map str ss)) ≡ items (map str ss)
unfolding as_items items
as_items-strs F [] = refl
as_items-strs F (s ∷ ss) = ground (arith, as_items-strs F ss)

as_items-ints :
    (F : Type 0) (ns : List ℕ)
    → as_items {F = F} (items (map (λ n. int (pos n)) ns)) ≡ items (map (λ n. int (pos n)) ns)
unfolding as_items items
as_items-ints F [] = refl
as_items-ints F (n ∷ ns) = ground (arith, as_items-ints F ns)

add_nat_least : (n : ℕ) (ms : List ℕ) → IsAscending (n ∷ ms) → add_nat n ms ≡ n ∷ ms
unfolding add_nat
add_nat_least n [] h = refl
add_nat_least n (m ∷ ms) h = ground (arith, h.0)

sort_nats_sorted : (ns : List ℕ) → IsAscending ns → sort_nats ns ≡ ns
unfolding sort_nats
sort_nats_sorted [] h = refl
sort_nats_sorted (n ∷ []) h = unfold add_nat in refl
sort_nats_sorted (n ∷ m ∷ ms) h =
    ground (arith, sort_nats_sorted (m ∷ ms) h.1, add_nat_least n (m ∷ ms) h)

in_port_range-map : (ns : List ℕ) → All IsPort ns → in_port_range (map pos ns) ≡ some ns
unfolding in_port_range within
in_port_range-map [] h = refl
in_port_range-map (zero ∷ ns) h = ground (arith, h.0)
in_port_range-map (suc n ∷ ns) h = ground (arith, h.0, in_port_range-map ns h.1)

-- A text that `strip` leaves alone, and not empty.
abbrev pub IsTrim : String → Type 0
IsTrim s = (strip s ≡ s) × (s ≢ "")

pub stripped_trim : (ss : List String) → All IsTrim ss → stripped ss ≡ ss
unfolding stripped
stripped_trim [] h = refl
stripped_trim (s ∷ ss) h = ground (arith, h.0.0, h.0.1, eq_iff s "", stripped_trim ss h.1)

is_empty_list_not : (xs : List String) → xs ≢ [] → is_empty_list xs ≡ false
is_empty_list_not [] h = absurd (h refl)
is_empty_list_not (x ∷ xs) h = refl

module _ (R : Runtime) where
  -- A host that normalisation leaves alone.
  abbrev pub IsNormalHost : String → Type 0
  IsNormalHost host = normalize_host R host ≡ ok host

  -- An origin that reading leaves alone.
  pub record IsNormalOrigin (o : ScopeOrigin) : Type 0 where
    pub web : contains ("http" ∷ "https" ∷ []) o.scheme ≡ true
    pub lower_scheme : R.lower o.scheme ≡ o.scheme
    pub host : IsNormalHost o.host
    pub ports : IsPorts o.ports
    pub methods : method_set R o.methods ≡ o.methods
    pub some_method : o.methods ≢ []

  port_numbers-map :
      (message : String) (ns : List ℕ)
      → port_numbers R message (items (map (λ n. int (pos n)) ns)) ≡ ok (map pos ns)
  unfolding port_numbers items int_or
  port_numbers-map message [] = refl
  port_numbers-map message (n ∷ ns) = ground (arith, port_numbers-map message ns)

  ports_from-map :
      (host : String) (ns : List ℕ)
      → IsPorts ns
      → ports_from R host (some (arr (items (map (λ n. int (pos n)) ns)))) ≡ ok ns
  unfolding ports_from items
  ports_from-map host [] (range, ascending, some_port) = absurd (some_port refl)
  ports_from-map host (n ∷ ns) (range, ascending, some_port) = ground (
    arith,
    port_numbers-map ("invalid ports for " <> host) (n ∷ ns),
    in_port_range-map (n ∷ ns) range,
    sort_nats_sorted (n ∷ ns) ascending,
  )

  pub strs_text :
      (message : String) (default ss : List String)
      → texts_or message default (some (strs {F = R.Float} ss)) ≡ ok ss
  unfolding texts_or
  strs_text message default ss = ground (arith, texts-map R.Float ss)

  origin_round_trip :
      (o : ScopeOrigin) → IsNormalOrigin o → origin_from_dict R (as_json (origin_dict o)) ≡ ok o
  unfolding origin_from_dict origin_from_fields origin_dict fields get as_json as_fields
  origin_round_trip o h =
      let read_host : host_of R o.host ≡ ok o.host = ground (arith, h.host) in
      let ports = ports_from-map o.host o.ports h.ports in
      let prefixes =
        strs_text ("path_prefixes for " <> o.host <> " must be a list of strings") ("/" ∷ [])
          o.path_prefixes in
      let methods =
        strs_text ("methods for " <> o.host <> " must be a list of strings") ("GET" ∷ [])
          o.methods in
      let some : is_empty_list o.methods ≡ false = is_empty_list_not o.methods h.some_method in
      rw
        (
          h.lower_scheme,
          h.web,
          read_host,
          as_items-ints R.Float o.ports,
          as_items-strs R.Float o.path_prefixes,
          as_items-strs R.Float o.methods,
          ports,
          prefixes,
          methods,
          h.methods,
          some,
        )
        refl

  pub origins_round_trip :
      (os : List ScopeOrigin)
      → All IsNormalOrigin os
      → origins_from R (as_items (items (map origin_dict os))) ≡ ok os
  unfolding origins_from items as_items
  origins_round_trip [] h = refl
  origins_round_trip (o ∷ os) h = rw (origin_round_trip o h.0, origins_round_trip os h.1) refl

  -- The message for the ports of an origin that are no list.
  abbrev pub no_ports : ScopeOrigin → ModelError
  no_ports o = config ("allowed origin " <> o.host <> " must declare at least one port")

  tuple_origin_refused :
      (o : ScopeOrigin) → IsNormalOrigin o → origin_from_dict R (origin_dict o) ≡ err (no_ports o)
  unfolding origin_from_dict origin_from_fields origin_dict fields get ports_from
  tuple_origin_refused o h =
      let read_host : host_of R o.host ≡ ok o.host = ground (arith, h.host) in
      rw (h.lower_scheme, h.web, read_host) refl

  pub tuple_origins_refused :
      (o : ScopeOrigin) (os : List ScopeOrigin)
      → IsNormalOrigin o
      → origins_from R (items (map origin_dict (o ∷ os))) ≡ err (no_ports o)
  unfolding origins_from items
  tuple_origins_refused o os h = rw (tuple_origin_refused o h) refl
