-- ===== src/Models/Engagement/RoundTrip.antt =====
-- What JSON makes of a configuration's dictionary, and its reading.
use nighwatch.Common.{
  ℕ, zero, suc, ◌≤◌, String, false, Option, none, some, List, [], ◌∷◌, ◌≡◌, ◌≢◌, refl, arith, All,
  Memᴰ, ok, err, ◌==◌, eq_iff, map,
}
use nighwatch.Python.Int.{pos}
use nighwatch.Python.Json.{arr, items, fields, as_json, as_items, as_fields}
use nighwatch.Python.Runtime.{Runtime}
use nighwatch.Python.Str.{strip}
use nighwatch.Models.Policy.{ActionPolicy, ActiveTestingPolicy, RateLimits}
use nighwatch.Models.Config.{
  ScopeOrigin, EngagementConfig, origin_dict, actions_dict, active_dict, limits_dict, to_dict,
  optional_str,
}
use nighwatch.Models.FromDict.{
  get, strict_bool, within, checked_within, int_or, float_or, dict_or_empty, kill_switch_path,
  active_testing_from_dict,
}
use nighwatch.Models.FromDict.Laws.{action_policy-actions_dict}
use nighwatch.Models.Origin.{host_of, positive, limits_from_dict}
use nighwatch.Models.Origin.Laws.{IsLimits}
use nighwatch.Models.Engagement.{
  hosts_from, artifact_from, config_from_fields, config_from_dict, origin_items, network_fields,
}
use nighwatch.Models.Origin.RoundTrip.{
  as_items-strs, IsTrim, stripped_trim, IsNormalHost, IsNormalOrigin, strs_text, origins_round_trip,
  no_ports, tuple_origins_refused,
}

module _ (R : Runtime) where
  hosts_round_trip : (hs : List String) → All (IsNormalHost R) hs → hosts_from R hs ≡ ok hs
  unfolding hosts_from
  hosts_round_trip [] h = refl
  hosts_round_trip (host ∷ hs) h =
      let read : host_of R host ≡ ok host = ground (arith, h.0) in
      rw (read, hosts_round_trip hs h.1) refl

  positive-pos : (message : String) (n : ℕ) → 1 ≤ n → positive message (pos n) ≡ ok n
  unfolding positive
  positive-pos message zero h = ground (arith, h)
  positive-pos message (suc n) h = refl

  limits_round_trip :
      (l : RateLimits R) → IsLimits R l → limits_from_dict R (limits_dict R l) ≡ ok l
  unfolding limits_from_dict limits_dict fields dict_or_empty float_or int_or get
  limits_round_trip l (rate, requests, concurrent, cost) =
      rw
        (
          rate,
          positive-pos "max_requests must be greater than zero" l.max_requests requests,
          positive-pos "max_concurrent_requests must be greater than zero" l.max_concurrent_requests
              concurrent,
          cost,
        )
        refl

  -- A kill-switch file that reading leaves alone.
  abbrev pub IsKillFile : Option String → Type 0
  IsKillFile none = Unit
  IsKillFile (some s) = IsTrim s

  kill_switch_round_trip :
      (path : Option String)
      → IsKillFile path
      → kill_switch_path R (some (optional_str path)) ≡ ok path
  unfolding kill_switch_path
  kill_switch_round_trip none h = refl
  kill_switch_round_trip (some s) h = ground (arith, h.0, h.1, eq_iff s "")

  checked_within-pos :
      (bound : ℕ) (message : String) (n : ℕ)
      → 1 ≤ n
      → n ≤ bound
      → checked_within bound message (pos n) ≡ ok n
  unfolding within
  checked_within-pos bound message zero h k = ground (arith, h)
  checked_within-pos bound message (suc n) h k = ground (arith, k)

  active_round_trip :
      (p : ActiveTestingPolicy)
      → 1 ≤ p.max_payload_bytes
      → p.max_payload_bytes ≤ 1048576
      → 1 ≤ p.max_cases
      → p.max_cases ≤ 10000
      → IsKillFile p.kill_switch_file
      → active_testing_from_dict R (active_dict p) ≡ ok p
  unfolding active_testing_from_dict active_dict fields dict_or_empty int_or get strict_bool
  active_round_trip p h1 h2 h3 h4 h5 =
      rw
        (
          checked_within-pos 1048576
              "active_testing.max_payload_bytes must be between 1 and 1048576" p.max_payload_bytes
              h1 h2,
          checked_within-pos 10000 "active_testing.max_cases must be between 1 and 10000"
              p.max_cases h3 h4,
          kill_switch_round_trip p.kill_switch_file h5,
        )
        refl

  -- A configuration that reading leaves alone.
  pub record IsNormalConfig (c : EngagementConfig R) : Type 0 where
    pub id : IsTrim c.engagement_id
    pub artifact : IsTrim c.authorization_artifact_id
    pub origins : All (IsNormalOrigin R) c.allowed_origins
    pub some_origin : c.allowed_origins ≢ []
    pub excluded : All (IsNormalHost R) c.excluded_hosts
    pub profiles : All IsTrim c.auth_profiles
    pub limits : IsLimits R c.limits
    pub payload_low : 1 ≤ c.active_testing.max_payload_bytes
    pub payload_high : c.active_testing.max_payload_bytes ≤ 1048576
    pub cases_low : 1 ≤ c.active_testing.max_cases
    pub cases_high : c.active_testing.max_cases ≤ 10000
    pub kill : IsKillFile c.active_testing.kill_switch_file

  origin_items-map :
      (os : List ScopeOrigin)
      → os ≢ []
      → origin_items R (some (arr (as_items (items (map origin_dict os)))))
        ≡ ok (as_items (items (map origin_dict os)))
  unfolding origin_items items as_items
  origin_items-map [] h = absurd (h refl)
  origin_items-map (o ∷ os) h = refl

  trim_not_empty : (s : String) → IsTrim s → (strip s == "") ≡ false
  trim_not_empty s h = ground (arith, h.0, h.1, eq_iff s "")

  as_json-limits : (l : RateLimits R) → as_json (limits_dict R l) ≡ limits_dict R l
  unfolding limits_dict fields as_json as_fields
  as_json-limits l = refl

  as_json-optional_str :
      (s : Option String) → as_json {F = R.Float} (optional_str s) ≡ optional_str s
  unfolding as_json
  as_json-optional_str none = refl
  as_json-optional_str (some s) = refl

  as_json-active : (p : ActiveTestingPolicy) → as_json {F = R.Float} (active_dict p) ≡ active_dict p
  unfolding active_dict fields as_json as_fields
  as_json-active p = rw (as_json-optional_str p.kill_switch_file) refl

  as_json-actions : (p : ActionPolicy) → as_json {F = R.Float} (actions_dict p) ≡ actions_dict p
  unfolding actions_dict fields as_json as_fields
  as_json-actions p = refl

  config_json_round_trip :
      (c : EngagementConfig R)
      → IsNormalConfig c
      → config_from_dict R (as_json (to_dict R c)) ≡ ok c
  unfolding config_from_dict config_from_fields to_dict artifact_from network_fields fields get
      strict_bool as_json as_fields
  config_json_round_trip c h =
      let active =
        active_round_trip c.active_testing h.payload_low h.payload_high h.cases_low h.cases_high
          h.kill in
      rw
        (
          as_items-strs R.Float c.excluded_hosts,
          as_items-strs R.Float c.auth_profiles,
          as_json-limits c.limits,
          as_json-actions c.actions,
          as_json-active c.active_testing,
          trim_not_empty c.engagement_id h.id,
          trim_not_empty c.authorization_artifact_id h.artifact,
          origin_items-map c.allowed_origins h.some_origin,
          strs_text R "excluded_hosts must be a list of strings" [] c.excluded_hosts,
          strs_text R "auth_profiles must be a list of profile identifiers" [] c.auth_profiles,
          origins_round_trip R c.allowed_origins h.origins,
          hosts_round_trip c.excluded_hosts h.excluded,
          limits_round_trip c.limits h.limits,
          action_policy-actions_dict R c.actions,
          active,
          stripped_trim c.auth_profiles h.profiles,
          h.id.0,
          h.artifact.0,
        )
        refl

  config_refused :
      (c : EngagementConfig R) (o : ScopeOrigin) (os : List ScopeOrigin)
      → c.allowed_origins ≡ o ∷ os
      → IsNormalConfig c
      → IsNormalOrigin R o
      → config_from_dict R (to_dict R c) ≡ err (no_ports R o)
  unfolding config_from_dict config_from_fields to_dict artifact_from origin_items fields items get
      strict_bool
  config_refused c o os e h normal =
      rw
        (
          e,
          trim_not_empty c.engagement_id h.id,
          trim_not_empty c.authorization_artifact_id h.artifact,
          strs_text R "excluded_hosts must be a list of strings" [] c.excluded_hosts,
          strs_text R "auth_profiles must be a list of profile identifiers" [] c.auth_profiles,
          tuple_origins_refused R o os normal,
        )
        refl

  first_refused :
      (c : EngagementConfig R) (os : List ScopeOrigin)
      → c.allowed_origins ≡ os
      → All (IsNormalOrigin R) os
      → IsNormalConfig c
      → (o : ScopeOrigin) × Memᴰ o os × (config_from_dict R (to_dict R c) ≡ err (no_ports R o))
  first_refused c [] e origins h = absurd (h.some_origin e)
  first_refused c (o ∷ os) e origins h = (o, Memᴰ.head refl, config_refused c o os e h origins.0)

  -- A configuration in normal form (hosts, schemes, methods, ports and names as reading leaves
  -- them, limits within the bounds) is read back unchanged from what JSON makes of its
  -- dictionary. The dictionary itself is refused, since the ports of an origin in it are a tuple.
  pub config_round_trip :
      (c : EngagementConfig R)
      → IsNormalConfig c
      → (config_from_dict R (as_json (to_dict R c)) ≡ ok c)
        × ((o : ScopeOrigin) × Memᴰ o c.allowed_origins
            × (config_from_dict R (to_dict R c) ≡ err (no_ports R o)))
  config_round_trip c h =
      (config_json_round_trip c h, first_refused c c.allowed_origins refl h.origins h)
