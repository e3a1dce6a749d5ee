-- ===== src/Models/Engagement/Laws.antt =====
-- What holds of every configuration that is accepted.
use nighwatch.Common.{
  String, false, Option, some, List, [], ◌∷◌, ◌≡◌, ◌≢◌, refl, arith, All, ok, bind_ok, raise_if_ok,
  Bool-cases, inl, inr, ◌==◌, eq_iff, Result-cases, sym, subst,
}
use nighwatch.Python.Json.{Json, arr, obj, Items, nil, item, Fields}
use nighwatch.Python.Runtime.{Runtime}
use nighwatch.Python.Str.{strip}
use nighwatch.Models.Config.{ScopeOrigin, EngagementConfig}
use nighwatch.Models.FromDict.{
  config, get, strict_bool, texts_or, text_or_empty, action_policy_from_dict,
  active_testing_from_dict,
}
use nighwatch.Models.FromDict.Laws.{IsBounded, active_testing_from_dict-IsBounded}
use nighwatch.Models.Host.{normalize_host}
use nighwatch.Models.Origin.{host_of, origin_from_dict, limits_from_dict}
use nighwatch.Models.Origin.Laws.{
  IsOrigin, IsLimits, origin_from_dict-IsOrigin, limits_from_dict-IsLimits,
}
use nighwatch.Models.Engagement.{
  or_null, stripped, origins_from, hosts_from, artifact_from, origin_items, network_fields,
  config_from_fields, config_from_dict,
}

-- A text as `strip` leaves it, and not empty.
abbrev pub IsStripped : String → Type 0
IsStripped s = (t : String) × (s ≡ strip t) × (s ≢ "")

stripped-IsStripped : (ss : List String) → All IsStripped (stripped ss)
unfolding stripped
stripped-IsStripped [] = tt
stripped-IsStripped (s ∷ ss) = elim (Bool-cases (strip s == "")) [
  | inl empty ↦ rw empty (stripped-IsStripped ss)
  | inr other ↦
      rw other
        ((s, refl, λ h. ground (arith, other, (eq_iff (strip s) "").1 h)), stripped-IsStripped ss)
]

module _ (R : Runtime) where
  abbrev pub IsHost : String → Type 0
  IsHost host = (given : String) × (normalize_host R given ≡ ok host)

  host_of-IsHost : (given host : String) → host_of R given ≡ ok host → IsHost host
  host_of-IsHost given host e = elim (Result-cases (normalize_host R given)) [
    | inl (h, p) ↦ (given, ground (arith, e, p))
    | inr (message, p) ↦ ground (arith, e, p)
  ]

  hosts_from-IsHost : (ss hosts : List String) → hosts_from R ss ≡ ok hosts → All IsHost hosts
  unfolding hosts_from
  hosts_from-IsHost [] hosts e = let same : [] ≡ hosts = ground (arith, e) in rw (sym same) tt
  hosts_from-IsHost (s ∷ ss) hosts e =
      let (h, p, e1) = bind_ok (host_of R s) _ hosts e in
      let (hs, q, e2) = bind_ok (hosts_from R ss) _ hosts e1 in
      let same : h ∷ hs ≡ hosts = ground (arith, e2) in
      rw (sym same) (host_of-IsHost s h p, hosts_from-IsHost ss hs q)

  origins_from-IsOrigin :
      (vs : Items R.Float) (os : List ScopeOrigin)
      → origins_from R vs ≡ ok os
      → All (IsOrigin R) os × ((os ≡ []) → (vs ≡ nil))
  unfolding origins_from
  origins_from-IsOrigin nil os e =
      let same : [] ≡ os = ground (arith, e) in (rw (sym same) tt, λ h. refl)
  origins_from-IsOrigin (item v vs) os e =
      let (o, p, e1) = bind_ok (origin_from_dict R v) _ os e in
      let (rest, q, e2) = bind_ok (origins_from R vs) _ os e1 in
      let same : o ∷ rest ≡ os = ground (arith, e2) in
      let more = (origins_from-IsOrigin vs rest q).0 in
      (rw (sym same) (origin_from_dict-IsOrigin R v o p, more), λ h. ground (arith, same, h))

  origin_items_some :
      (v : Option (Json R.Float)) (vs : Items R.Float) → origin_items R v ≡ ok vs → vs ≢ nil
  unfolding origin_items
  origin_items_some (some (arr (item v vs))) ws e = λ h. ground (arith, e, h)
  origin_items_some v ws e = ground (arith, e)

  artifact_from-IsStripped :
      (v : Option (Json R.Float)) (id : String) → artifact_from R v ≡ ok id → IsStripped id
  unfolding artifact_from
  artifact_from-IsStripped (some (obj fs)) id e =
      let text = text_or_empty R (get fs "artifact_id") in
      (text, ground (arith, e), λ h. ground (arith, e, h, eq_iff (strip text) ""))
  artifact_from-IsStripped v id e = ground (arith, e)

  -- A configuration as it is kept.
  pub record IsConfig (c : EngagementConfig R) : Type 0 where
    pub id : IsStripped c.engagement_id
    pub artifact : IsStripped c.authorization_artifact_id
    pub origins : All (IsOrigin R) c.allowed_origins
    pub some_origin : c.allowed_origins ≢ []
    pub excluded : All IsHost c.excluded_hosts
    pub profiles : All IsStripped c.auth_profiles
    pub limits : IsLimits R c.limits
    pub active : IsBounded R c.active_testing

  config_from_fields-IsConfig :
      (raw : Fields R.Float) (c : EngagementConfig R) → config_from_fields R raw ≡ ok c → IsConfig c
  unfolding config_from_fields
  config_from_fields-IsConfig raw c e =
      let text = text_or_empty R (get raw "engagement_id") in
      let (named, e0) = raise_if_ok (strip text == "") (config "engagement_id is required") _ c e in
      let (artifact, p1, e1) = bind_ok (artifact_from R (get raw "authorization")) _ c e0 in
      let (vs, p2, e2) = bind_ok (origin_items R (get raw "allowed_origins")) _ c e1 in
      let (excluded_raw, p3, e3) =
        bind_ok (texts_or "excluded_hosts must be a list of strings" [] (get raw "excluded_hosts"))
          _ c e2 in
      let (auth_raw, p4, e4) =
        bind_ok
          (texts_or "auth_profiles must be a list of profile identifiers" []
            (get raw "auth_profiles"))
          _ c e3 in
      let (network, p5, e5) = bind_ok (network_fields R (get raw "network")) _ c e4 in
      let (private, p6, e6) =
        bind_ok
          (strict_bool (get network "allow_private_addresses") "network.allow_private_addresses"
            false)
          _ c e5 in
      let (origins, p7, e7) = bind_ok (origins_from R vs) _ c e6 in
      let (excluded, p8, e8) = bind_ok (hosts_from R excluded_raw) _ c e7 in
      let (limits, p9, e9) = bind_ok (limits_from_dict R (or_null (get raw "limits"))) _ c e8 in
      let (actions, p10, e10) =
        bind_ok (action_policy_from_dict R (or_null (get raw "actions"))) _ c e9 in
      let (active, p11, e11) =
        bind_ok (active_testing_from_dict R (or_null (get raw "active_testing"))) _ c e10 in
      let made : EngagementConfig R = record {
        engagement_id = strip text;
        allowed_origins = origins;
        excluded_hosts = excluded;
        auth_profiles = stripped auth_raw;
        limits = limits;
        actions = actions;
        authorization_artifact_id = artifact;
        allow_private_addresses = private;
        active_testing = active;
      } in
      let kept : IsConfig made = record {
        id = (text, refl, λ h. ground (arith, named, h, eq_iff (strip text) ""));
        artifact = artifact_from-IsStripped (get raw "authorization") artifact p1;
        origins = (origins_from-IsOrigin vs origins p7).0;
        some_origin = λ h.
            origin_items_some (get raw "allowed_origins") vs p2
              ((origins_from-IsOrigin vs origins p7).1 h);
        excluded = hosts_from-IsHost excluded_raw excluded p8;
        profiles = stripped-IsStripped auth_raw;
        limits = limits_from_dict-IsLimits R (or_null (get raw "limits")) limits p9;
        active =
            active_testing_from_dict-IsBounded R (or_null (get raw "active_testing")) active p11;
      } in
      let same : made ≡ c = ground (arith, e11) in subst IsConfig same kept

  -- A configuration that is accepted has stripped engagement and authorization identifiers that
  -- are not empty, at least one origin, each with scheme http or https, a normalised host, at
  -- least one port, ascending and between 1 and 65535, and at least one method, normalised
  -- excluded hosts, stripped profile names that are not empty, limits that are positive (the
  -- cost: not negative) by the tests of the code, and an active-testing policy within its bounds.
  pub config_from_dict-IsConfig :
      (v : Json R.Float) (c : EngagementConfig R) → config_from_dict R v ≡ ok c → IsConfig c
  unfolding config_from_dict
  config_from_dict-IsConfig (obj fs) c e = config_from_fields-IsConfig fs c e
  config_from_dict-IsConfig v c e = ground (arith, e)
