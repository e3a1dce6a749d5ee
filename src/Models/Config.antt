-- ===== src/Models/Config.antt =====
-- `ScopeOrigin`, `ScopeDecision` and `EngagementConfig` of agentsec/models.py, with `to_dict` and
-- `policy_hash`.
use nighwatch.Common.{true, ℕ, String, Bool, Option, none, some, List, [], ◌∷◌, map}
use nighwatch.Python.Bytes.{encode}
use nighwatch.Python.Int.{pos}
use nighwatch.Python.Json.{Json, null, bool, int, float, str, arr, tup, obj, items, fields}
use nighwatch.Python.Runtime.{Runtime}
use nighwatch.Models.Policy.{ActionPolicy, ActiveTestingPolicy, RateLimits}

pub record ScopeOrigin : Type 0 where
  pub scheme : String
  pub host : String
  pub ports : List ℕ
  pub path_prefixes : List String
  pub methods : List String

pub record ScopeDecision : Type 0 where
  pub allowed : Bool
  pub reason : String
  pub target : String
  pub method : String
  pub policy_hash : String

pub record EngagementConfig (R : Runtime) : Type 0 where
  pub engagement_id : String
  pub allowed_origins : List ScopeOrigin
  pub excluded_hosts : List String
  pub auth_profiles : List String
  pub limits : RateLimits R
  pub actions : ActionPolicy
  pub authorization_artifact_id : String
  pub allow_private_addresses : Bool
  pub active_testing : ActiveTestingPolicy

module _ {F : Type 0} where
  abbrev pub strs : List String → Json F
  strs xs = arr (items (map str xs))

  abbrev pub ints : List ℕ → Json F
  ints xs = arr (items (map (λ n. int (pos n)) xs))

  abbrev pub optional_str : Option String → Json F
  optional_str none = null
  optional_str (some s) = str s

  -- `asdict(origin)`, which keeps its tuples
  unfoldable pub origin_dict : ScopeOrigin → Json F
  origin_dict o = obj (
      fields (
        ("scheme", str o.scheme)
        ∷ ("host", str o.host)
        ∷ ("ports", tup (items (map (λ n. int (pos n)) o.ports)))
        ∷ ("path_prefixes", tup (items (map str o.path_prefixes)))
        ∷ ("methods", tup (items (map str o.methods)))
        ∷ []))

  -- `asdict(self.actions)` and `asdict(self.active_testing)`
  unfoldable pub actions_dict : ActionPolicy → Json F
  actions_dict p = obj (
      fields (
        ("read_only", bool p.read_only)
        ∷ ("state_mutation", bool p.state_mutation)
        ∷ ("destructive", bool p.destructive)
        ∷ ("require_state_change_approval", bool p.require_state_change_approval)
        ∷ ("require_destructive_approval", bool p.require_destructive_approval)
        ∷ []))

  unfoldable pub active_dict : ActiveTestingPolicy → Json F
  active_dict p = obj (
      fields (
        ("enabled", bool p.enabled)
        ∷ ("max_payload_bytes", int (pos p.max_payload_bytes))
        ∷ ("max_cases", int (pos p.max_cases))
        ∷ ("kill_switch_file", optional_str p.kill_switch_file)
        ∷ []))

module _ (R : Runtime) where
  unfoldable pub limits_dict : RateLimits R → Json R.Float
  limits_dict l = obj (
      fields (
        ("requests_per_second", float l.requests_per_second)
        ∷ ("max_requests", int (pos l.max_requests))
        ∷ ("max_concurrent_requests", int (pos l.max_concurrent_requests))
        ∷ ("max_cost_usd", float l.max_cost_usd)
        ∷ []))

  -- `EngagementConfig.to_dict`
  unfoldable pub to_dict : EngagementConfig R → Json R.Float
  unfolding origin_dict actions_dict active_dict limits_dict items fields
  to_dict c = obj (
      fields (
        ("engagement_id", str c.engagement_id)
        ∷ ("authorization", obj (fields (("artifact_id", str c.authorization_artifact_id) ∷ [])))
        ∷ ("allowed_origins", arr (items (map origin_dict c.allowed_origins)))
        ∷ ("excluded_hosts", strs c.excluded_hosts)
        ∷ ("auth_profiles", strs c.auth_profiles)
        ∷ ("limits", limits_dict c.limits)
        ∷ ("actions", actions_dict c.actions)
        ∷ (
          "network",
          obj (fields (("allow_private_addresses", bool c.allow_private_addresses) ∷ [])),
        )
        ∷ ("active_testing", active_dict c.active_testing)
        ∷ []))

  -- The property `EngagementConfig.policy_hash`.
  unfoldable pub policy_hash : EngagementConfig R → String
  policy_hash c = R.sha256 (
      encode (
        R.json_dumps (record { compact = true; sort_keys = true; ensure_ascii = true })
          (to_dict c)))
