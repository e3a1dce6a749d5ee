-- ===== src/Models/Engagement.antt =====
-- `EngagementConfig.from_dict`, `from_file` and `canonical_url` of agentsec/models.py.
pub mod Laws
pub mod RoundTrip
use nighwatch.Common.{
  ℕ, String, ◌<>◌, Bool, true, false, ◌||◌, not, Option, none, some, List, [], ◌∷◌, Result, ok, err,
  ◌>>=◌, ◌>>◌, raise_if, is_some, ◌==◌, if◌then◌else◌,
}
use nighwatch.Python.Json.{
  Json, null, bool, int, float, str, arr, obj, Items, nil, item, Fields, end, field,
}
use nighwatch.Python.Runtime.{Runtime}
use nighwatch.Python.Str.{strip}
use nighwatch.Python.Url.{SplitResult, urlsplit, username, password, hostname, urlunsplit}
use nighwatch.Models.Config.{ScopeOrigin, EngagementConfig}
use nighwatch.Models.FromDict.{
  ModelError, config, uncaught, get, strict_bool, texts_or, text_or_empty, action_policy_from_dict,
  active_testing_from_dict,
}
use nighwatch.Models.Origin.{host_of, origin_from_dict, limits_from_dict, is_empty_list}
use nighwatch.Models.Scope.{or_empty, path_or_root}

abbrev pub or_null : {F : Type 0} → Option (Json F) → Json F
or_null none = null
or_null (some v) = v

-- `tuple(item.strip() for item in auth_raw if item.strip())`
unfoldable pub stripped : List String → List String
stripped [] = []
stripped (s ∷ ss) = let rest = stripped ss in if strip s == "" then rest else strip s ∷ rest

module _ (R : Runtime) where
  -- `tuple(ScopeOrigin.from_dict(item) for item in origins_raw)`
  unfoldable pub origins_from : Items R.Float → Result ModelError (List ScopeOrigin)
  origins_from nil = ok []
  origins_from (item v vs) = do o ← origin_from_dict R v; os ← origins_from vs; ok (o ∷ os)

  -- `tuple(normalize_host(item) for item in excluded_raw)`
  unfoldable pub hosts_from : List String → Result ModelError (List String)
  hosts_from [] = ok []
  hosts_from (s ∷ ss) = do h ← host_of R s; hs ← hosts_from ss; ok (h ∷ hs)

  -- The stripped `artifact_id`.
  unfoldable pub artifact_from : Option (Json R.Float) → Result ModelError String
  artifact_from (some (obj fs)) =
      let id = strip (text_or_empty R (get fs "artifact_id")) in
      if id == "" then err (config "authorization.artifact_id is required") else ok id
  artifact_from v = err (config "authorization.artifact_id is required")

  origin_items : Option (Json R.Float) → Result ModelError (Items R.Float)
  origin_items (some (arr (item v vs))) = ok (item v vs)
  origin_items v = err (config "allowed_origins is required and cannot be empty")

  network_fields : Option (Json R.Float) → Result ModelError (Fields R.Float)
  network_fields none = ok end
  network_fields (some (obj fs)) = ok fs
  network_fields (some v) = err (config "network must be an object")

  unfoldable pub config_from_fields : Fields R.Float → Result ModelError (EngagementConfig R)
  unfolding origin_items network_fields
  config_from_fields raw = do
    let engagement_id = strip (text_or_empty R (get raw "engagement_id"))
    raise_if (engagement_id == "") (config "engagement_id is required")
    artifact ← artifact_from (get raw "authorization")
    origins_raw ← origin_items (get raw "allowed_origins")
    excluded_raw ← texts_or "excluded_hosts must be a list of strings" [] (get raw "excluded_hosts")
    auth_raw ←
        texts_or "auth_profiles must be a list of profile identifiers" [] (get raw "auth_profiles")
    network ← network_fields (get raw "network")
    private ←
        strict_bool (get network "allow_private_addresses") "network.allow_private_addresses" false
    origins ← origins_from origins_raw
    excluded ← hosts_from excluded_raw
    limits ← limits_from_dict R (or_null (get raw "limits"))
    actions ← action_policy_from_dict R (or_null (get raw "actions"))
    active ← active_testing_from_dict R (or_null (get raw "active_testing"))
    ok (record {
      engagement_id = engagement_id;
      allowed_origins = origins;
      excluded_hosts = excluded;
      auth_profiles = stripped auth_raw;
      limits = limits;
      actions = actions;
      authorization_artifact_id = artifact;
      allow_private_addresses = private;
      active_testing = active;
    })

  -- `EngagementConfig.from_dict`
  unfoldable pub config_from_dict : Json R.Float → Result ModelError (EngagementConfig R)
  unfolding config_from_fields
  config_from_dict (obj raw) = config_from_fields raw
  config_from_dict v = err (config "configuration must be a JSON object")

  -- `EngagementConfig.from_file`, with the file's path and its text, or `none` where there is no file.
  unfoldable pub config_from_file : String → Option String → Result ModelError (EngagementConfig R)
  config_from_file path none = err (config ("configuration file not found: " <> path))
  config_from_file path (some text) = elim (R.json_loads text) [
    | none ↦ err (config ("configuration is not valid JSON: " <> R.json_error text))
    | some value ↦ config_from_dict value
  ]

  -- `canonical_url`
  unfoldable pub canonical_url : String → Result ModelError String
  canonical_url url = elim (urlsplit R url) [
    | err message ↦ err (uncaught message)
    | ok parsed ↦
        if is_some (username parsed) || is_some (password parsed)
        then err (config "URL userinfo is not allowed")
        else ok (
            urlunsplit (record {
              scheme = R.lower parsed.scheme;
              netloc = R.lower (or_empty (hostname R parsed));
              path = path_or_root parsed.path;
              query = parsed.query;
              fragment = "";
            }))
  ]
