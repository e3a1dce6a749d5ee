-- ===== src/Models/Template.antt =====
-- `template_config` of agentsec/config.py.
use nighwatch.Common.{true, false, [], ◌∷◌}
use nighwatch.Python.Int.{pos}
use nighwatch.Python.Json.{Json, bool, int, float, str, arr, obj, items, fields}
use nighwatch.Python.Runtime.{Runtime}
use nighwatch.Models.Config.{strs, ints}

unfoldable pub template_config : (R : Runtime) → Json R.Float
template_config R = obj (
    fields (
      ("engagement_id", str "eng_local_001")
      ∷ (
        "authorization",
        obj (fields (("artifact_id", str "replace-with-written-authorization-reference") ∷ [])),
      )
      ∷ (
        "allowed_origins",
        arr (
            items (
              obj (
                fields (
                  ("scheme", str "https")
                  ∷ ("host", str "authorized.example.com")
                  ∷ ("ports", ints (443 ∷ []))
                  ∷ ("path_prefixes", strs ("/" ∷ []))
                  ∷ ("methods", strs ("GET" ∷ []))
                  ∷ []))
              ∷ [])),
      )
      ∷ ("excluded_hosts", strs [])
      ∷ ("auth_profiles", strs ("owner_user" ∷ "non_owner_user" ∷ []))
      ∷ (
        "limits",
        obj (
            fields (
              ("requests_per_second", float (R.float 1))
              ∷ ("max_requests", int (pos 100))
              ∷ ("max_concurrent_requests", int (pos 1))
              ∷ ("max_cost_usd", float (R.float 1))
              ∷ [])),
      )
      ∷ (
        "actions",
        obj (
            fields (
              ("read_only", bool true)
              ∷ ("state_mutation", bool false)
              ∷ ("destructive", bool false)
              ∷ ("require_state_change_approval", bool true)
              ∷ ("require_destructive_approval", bool true)
              ∷ [])),
      )
      ∷ ("network", obj (fields (("allow_private_addresses", bool false) ∷ [])))
      ∷ (
        "active_testing",
        obj (
            fields (
              ("enabled", bool false)
              ∷ ("max_payload_bytes", int (pos 8192))
              ∷ ("max_cases", int (pos 25))
              ∷ ("kill_switch_file", str ".nighwatch-kill")
              ∷ [])),
      )
      ∷ []))
