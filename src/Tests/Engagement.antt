-- ===== src/Tests/Engagement.antt =====
-- Whole configurations read from JSON.
use nighwatch.Common.{
  ◌≡◌, ◌≢◌, ◌==◌, eq_iff, refl, ok, err, true, none, some, [], ◌∷◌, arith, String, false, Memᴰ,
}
use nighwatch.Python.Ascii.{ascii}
use nighwatch.Python.Json.{fields, items, as_json}
use nighwatch.Python.Sets.{update_set, add_to_set}
use nighwatch.Python.Url.{urlunsplit}
use nighwatch.Models.Config.{
  to_dict, origin_dict, limits_dict, actions_dict, active_dict, ScopeOrigin, EngagementConfig,
}
use nighwatch.Models.FromDict.{
  get, strict_bool, within, int_or, float_or, dict_or_empty, action_policy_from_dict,
  kill_switch_path, active_testing_from_dict, texts_or, ModelError,
}
use nighwatch.Models.Origin.{
  ports_from, method_set, origin_from_dict, limits_from_dict, port_numbers, in_port_range,
  sort_nats, add_nat, origin_from_fields, positive,
}
use nighwatch.Models.Engagement.{
  stripped, origins_from, hosts_from, artifact_from, config_from_fields, config_from_dict,
  config_from_file, canonical_url,
}
use nighwatch.Models.Engagement.Laws.{IsConfig, config_from_dict-IsConfig}
use nighwatch.Models.Engagement.RoundTrip.{IsNormalConfig, config_round_trip}
use nighwatch.Models.Origin.RoundTrip.{IsNormalOrigin, no_ports}
use nighwatch.Models.Template.{template_config}
use nighwatch.Tests.Fixtures.{scope_runs, config, api, fixtures, lab}

-- Whoever unfolds this unfolds the reading of a configuration.
unfoldable engagement_runs : Unit {0}
unfolding scope_runs fields items get strict_bool within int_or float_or dict_or_empty
    kill_switch_path texts_or active_testing_from_dict action_policy_from_dict ports_from method_set
    origin_from_dict limits_from_dict port_numbers in_port_range sort_nats add_nat positive
    update_set add_to_set urlunsplit origin_from_fields stripped origins_from hosts_from
    artifact_from config_from_fields config_from_dict config_from_file canonical_url template_config
    to_dict origin_dict limits_dict actions_dict active_dict
engagement_runs = tt

abbrev template : EngagementConfig ascii
template = record {
  engagement_id = "eng_local_001";
  allowed_origins =
      record {
        scheme = "https";
        host = "authorized.example.com";
        ports = 443 ∷ [];
        path_prefixes = "/" ∷ [];
        methods = "GET" ∷ [];
      }
      ∷ [];
  excluded_hosts = [];
  auth_profiles = "owner_user" ∷ "non_owner_user" ∷ [];
  limits = record {
    requests_per_second = 1000;
    max_requests = 100;
    max_concurrent_requests = 1;
    max_cost_usd = 1000;
  };
  actions = record {
    read_only = true;
    state_mutation = false;
    destructive = false;
    require_state_change_approval = true;
    require_destructive_approval = true;
  };
  authorization_artifact_id = "replace-with-written-authorization-reference";
  allow_private_addresses = false;
  active_testing = record {
    enabled = false;
    max_payload_bytes = 8192;
    max_cases = 25;
    kill_switch_file = some ".nighwatch-kill";
  };
}

-- The template is a configuration that is accepted.
template_test : config_from_dict ascii (template_config ascii) ≡ ok template
unfolding engagement_runs
template_test = refl

config_from_dict-IsConfig_example : IsConfig ascii template
config_from_dict-IsConfig_example =
    config_from_dict-IsConfig ascii (template_config ascii) template template_test

missing_test :
    config_from_file ascii "nighwatch.json" none
    ≡ err (ModelError.config "configuration file not found: nighwatch.json")
unfolding engagement_runs
missing_test = refl

shape_test :
    config_from_file ascii "nighwatch.json" (some "{}")
    ≡ err (ModelError.config "engagement_id is required")
unfolding engagement_runs
shape_test = refl

canonical_test :
    canonical_url ascii "HTTPS://App.Example.com/a?b=1#c" ≡ ok "https://app.example.com/a?b=1"
unfolding engagement_runs
canonical_test = refl

api_normal : IsNormalOrigin ascii api
unfolding engagement_runs
api_normal = record {
  web = refl;
  lower_scheme = refl;
  host = refl;
  ports = (((ground arith, ground arith), tt), tt, λ h. ground (arith, h));
  methods = refl;
  some_method = λ h. ground (arith, h);
}

fixtures_normal : IsNormalOrigin ascii fixtures
unfolding engagement_runs
fixtures_normal = record {
  web = refl;
  lower_scheme = refl;
  host = refl;
  ports = (((ground arith, ground arith), tt), tt, λ h. ground (arith, h));
  methods = refl;
  some_method = λ h. ground (arith, h);
}

lab_normal : IsNormalOrigin ascii lab
unfolding engagement_runs
lab_normal = record {
  web = refl;
  lower_scheme = refl;
  host = refl;
  ports = (
    ((ground arith, ground arith), ((ground arith, ground arith), tt)),
    (ground arith, tt),
    λ h. ground (arith, h),
  );
  methods = refl;
  some_method = λ h. ground (arith, h);
}

other : (s : String) → (s == "") ≡ false → s ≢ ""
other s e h = ground (arith, e, eq_iff s "", h)

config_normal : IsNormalConfig ascii config
unfolding engagement_runs
config_normal = record {
  id = (refl, other "eng_1" refl);
  artifact = (refl, other "ticket-1" refl);
  origins = (api_normal, (fixtures_normal, (lab_normal, tt)));
  some_origin = λ h. ground (arith, h);
  excluded = (refl, tt);
  profiles = ((refl, other "owner_user" refl), ((refl, other "non_owner_user" refl), tt));
  limits = (refl, ground arith, ground arith, refl);
  payload_low = ground arith;
  payload_high = ground arith;
  cases_low = ground arith;
  cases_high = ground arith;
  kill = (refl, other ".nighwatch-kill" refl);
}

config_round_trip_example :
    (config_from_dict ascii (as_json (to_dict ascii config)) ≡ ok config)
    × ((o : ScopeOrigin) × Memᴰ o config.allowed_origins
        × (config_from_dict ascii (to_dict ascii config) ≡ err (no_ports ascii o)))
config_round_trip_example = config_round_trip ascii config config_normal
