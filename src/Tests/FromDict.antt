-- ===== src/Tests/FromDict.antt =====
-- Policies read from JSON at concrete inputs.
use nighwatch.Common.{◌≡◌, refl, ok}
use nighwatch.Python.Ascii.{ascii}
use nighwatch.Python.Json.{fields}
use nighwatch.Models.Config.{actions_dict, active_dict}
use nighwatch.Models.FromDict.{
  get, strict_bool, within, int_or, dict_or_empty, action_policy_from_dict, kill_switch_path,
  active_testing_from_dict,
}
use nighwatch.Models.FromDict.Laws.{
  IsBounded, action_policy-actions_dict, active_testing_from_dict-IsBounded,
}
use nighwatch.Tests.Fixtures.{scope_runs, config}

action_policy-actions_dict_test :
    action_policy_from_dict ascii (actions_dict config.actions) ≡ ok config.actions
action_policy-actions_dict_test = action_policy-actions_dict ascii config.actions

active_test :
    active_testing_from_dict ascii (active_dict config.active_testing) ≡ ok config.active_testing
unfolding scope_runs active_dict fields get strict_bool within int_or dict_or_empty kill_switch_path
    active_testing_from_dict
active_test = refl

active_testing_from_dict-IsBounded_test : IsBounded ascii config.active_testing
active_testing_from_dict-IsBounded_test =
    active_testing_from_dict-IsBounded ascii (active_dict config.active_testing)
      config.active_testing active_test
