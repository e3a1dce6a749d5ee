-- ===== src/Tests/Reasoning.antt =====
-- The reasoning loop at concrete inputs.
use nighwatch.Common.{
  ℕ, String, ◌≡◌, ◌≤◌, refl, Result, ok, err, length, Option, none, some, [], ◌∷◌,
}
use nighwatch.Python.Ascii.{ascii}
use nighwatch.Python.Json.{nil, str, obj, field, end}
use nighwatch.Python.Str.{replace_char, take_chars}
use nighwatch.State.{
  missing, holds, InvestigationStateStore, InvestigationStep, item_count, append_item, set_field,
  step_dict, fresh_state, check_state, read_state, safe_model_text, safe_proposal, safe_validation,
  new_step, state_text, append_step,
}
use nighwatch.Models.FromDict.{ModelError}
use nighwatch.Reasoning.{
  MultiStepInvestigationResult, Loop, LoopError, Turn, has_key, execute_proposal, next_observation,
  after_step, note_step, note_executed, take_proposal, pass, continue_with, passes, conclude_run,
  run_many, run_once, recording, bad_value,
}
use nighwatch.Reasoning.Many.{IsBoundedRun, run_many-IsBoundedRun, run_many_records}
use nighwatch.Reasoning.Runs.{Reads, append_steps}
use nighwatch.Tests.Fixtures.{config}
use nighwatch.Tests.Findings.{findings_runs, two_profiles, setting, comparison, validation}
use nighwatch.Tests.Planner.{planner_runs, settings, urlopen, proposal}

-- Whoever unfolds this unfolds the loop.
unfoldable reasoning_runs : Unit {0}
unfolding findings_runs planner_runs item_count append_item set_field step_dict fresh_state
    check_state read_state safe_model_text safe_proposal safe_validation new_step state_text
    append_step has_key execute_proposal next_observation after_step note_step note_executed
    take_proposal pass continue_with passes conclude_run run_many run_once replace_char take_chars
reasoning_runs = tt

abbrev store : InvestigationStateStore ascii
store = record { path = "state.json"; config = config; file = missing }

abbrev loop : Loop ascii
loop = record { settings = settings; config = config; comparison = comparison }

abbrev turn : Turn ascii
turn = record { urlopen = urlopen; setting = setting; now = 9000 }

abbrev step : InvestigationStep ascii
step = record {
  index = 0;
  observation_sha256 = "an object";
  proposal = proposal;
  status = "verified";
  reason = "planner proposal executed through the authorization validator";
  validation = some (record validation { endpoint = "[REDACTED_ENDPOINT]" });
  created_at = 9000;
}

abbrev done_run : MultiStepInvestigationResult ascii
done_run = record {
  status = "verified";
  reason = "planner proposal executed through the authorization validator";
  steps = step ∷ [];
  last_result = record {
    status = "verified";
    reason = "planner proposal executed through the authorization validator";
    proposal = proposal;
    validation = some validation;
  };
  state_path = "state.json";
}

run_test : (run_many ascii two_profiles store loop (λ n. turn) 3 "an object").0 ≡ some (ok done_run)
unfolding reasoning_runs
run_test = refl

run_many-IsBoundedRun_example : (3 ≤ 10) × IsBoundedRun ascii 3 done_run
run_many-IsBoundedRun_example =
    run_many-IsBoundedRun ascii two_profiles store loop (λ n. turn) 3 "an object" done_run run_test

fresh_test : read_state ascii store ≡ ok (fresh_state ascii config, nil)
unfolding reasoning_runs
fresh_test = refl

run_many_records_example :
    Reads ascii (run_many ascii two_profiles store loop (λ n. turn) 3 "an object").1.store (
      append_steps ascii nil
        (run_many ascii two_profiles store loop (λ n. turn) 3 "an object").1.steps)
run_many_records_example =
    run_many_records ascii two_profiles store loop (λ n. turn) 3 "an object" nil
      (fresh_state ascii config, fresh_test)

-- The status, the reason and the number of the steps of a result.
abbrev summary :
    Option (Result (LoopError ascii) (MultiStepInvestigationResult ascii))
    → Option (String × String × ℕ)
summary (some (ok m)) = some (m.status, m.reason, length m.steps)
summary r = none

-- Without an observed impact field the loop goes on, and stops when the proposal comes again.
repeated_test :
    summary
      (run_many ascii two_profiles store
        (record loop { comparison = record comparison { impact_fields = "ssn" ∷ [] } })
        (λ n. turn)
        3
        "an object").0
    ≡ some ("planned", "repeated proposal stopped to prevent an investigation loop", 2)
unfolding reasoning_runs
repeated_test = refl

steps_test :
    (run_many ascii two_profiles store loop (λ n. turn) 11 "an object").0
    ≡ some (err (bad_value "max_steps must be between 1 and 10"))
unfolding reasoning_runs
steps_test = refl

foreign_test :
    (run_many ascii two_profiles
      (record store { file = holds (obj (field "engagement_id" (str "other") end)) })
      loop
      (λ n. turn)
      3
      "an object").0
    ≡ some (
        err (recording (ModelError.config "investigation state belongs to a different engagement")))
unfolding reasoning_runs
foreign_test = refl
