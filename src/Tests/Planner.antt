-- ===== src/Tests/Planner.antt =====
-- The planner and the client of the model server at concrete inputs.
use nighwatch.Common.{◌≡◌, ◌≢◌, ◌≤◌, refl, ok, err, true, false, none, some, [], ◌∷◌, All}
use nighwatch.Python.Ascii.{ascii}
use nighwatch.Python.Bytes.{encode}
use nighwatch.Python.Int.{pos}
use nighwatch.Python.Json.{hashable, fields, items, obj, arr, str, nil, end, field}
use nighwatch.Python.Sets.{update_set, add_to_set}
use nighwatch.Python.Str.{has_text, str_length, lstrip_char, rstrip_char, strip}
use nighwatch.Python.Url.{SplitResult, urlsplit}
use nighwatch.Models.Config.{origin_dict}
use nighwatch.Models.FromDict.{get, float_or, truthy, texts}
use nighwatch.Models.Policy.{RiskLevel}
use nighwatch.Ollama.Config.{
  OllamaConfig, getenv_or, check_base, check_settings, post_init, from_env, endpoint, bad_config,
  failed,
}
use nighwatch.Ollama.Config.Laws.{IsRoot}
use nighwatch.Ollama.Client.{
  Call, Reply, answered, call_of, read_reply, check_role, validate_messages, format_field,
  chat_payload, tool_call, tool_calls_of, optional_int, response_of, send_chat, chat, list_models,
  model_names, tool_dict,
}
use nighwatch.Planner.Proposal.{
  TaskProposal, escaped, risk_of, list_of, kind_of, risk_in, number_in, proposal_from_fields,
  proposal_from_dict, proposal_fields,
}
use nighwatch.Planner.Proposal.Laws.{IsProposal}
use nighwatch.Planner.Plan.{
  task_proposal_schema, system_prompt, user_prompt, plan_messages, read_proposal, planned_from,
  plan,
}
use nighwatch.Planner.Plan.Laws.{IsChatPost, plan-IsProposal, plan-post_init}
use nighwatch.Tests.Fixtures.{scope_runs, config}

-- Whoever unfolds this unfolds the planner.
unfoldable pub planner_runs : Unit {0}
unfolding scope_runs fields items update_set add_to_set has_text str_length lstrip_char rstrip_char
    origin_dict get float_or truthy texts getenv_or check_base check_settings post_init from_env
    endpoint call_of read_reply check_role validate_messages format_field chat_payload tool_call
    tool_calls_of optional_int response_of send_chat chat list_models model_names tool_dict risk_of
    list_of kind_of risk_in number_in proposal_from_fields proposal_from_dict proposal_fields
    hashable task_proposal_schema system_prompt user_prompt plan_messages read_proposal planned_from
    plan encode strip
planner_runs = tt

abbrev pub settings : OllamaConfig ascii
settings = record {
  base_url = "http://LOCALHOST:11434";
  model = "gpt-oss:20b";
  timeout_seconds = 120000;
  temperature = 0;
  max_tokens = pos 2048;
  allow_remote = false;
}

abbrev given : OllamaConfig ascii
given = record settings { base_url = "http://LOCALHOST:11434/" }

abbrev pub urlopen : Call ascii → Reply
urlopen call = answered (encode "compare_authorization")

abbrev pub proposal : TaskProposal ascii
proposal = record {
  task_kind = "compare_authorization";
  target_ref = "endpoint:ep_001";
  reason = "compare the owner with another user";
  auth_profiles = [];
  expected_evidence = [];
  risk_level = RiskLevel.state_change;
  confidence = 0;
  approval_required = true;
}

post_init_test : post_init ascii given ≡ ok settings
unfolding planner_runs
post_init_test = refl

remote_test :
    post_init ascii (record settings { base_url = "http://model.example.com" })
    ≡ err (
        bad_config
          "remote Ollama is disabled by default; use allow_remote only for an explicitly trusted endpoint")
unfolding planner_runs
remote_test = refl

plan_test :
    (plan ascii settings urlopen config "two users see the same object").result ≡ ok proposal
unfolding planner_runs
plan_test = refl

plan-IsProposal_example :
    IsProposal ascii proposal
    × (strip "two users see the same object" ≢ "")
    × (str_length "two users see the same object" ≤ 16000)
    × ((call : Call ascii) × ((plan ascii settings urlopen config
            "two users see the same object").calls
          ≡ call ∷ []))
plan-IsProposal_example =
    plan-IsProposal ascii settings urlopen config "two users see the same object" proposal plan_test

plan-post_init_example :
    All
      (IsChatPost ascii settings.base_url)
      (plan ascii settings urlopen config "two users see the same object").calls
    × ((parsed : SplitResult) × (urlsplit ascii settings.base_url ≡ ok parsed)
        × IsRoot ascii given.allow_remote parsed)
plan-post_init_example =
    plan-post_init ascii given settings urlopen config "two users see the same object"
      post_init_test

-- A reference with a space in front of a path passes the check and is stripped to the path.
path_test :
    proposal_from_dict ascii
      (obj (proposal_fields ascii (record proposal { target_ref = " /etc/passwd" })))
    ≡ ok (record proposal { target_ref = "/etc/passwd" })
unfolding planner_runs
path_test = refl

-- A task kind that is a list ends in an exception of another kind.
kind_test :
    proposal_from_dict ascii (obj (field "task_kind" (arr nil) end)) ≡ err (escaped "TypeError")
unfolding planner_runs
kind_test = refl

environment_test :
    from_env ascii (λ name. none) (some "llama")
    ≡ ok (record settings { base_url = "http://127.0.0.1:11434"; model = "llama" })
unfolding planner_runs
environment_test = refl

models_test : (list_models ascii settings urlopen).result ≡ ok []
unfolding planner_runs
models_test = refl

role_test :
    (chat ascii settings urlopen (items (obj (field "role" (str "root") end) ∷ [])) [] none).result
    ≡ err (failed "unsupported chat role: 'root'")
unfolding planner_runs
role_test = refl
