-- ===== src/Tests/Tools.antt =====
-- The tool runner at concrete inputs.
use nighwatch.Common.{String, ◌≡◌, ◌⊎◌, refl, ok, err, false, some, none, List, [], ◌∷◌, map, ◌<>◌}
use nighwatch.Python.Ascii.{ascii, ascii-IsFloat}
use nighwatch.Python.Int.{pos}
use nighwatch.Tools.Registry.{
  tool_specs, find_spec, get_spec, check_proxy, spec_argv, plan_tool, blocked,
}
use nighwatch.Tools.Runner.{
  ToolRunner, ToolWorld, ToolCall, Launch, without_auth, proxy_environ, tool_environment, prepare,
  tool_payload, note_process, launch_of, launch, proceed_tool, run_tool,
}
use nighwatch.Tools.Runner.Laws.{IsLaunch, run_tool-IsLaunch}
use nighwatch.Tests.Fixtures.{config, gateway, calm}
use nighwatch.Tests.HttpFixtures.{http_runs, stamp}

-- Whoever unfolds this unfolds a run of a tool.
unfoldable tool_runs : Unit {0}
unfolding http_runs tool_specs find_spec get_spec check_proxy spec_argv plan_tool without_auth
    proxy_environ tool_environment prepare tool_payload note_process launch_of launch proceed_tool
    run_tool
tool_runs = tt

abbrev runner : ToolRunner ascii
runner = record {
  config = config;
  gateway = gateway;
  evidence = [];
  specs = tool_specs;
  max_output_bytes = 65536;
}

abbrev tool_world : ToolWorld ascii
tool_world = record {
  action_id = "act_tool_1";
  readings = (calm, 1000) ∷ [];
  receipt_stamp = 1001;
  environ = ("PATH", "/usr/bin") ∷ ("NIGHWATCH_AUTH_OWNER", "secret") ∷ ("NO_PROXY", "*") ∷ [];
  which = λ name. some ("/usr/bin/" <> name);
  live = calm;
  process = λ l.
      ok
        (record { exit_code = pos 0; timed_out = false; killed = false; stdout = []; stderr = [] });
  evidence_stamp = stamp;
}

abbrev call : ToolCall
call = record {
  name = "katana";
  target = "http://lab.example.com:8080/";
  proxy_url = "http://127.0.0.1:8899";
  approval_id = none;
}

abbrev commands : List Launch → List (List String)
commands launched = map (λ l. l.command) launched

launch_test :
    (run_tool ascii runner tool_world call).launched
    ≡ record {
      command =
          "/usr/bin/katana" ∷ "-proxy" ∷ "http://127.0.0.1:8899" ∷ "-silent" ∷ "-jsonl" ∷ "-depth"
          ∷ "1" ∷ "-crawl-duration" ∷ "10s" ∷ "-rate-limit" ∷ "1" ∷ "-u"
          ∷ "http://lab.example.com:8080/" ∷ [];
      environment =
          ("PATH", "/usr/bin")
          ∷ ("NO_PROXY", "")
          ∷ ("HTTP_PROXY", "http://127.0.0.1:8899")
          ∷ ("HTTPS_PROXY", "http://127.0.0.1:8899")
          ∷ ("ALL_PROXY", "http://127.0.0.1:8899")
          ∷ ("no_proxy", "")
          ∷ [];
    }
      ∷ []
unfolding tool_runs
launch_test = refl

-- With an empty proxy URL the tool is launched without a proxy.
direct_test :
    commands (run_tool ascii runner tool_world (record call { proxy_url = "" })).launched
    ≡ ("/usr/bin/katana" ∷ "-silent" ∷ "-jsonl" ∷ "-depth" ∷ "1" ∷ "-crawl-duration" ∷ "10s"
        ∷ "-rate-limit" ∷ "1" ∷ "-u" ∷ "http://lab.example.com:8080/" ∷ [])
      ∷ []
unfolding tool_runs
direct_test = refl

remote_test :
    (run_tool ascii runner tool_world
      (record call { proxy_url = "http://proxy.example.com:80" })).outcome
    ≡ some (err (blocked "tool proxy must be an unauthenticated local HTTP proxy"))
unfolding tool_runs
remote_test = refl

run_tool-IsLaunch_example :
    ((run_tool ascii runner tool_world call).launched ≡ [])
    ⊎ ((l : Launch) × ((run_tool ascii runner tool_world call).launched ≡ l ∷ [])
        × IsLaunch ascii runner tool_world call l)
run_tool-IsLaunch_example = run_tool-IsLaunch ascii ascii-IsFloat runner tool_world call
