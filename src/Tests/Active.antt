-- ===== src/Tests/Active.antt =====
-- Active probes at concrete inputs.
use nighwatch.Common.{
  ℕ, ◌*◌, ◌≤◌, ◌≡◌, ◌⊎◌, refl, err, none, some, List, [], ◌∷◌, All, Memᴰ, length, map,
}
use nighwatch.Python.Ascii.{ascii, ascii-IsFloat}
use nighwatch.Python.Bytes.{encode}
use nighwatch.Python.Str.{has_text, replace_text, str_length}
use nighwatch.Http.Execute.{World}
use nighwatch.Http.Request.{Sent}
use nighwatch.Active.{
  Probe, probe_error, probe_methods, case_body, collect, case_request, after_case, probe_cases,
  check_probe, probe_result, run_probe,
}
use nighwatch.Active.Laws.{IsGivenCase, run_probe-IsGivenCase}
use nighwatch.Tests.Fixtures.{config, calm}
use nighwatch.Tests.HttpFixtures.{http_runs, executor, world}

-- Whoever unfolds this unfolds a probe.
unfoldable active_runs : Unit {0}
unfolding http_runs has_text replace_text str_length case_body collect case_request after_case
    probe_cases check_probe probe_result run_probe
active_runs = tt

-- Each case a second after the one before.
abbrev worlds : ℕ → World ascii
worlds n = record world { readings = (calm, n * 1000) ∷ [] }

abbrev probe : Probe
probe = record {
  url = "http://lab.example.com:8080/echo";
  method = "post";
  body_template = "{\"v\":\"{{NIGHWATCH_PAYLOAD}}\"}";
  payloads = some "a" ∷ some "b" ∷ [];
  auth_profile = none;
  approval_id = some "ticket-7";
  content_type = "application/json";
  payload_label = "canary";
}

abbrev bodies : List Sent → List (List ℕ)
bodies sent = map (λ s. s.body) sent

probe_test :
    bodies (run_probe ascii config executor worlds probe).2
    ≡ encode "{\"v\":\"a\"}" ∷ encode "{\"v\":\"b\"}" ∷ []
unfolding active_runs
probe_test = refl

-- More payloads than `max_cases` are refused before anything is sent.
many_test :
    run_probe ascii config executor worlds
      (record probe { payloads = some "a" ∷ some "b" ∷ some "c" ∷ [] })
    ≡ (some (err (probe_error "payload count exceeds active_testing.max_cases (2)")), executor, [])
unfolding active_runs
many_test = refl

run_probe-IsGivenCase_example :
    (length (run_probe ascii config executor worlds probe).2 ≤ config.active_testing.max_cases)
    × All
        (IsGivenCase ascii config executor worlds probe)
        (run_probe ascii config executor worlds probe).2
    × (((run_probe ascii config executor worlds probe).2 ≡ [])
        ⊎ Memᴰ (ascii.upper probe.method) probe_methods)
run_probe-IsGivenCase_example =
    run_probe-IsGivenCase ascii ascii-IsFloat config executor worlds probe
