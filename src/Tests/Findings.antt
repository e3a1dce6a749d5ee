-- ===== src/Tests/Findings.antt =====
-- The authorization validator at concrete inputs.
use nighwatch.Common.{String, none, some, [], ◌∷◌, ◌≡◌, ◌≢◌, ◌↔◌, refl, ok}
use nighwatch.Python.Ascii.{ascii}
use nighwatch.Models.Config.{EngagementConfig}
use nighwatch.Gateway.{new_gateway}
use nighwatch.Http.Execute.{HttpExecutor, World}
use nighwatch.Findings.Signature.{
  ResponseSignature, object_ids_of, names_of, stable_fields, signature, field_pool, fields_in,
  observed_impact, shares, verdict,
}
use nighwatch.Findings.Signature.Laws.{IsVerified, verdict-verified_iff}
use nighwatch.Findings.Compare.{
  AuthorizationValidation, Comparison, Setting, validation_dict, report_text, finish, execute_as,
  then_with, judge, reproduce, compare,
}
use nighwatch.Findings.Compare.Laws.{DistinctCredentials, Reproduced, compare-Reproduced}
use nighwatch.Tests.Fixtures.{config, calm}
use nighwatch.Tests.HttpFixtures.{http_runs, executor, stamp, world}

unfoldable pub findings_runs : Unit {0}
unfolding http_runs object_ids_of names_of stable_fields signature field_pool fields_in
    observed_impact shares verdict validation_dict report_text finish execute_as then_with judge
    reproduce compare
findings_runs = tt

abbrev roomy : EngagementConfig ascii
roomy = record config { limits = record config.limits { max_requests = 4 } }

abbrev pub two_profiles : HttpExecutor ascii
two_profiles = record executor {
  config = roomy;
  gateway = new_gateway ascii roomy (some []) [];
  endpoints = none;
  explicit_profiles =
      ("owner_user", ("Authorization", "Bearer a") ∷ [])
      ∷ ("non_owner_user", ("Authorization", "Bearer b") ∷ [])
      ∷ [];
}

abbrev world_at : ascii.Float → String → World ascii
world_at now id = record world {
  action_id = id;
  readings = (calm, now) ∷ [];
  evidence_stamp = record { evidence_id = id; created_at = now };
}

abbrev pub setting : Setting ascii
setting = record {
  environment = calm;
  owner = world_at 1000 "ev_1";
  subject = world_at 2000 "ev_2";
  owner_again = world_at 3000 "ev_3";
  subject_again = world_at 4000 "ev_4";
  stamp = stamp;
}

abbrev pub comparison : Comparison
comparison = record {
  url = "https://app.example.com/api/orders/17";
  owner_profile = "owner_user";
  subject_profile = "non_owner_user";
  impact_fields = [];
  report_path = none;
}

abbrev pub validation : AuthorizationValidation
validation = record {
  status = "verified";
  reason =
      "distinct profiles repeatedly received the same resource and impact fields were observed";
  endpoint = "https://app.example.com/api/orders/17";
  owner_profile = "owner_user";
  subject_profile = "non_owner_user";
  impact_fields = "email" ∷ [];
  evidence_ids = "ev_1" ∷ "ev_2" ∷ "ev_3" ∷ "ev_4" ∷ [];
  report_path = none;
}

verified_test : (compare ascii two_profiles setting comparison).outcome ≡ some (ok validation)
unfolding findings_runs
verified_test = refl

compare-Reproduced_example :
    (comparison.owner_profile ≢ comparison.subject_profile)
    × DistinctCredentials ascii two_profiles setting comparison validation
    × ((r : Reproduced ascii two_profiles setting comparison validation) × IsVerified
          (signature ascii r.owner.response)
          (signature ascii r.subject.response)
          (signature ascii r.owner_again.response)
          (signature ascii r.subject_again.response)
          (observed_impact ascii [] (signature ascii r.subject.response)))
compare-Reproduced_example =
    compare-Reproduced ascii two_profiles setting comparison validation verified_test refl

abbrev order_seen : ResponseSignature
order_seen = record {
  status = 200;
  body_sha256 = "b";
  object_ids = "id=17" ∷ [];
  fields = "email" ∷ "id" ∷ [];
  normalized_hash = "n";
}

verdict-verified_iff_example :
    ((verdict order_seen order_seen order_seen order_seen ("email" ∷ [])).0 ≡ "verified")
    ↔ IsVerified order_seen order_seen order_seen order_seen ("email" ∷ [])
verdict-verified_iff_example =
    verdict-verified_iff order_seen order_seen order_seen order_seen ("email" ∷ [])
