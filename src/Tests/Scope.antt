-- ===== src/Tests/Scope.antt =====
-- `check_url` and `_path_matches` at concrete URLs.
use nighwatch.Common.{
  String, Bool, true, false, List, [], ◌∷◌, ◌≡◌, ◌↔◌, ◌⊎◌, refl, Memᴰ, ok, contains_iff,
}
use nighwatch.Python.Ascii.{ascii}
use nighwatch.Python.Str.{strip}
use nighwatch.Models.PathMatch.{path_matches, normalize_prefix}
use nighwatch.Models.PathMatch.Laws.{Covers, path_matches_iff, path_matches_climbs}
use nighwatch.Models.Scope.{Parsed, parse_target, check_url}
use nighwatch.Models.Scope.Laws.{
  Serves, here, InScope, check_url-allowed_iff, check_url_first_origin,
}
use nighwatch.Tests.Fixtures.{scope_runs, api, config}

abbrev allowed : String → String → Bool
allowed url method = (check_url ascii config url method).allowed

abbrev reason : String → String → String
reason url method = (check_url ascii config url method).reason

allowed_tests :
    (allowed "https://app.example.com/api/health" "get" ≡ true)
    × (allowed " HTTPS://APP.example.com.:443/api?x=1 " "GET" ≡ true)
    × (allowed "http://lab.example.com:8080" "DELETE" ≡ true)
unfolding scope_runs
allowed_tests = (refl, refl, refl)

refused_tests :
    (reason "ftp://app.example.com/api/" "GET" ≡ "only http and https are allowed")
    × (reason "https://app.example.com@evil.example/api/" "GET" ≡ "URL userinfo is not allowed")
    × (reason "https://app.example.com/api/#x" "GET"
        ≡ "URL fragments are not allowed in an HTTP target")
    × (reason "https://admin.example.com/api/" "GET"
        ≡ "host admin.example.com is explicitly excluded")
    × (reason "https://app.example.com/apix" "GET"
        ≡ "path /apix is not allowed for app.example.com")
    × (reason "https://app.example.com:8443/api/" "GET"
        ≡ "origin https://app.example.com:8443 is not in scope")
    × (reason "https://app.example.com:x/api/" "GET"
        ≡ "invalid URL: Port could not be cast to integer value as 'x'")
    × (reason "/api/" "GET" ≡ "invalid URL: host cannot be empty")
unfolding scope_runs
refused_tests = (refl, refl, refl, refl, refl, refl, refl, refl)

path_matches_iff_test : (path_matches "/api/x" ("/api/" ∷ []) ≡ true) ↔ (
    ◌≡◌ {A = List String} ("/api/" ∷ []) []
    ⊎ ((prefix : String) × Memᴰ prefix ("/api/" ∷ []) × Covers (normalize_prefix prefix) "/api/x"))
path_matches_iff_test = path_matches_iff "/api/x" ("/api/" ∷ [])

path_matches_climbs_example : path_matches "/api/../admin" ("/api/" ∷ []) ≡ true
unfolding scope_runs
path_matches_climbs_example = path_matches_climbs "/api/" "/admin" ("/api/" ∷ []) (Memᴰ.head refl)

abbrev echo : String
echo = "https://app.example.com/test-fixtures/echo"

abbrev echo_parts : Parsed
echo_parts = record {
  parts = record {
    scheme = "https";
    netloc = "app.example.com";
    path = "/test-fixtures/echo";
    query = "";
    fragment = "";
  };
  scheme = "https";
  host = "app.example.com";
  port = 443;
}

echo_parsed : parse_target ascii (strip echo) ≡ ok echo_parts
unfolding scope_runs
echo_parsed = refl

api-Serves : Serves echo_parts api
api-Serves = (refl, refl, Memᴰ.head refl)

post_not_in_api : ¬ Memᴰ (ascii.upper "POST") api.methods
unfolding scope_runs
post_not_in_api m = cc ((contains_iff api.methods "POST").1 m)

-- The second origin allows the POST, and the first refuses it.
check_url_first_origin_example : (check_url ascii config echo "POST").allowed ≡ false
check_url_first_origin_example =
    check_url_first_origin ascii config echo "POST" echo_parts api echo_parsed (here api-Serves)
      post_not_in_api

check_url-allowed_iff_example : ((check_url ascii config echo "POST").allowed ≡ true) ↔ (
    (p : Parsed) × (parse_target ascii (strip echo) ≡ ok p) × InScope config p (ascii.upper "POST"))
check_url-allowed_iff_example = check_url-allowed_iff ascii config echo "POST"
