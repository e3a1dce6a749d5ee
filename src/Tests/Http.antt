-- ===== src/Tests/Http.antt =====
-- The HTTP executor at concrete inputs.
use nighwatch.Common.{
  true, false, none, some, List, [], ◌∷◌, ◌≡◌, ◌≤◌, ◌≢◌, ◌⊎◌, ◌↔◌, refl, Memᴰ, ok, length, All,
  contains, ltb, take, ◌==◌, if◌then◌else◌,
}
use nighwatch.Python.Ascii.{ascii, ascii-IsFloat}
use nighwatch.Python.Dicts.{update}
use nighwatch.Python.Json.{Json}
use nighwatch.Security.Receipt.{ActionReceipt}
use nighwatch.Gateway.{ToolGateway}
use nighwatch.Gateway.Receipts.{records_permit, logged}
use nighwatch.Http.Address.{Candidate}
use nighwatch.Http.Address.Laws.{FirstAdmitted, resolve_allowed_address_sound}
use nighwatch.Http.Credentials.Laws.{ComesFrom, IsCredential, resolve_auth_headers_sound}
use nighwatch.Http.Headers.{
  Headers, supported_methods, bodyless_methods, validate_forward_headers, has_auth_header,
}
use nighwatch.Http.Headers.Laws.{IsForwardable, validate_forward_headers-ok_iff}
use nighwatch.Http.Request.{bounded_response}
use nighwatch.Http.Request.Laws.{IsAddressed, bounded_response_body, address_request-IsAddressed}
use nighwatch.Http.Execute.{Checked, body_bytes, waiting, authorize_loop, execute}
use nighwatch.Http.Execute.Checks.{check_request_sound}
use nighwatch.Http.Execute.Gate.{Authorised, execute-Authorised}
use nighwatch.Http.Execute.Logs.{execute_logs}
use nighwatch.Http.Execute.Target.{SentTo, execute-SentTo}
use nighwatch.Tests.Fixtures.{config, calm, gateway, get_health}
use nighwatch.Tests.HttpFixtures.{
  http_runs, executor, world, read_health, health_sent, network, internet, answer,
}

sent_test : (execute ascii executor world read_health).sent ≡ health_sent ∷ []
unfolding http_runs
sent_test = refl

health_listed : Memᴰ health_sent (execute ascii executor world read_health).sent
unfolding http_runs
health_listed = Memᴰ.head refl

execute-Authorised_example :
    Authorised executor world read_health health_sent
    × ((execute ascii executor world read_health).sent ≡ health_sent ∷ [])
execute-Authorised_example =
    execute-Authorised ascii ascii-IsFloat executor world read_health health_sent health_listed

execute_logs_example :
    (receipt : ActionReceipt ascii) × (records_permit receipt ≡ true)
    × (receipt.action_id ≡ "act_9")
    × ((execute ascii executor world read_health).after.gateway.receipts ≡ logged gateway receipt)
execute_logs_example =
    execute_logs ascii ascii-IsFloat executor world read_health health_sent health_listed

abbrev health_checked : Checked
health_checked = record { method = "GET"; body = []; headers = ("Accept", "text/plain") ∷ [] }

check_request_sound_example :
    ("GET" ≡ ascii.upper "get")
    × (contains supported_methods "GET" ≡ true)
    × (health_checked.body ≡ body_bytes read_health.body)
    × (0 ≤ config.active_testing.max_payload_bytes)
    × ((contains bodyless_methods "GET" ≡ false) ⊎ (health_checked.body ≡ []))
    × (health_checked.headers ≡ update [] (("Accept", "text/plain") ∷ []))
    × All (IsForwardable ascii) health_checked.headers
    × ((read_health.auth_profile ≡ none) ⊎ (has_auth_header ascii health_checked.headers ≡ false))
unfolding http_runs
check_request_sound_example = check_request_sound ascii executor read_health health_checked refl

-- A gateway that has let a request through at one second, with half a second to wait.
abbrev paced_gateway : ToolGateway ascii
paced_gateway = record gateway {
  rate_limiter = record gateway.rate_limiter { last_request_at = some 1000; request_count = 1 };
}

waits_test :
    authorize_loop ascii paced_gateway get_health ((calm, 1100) ∷ []) ≡ (waiting, paced_gateway)
unfolding http_runs
waits_test = refl

address_request-IsAddressed_example :
    IsAddressed ascii config network read_health.url "GET" health_sent.headers [] health_sent
unfolding http_runs
address_request-IsAddressed_example =
    address_request-IsAddressed ascii config network read_health.url "GET" health_sent.headers []
      health_sent refl

bounded_response_body_example :
    (length (bounded_response ascii 4 "u" "GET" 12 answer).body ≤ 4)
    × ((bounded_response ascii 4 "u" "GET" 12 answer).body
        ≡ (if "GET" == "HEAD" then [] else take 4 answer.body))
    × ((bounded_response ascii 4 "u" "GET" 12 answer).body_truncated
        ≡ (if "GET" == "HEAD" then false else ltb 4 (length answer.body)))
bounded_response_body_example = bounded_response_body ascii 4 "u" "GET" 12 answer

resolve_allowed_address_sound_example :
    (cs : List Candidate) × (network.getaddrinfo "app.example.com" 443 ≡ some cs)
    × FirstAdmitted network.ip_address false internet cs
unfolding http_runs
resolve_allowed_address_sound_example =
    resolve_allowed_address_sound network.getaddrinfo network.ip_address "app.example.com" 443 false
      internet refl

abbrev bearer : Headers
bearer = ("Authorization", "Bearer abc") ∷ []

resolve_auth_headers_sound_example :
    (contains config.auth_profiles "owner_user" ≡ true)
    × ComesFrom ascii executor.explicit_profiles calm "owner_user" bearer
    × (bearer ≢ [])
    × All (IsCredential ascii) bearer
unfolding http_runs
resolve_auth_headers_sound_example =
    resolve_auth_headers_sound ascii config "owner_user" executor.explicit_profiles calm bearer refl

validate_forward_headers-ok_iff_example :
    (validate_forward_headers ascii (("Accept", "*/*") ∷ [])
      ≡ ok (update [] (("Accept", "*/*") ∷ [])))
    ↔ All (IsForwardable ascii) (("Accept", "*/*") ∷ [])
validate_forward_headers-ok_iff_example =
    validate_forward_headers-ok_iff ascii (("Accept", "*/*") ∷ [])

execute-SentTo_example : SentTo ascii executor "GET" health_sent
unfolding http_runs
execute-SentTo_example =
    execute-SentTo ascii ascii-IsFloat executor world read_health health_sent refl health_listed
