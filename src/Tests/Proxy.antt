-- ===== src/Tests/Proxy.antt =====
-- The egress proxy at concrete inputs.
use nighwatch.Common.{true, none, some, [], ◌∷◌, ◌≡◌, refl, Memᴰ, err}
use nighwatch.Python.Ascii.{ascii, ascii-IsFloat}
use nighwatch.Python.Bytes.{encode}
use nighwatch.Http.Execute.{HttpRequest}
use nighwatch.Http.Execute.Gate.{Authorised}
use nighwatch.Http.Headers.{supported_methods}
use nighwatch.Proxy.{
  ProxyServer, ProxyRequest, error_page, response_page, header_of, lowered, first_of, length_of,
  read_body, forward_headers, response_headers, answer_failure, answer_response, answer_outcome,
  proxy_call, run_call, forward, handle,
}
use nighwatch.Proxy.Laws.{IsProxied, handle_forwards}
use nighwatch.Tests.HttpFixtures.{http_runs, executor, world, health_sent}

unfoldable proxy_runs : Unit {0}
unfolding http_runs header_of lowered first_of length_of read_body forward_headers response_headers
    answer_failure answer_response answer_outcome proxy_call run_call forward handle
proxy_runs = tt

abbrev server : ProxyServer ascii
server = record {
  config = executor.config;
  executor = executor;
  default_auth_profile = none;
  default_approval_id = some "ticket-7";
}

abbrev proxied_health : ProxyRequest
proxied_health = record {
  command = "GET";
  path = "https://app.example.com/api/health?page=2";
  headers =
      ("Accept", "text/plain")
      ∷ ("Cookie", "sid=2")
      ∷ ("X-Nighwatch-Auth-Profile", "owner_user")
      ∷ ("Proxy-Connection", "keep-alive")
      ∷ [];
  rfile = [];
}

get_test : (handle ascii server world (λ k v. true) proxied_health).sent ≡ health_sent ∷ []
unfolding proxy_runs
get_test = refl

answer_test :
    (handle ascii server world (λ k v. true) proxied_health).answer
    ≡ response_page 200 "OK"
        (("Set-Cookie", "sid=1")
          ∷ ("Server", "lab")
          ∷ ("Content-Length", "4")
          ∷ ("Connection", "close")
          ∷ [])
        (encode "hell")
unfolding proxy_runs
answer_test = refl

connect_test :
    (handle ascii server world
      (λ k v. true)
      (record proxied_health { command = "CONNECT"; path = "app.example.com:443" })).answer
    ≡ error_page 501 "HTTPS CONNECT is disabled until TLS interception is installed"
unfolding proxy_runs
connect_test = refl

relative_test :
    (handle ascii server world
      (λ k v. true)
      (record proxied_health { path = "/api/health" })).answer
    ≡ error_page 400 "proxy requests must use an absolute http(s) URL"
unfolding proxy_runs
relative_test = refl

chunked_test :
    read_body ascii 64 (record proxied_health { headers = ("transfer-encoding", "chunked") ∷ [] })
    ≡ err "chunked proxy request bodies are not supported"
unfolding proxy_runs
chunked_test = refl

health_forwarded : Memᴰ health_sent (handle ascii server world (λ k v. true) proxied_health).sent
unfolding proxy_runs
health_forwarded = Memᴰ.head refl

handle_forwards_example :
    Memᴰ "GET" supported_methods
    × ((handle ascii server world (λ k v. true) proxied_health).sent ≡ health_sent ∷ [])
    × ((r : HttpRequest) × IsProxied ascii server proxied_health r
        × Authorised executor world r health_sent)
handle_forwards_example =
    handle_forwards ascii ascii-IsFloat server world (λ k v. true) proxied_health health_sent
      health_forwarded
