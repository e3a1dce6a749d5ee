-- ===== src/Tests/Gateway.antt =====
-- The gateway, the limiter and the redaction at concrete inputs.
use nighwatch.Common.{
  ℕ, ◌≤◌, ◌<◌, String, true, false, none, some, List, [], ◌∷◌, ◌≡◌, ◌↔◌, refl, arith, length, ok,
  err, if◌then◌else◌, eq_iff, contains,
}
use mathlib.Core.Bool.{false≢true}
use nighwatch.Python.Ascii.{ascii, ascii-IsFloat}
use nighwatch.Python.Url.{SplitResult, urlsplit}
use nighwatch.Python.Url.Laws.{HasPart}
use nighwatch.Security.Approval.{ActionRequest, evaluate}
use nighwatch.Security.Approval.Laws.{MayAct, evaluate-allowed_iff}
use nighwatch.Security.Rate.{acquire}
use nighwatch.Security.Rate.Laws.{is_permit, Paced, acquire-permit_iff}
use nighwatch.Security.Redact.{redact_url, redact_headers, sensitive_headers}
use nighwatch.Security.Redact.Laws.{
  SamePublic, redact_headers_hides, redact_url_hides, redact_url_keeps_netloc,
}
use nighwatch.Security.Receipt.{ActionReceipt}
use nighwatch.Gateway.{ToolGateway, authorize, dry_run, receipt_for}
use nighwatch.Gateway.Laws.{IsAuthorized, HasSlot, authorize-ready_iff, authorize_state}
use nighwatch.Gateway.Sessions.{Attempt, ready_times, Spaced, session_budget, session_pace}
use nighwatch.Gateway.Receipts.{records_permit, logged, receipt-permit, dry_run-receipt}
use nighwatch.Security.Rate.Laws.{permitted_at}
use nighwatch.Tests.Fixtures.{gateway_runs, config, calm, stopped, gateway, get_health, post_echo}

abbrev reason_at : ToolGateway ascii → ℕ → ActionRequest → String
reason_at g now request = (authorize ascii g calm now request).0.reason

decisions :
    (reason_at gateway 0 get_health ≡ "action passed all pre-execution gates")
    × (reason_at gateway 0 (post_echo none)
        ≡ "approval blocked: action risk state_change requires explicit approval")
    × (reason_at gateway 0 (post_echo (some "ticket-7")) ≡ "action passed all pre-execution gates")
    × ((authorize ascii gateway stopped 0 get_health).0.reason ≡ "kill switch is active")
    × ((authorize ascii gateway calm 0 get_health).1.rate_limiter.request_count ≡ 1)
unfolding gateway_runs
decisions = (refl, refl, refl, refl, refl)

abbrev at : ℕ → Attempt ascii
at n = record { surroundings = calm; now = n; request = get_health }

-- Two requests a second, two in all: the second is too early, the fourth over the budget.
abbrev attempts : List (Attempt ascii)
attempts = at 1000 ∷ at 1300 ∷ at 1500 ∷ at 2500 ∷ []

times : ready_times ascii gateway attempts ≡ 1000 ∷ 1500 ∷ []
unfolding gateway_runs ready_times
times = refl

session_budget_example : length (ready_times ascii gateway attempts) ≤ 2
session_budget_example =
    session_budget ascii ascii-IsFloat config (some []) (" ticket-7 " ∷ "  " ∷ []) attempts

session_pace_example : Spaced ascii config.limits none (ready_times ascii gateway attempts)
session_pace_example =
    session_pace ascii ascii-IsFloat config (some []) (" ticket-7 " ∷ "  " ∷ []) attempts

authorize-ready_iff_example :
    ((authorize ascii gateway calm 0 get_health).0.ready ≡ true)
    ↔ (IsAuthorized gateway calm get_health × HasSlot gateway 0)
authorize-ready_iff_example = authorize-ready_iff ascii ascii-IsFloat gateway calm 0 get_health

authorize_state_test :
    (authorize ascii gateway calm 0 get_health).1
    ≡ (elim (authorize ascii gateway calm 0 get_health).0.ready [
      | true ↦ record gateway { rate_limiter = permitted_at ascii gateway.rate_limiter 0 }
      | false ↦ gateway
    ])
authorize_state_test = authorize_state ascii ascii-IsFloat gateway calm 0 get_health

acquire-permit_iff_test :
    (is_permit ascii (acquire ascii gateway.rate_limiter 5).0 ≡ true)
    ↔ ((0 < 2) × Paced ascii config.limits none 5)
acquire-permit_iff_test = acquire-permit_iff ascii ascii-IsFloat gateway.rate_limiter 5

evaluate-allowed_iff_test :
    ((evaluate config.actions (contains gateway.approved) (post_echo none)).allowed ≡ true)
    ↔ MayAct config.actions (contains gateway.approved) (post_echo none).risk none
evaluate-allowed_iff_test =
    evaluate-allowed_iff config.actions (contains gateway.approved) (post_echo none)

receipt-permit_example :
    records_permit
      (receipt_for ascii gateway 9 get_health (authorize ascii gateway calm 0 get_health).0)
    ≡ (authorize ascii gateway calm 0 get_health).0.ready
receipt-permit_example = receipt-permit ascii ascii-IsFloat gateway calm 0 9 get_health gateway

dry_run-receipt_example :
    (receipt : ActionReceipt ascii) × (receipt.action_id ≡ "act_1")
    × ((dry_run ascii gateway calm 0 9 get_health).1.receipts ≡ logged gateway receipt)
    × ((dry_run ascii gateway calm 0 9 get_health).0 ≡ (
        if records_permit receipt
        then ok receipt
        else err (authorize ascii gateway calm 0 get_health).0))
dry_run-receipt_example = dry_run-receipt ascii ascii-IsFloat gateway calm 0 9 get_health

redacted_url :
    redact_url ascii "https://h/p?token=abc&page=2#f" ≡ ok "https://h/p?token=[REDACTED]&page=2"
unfolding gateway_runs
redacted_url = refl

abbrev headers : String → List (String × String)
headers secret = ("Cookie", secret) ∷ ("Accept", "*/*") ∷ []

redact_headers_hides_test :
    (redact_headers ascii (headers "a=1") ≡ redact_headers ascii (headers "a=2"))
    × SamePublic ascii sensitive_headers (headers "a=1") (redact_headers ascii (headers "a=1"))
unfolding gateway_runs
redact_headers_hides_test =
    redact_headers_hides ascii (headers "a=1") (headers "a=2")
      (refl, λ h. ground arith, (refl, λ h. refl, tt))

abbrev leaky : SplitResult
leaky = record {
  scheme = "https";
  netloc = "alice:hunter2@h";
  path = "/p";
  query = "token=abc";
  fragment = "";
}

leaky_parsed : urlsplit ascii "https://alice:hunter2@h/p?token=abc" ≡ ok leaky
unfolding gateway_runs
leaky_parsed = refl

leaky_redacted :
    redact_url ascii "https://alice:hunter2@h/p?token=abc"
    ≡ ok "https://alice:hunter2@h/p?token=[REDACTED]"
unfolding gateway_runs
leaky_redacted = refl

redact_url_keeps_netloc_example :
    HasPart "alice:hunter2@h" "https://alice:hunter2@h/p?token=[REDACTED]"
redact_url_keeps_netloc_example =
    redact_url_keeps_netloc ascii "https://alice:hunter2@h/p?token=abc" _ leaky leaky_parsed
      (λ e. false≢true ((eq_iff "alice:hunter2@h" "").1 e)) leaky_redacted

redact_url_hides_example :
    redact_url ascii "https://alice:hunter2@h/p?token=abc"
    ≡ redact_url ascii "https://alice:hunter2@h/p?token=xyz#f"
unfolding gateway_runs
redact_url_hides_example =
    redact_url_hides ascii "https://alice:hunter2@h/p?token=abc"
      "https://alice:hunter2@h/p?token=xyz#f" leaky
      (record leaky { query = "token=xyz"; fragment = "f" }) refl refl (refl, refl, refl)
      (refl, λ h. ground arith, tt)
