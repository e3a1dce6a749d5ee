-- ===== src/Http/Execute/Target.antt =====
-- Where what is sent goes, and where the scope was checked.
use nighwatch.Common.{
  ℕ, String, Option, Memᴰ, ◌≡◌, arith, ok, Result-cases, inl, inr, sym, subst, ap, ◌∙◌, ◌==◌,
}
use nighwatch.Python.Runtime.{Runtime, IsFloat}
use nighwatch.Python.Str.{strip}
use nighwatch.Python.Url.{urlsplit, hostname, port}
use nighwatch.Models.Host.{normalize_host}
use nighwatch.Models.Scope.{Parsed, parse_target, or_empty, port_or_default}
use nighwatch.Models.Scope.Laws.{InScope}
use nighwatch.Http.Request.{Sent, request_path}
use nighwatch.Http.Execute.{HttpExecutor, HttpRequest, World, execute}
use nighwatch.Http.Execute.Gate.{Authorised, execute-Authorised}

module _ (R : Runtime) where
  record IsParsed (url : String) (p : Parsed) : Type 0 where
    given : Option ℕ
    split : urlsplit R url ≡ ok p.parts
    host : normalize_host R (or_empty (hostname R p.parts)) ≡ ok p.host
    number : port R p.parts ≡ ok given
    same_scheme : p.scheme ≡ R.lower p.parts.scheme
    same_port : p.port ≡ port_or_default given (R.lower p.parts.scheme)

  parse_target-IsParsed : (url : String) (p : Parsed) → parse_target R url ≡ ok p → IsParsed url p
  unfolding parse_target
  parse_target-IsParsed url p e = elim (Result-cases (urlsplit R url)) [
    | inr (message, q) ↦ ground (arith, e, q)
    | inl (parts, q) ↦ elim (Result-cases (normalize_host R (or_empty (hostname R parts)))) [
      | inr (message, n) ↦ ground (arith, e, q, n)
      | inl (host, n) ↦ elim (Result-cases (port R parts)) [
        | inr (message, m) ↦ ground (arith, e, q, n, m)
        | inl (given, m) ↦
            let same : p.parts ≡ parts = ground (arith, e, q, n, m) in
            record {
              given = given;
              split = rw same q;
              host = rw same (ground (arith, e, q, n, m));
              number = rw same m;
              same_scheme = ground (arith, e, q, n, m);
              same_port = ground (arith, e, q, n, m);
            }
      ]
    ]
  ]

  -- The target of what is sent is a target that was checked.
  pub record SentTo (x : HttpExecutor R) (method : String) (s : Sent) : Type 0 where
    pub target : Parsed
    pub in_scope : InScope x.gateway.config target method
    pub same_host : normalize_host R s.host ≡ ok target.host
    pub same_port : s.port ≡ target.port
    pub same_scheme : s.secure ≡ (target.scheme == "https")
    pub same_path : s.path ≡ request_path R target.parts

  module _ (F : IsFloat R) (x : HttpExecutor R) (w : World R) (r : HttpRequest) (s : Sent)
      (trimmed : strip r.url ≡ r.url) where
    Authorised-SentTo : Authorised x w r s → SentTo x (R.upper s.method) s
    Authorised-SentTo a =
        let parsed = parse_target-IsParsed (strip r.url) a.authorized.target a.authorized.parsed in
        let to = a.addressed in
        let same_split : urlsplit R r.url ≡ ok a.authorized.target.parts =
          rw trimmed at parsed.split in
        let same : to.parts ≡ a.authorized.target.parts = ground (arith, to.split, same_split) in
        let number : port R a.authorized.target.parts ≡ ok to.given = rw same at to.number in
        let given : to.given ≡ parsed.given = ground (arith, number, parsed.number) in
        record {
          target = a.authorized.target;
          in_scope =
              subst (λ m. InScope x.gateway.config a.authorized.target (R.upper m))
                (sym to.same_method) a.authorized.in_scope;
          same_host = ground (arith, to.same_host, same, parsed.host);
          same_port = ground (arith, to.same_port, given, same, parsed.same_port);
          same_scheme = ground (arith, to.secure, same, parsed.same_scheme);
          same_path = to.same_path ∙ ap (request_path R) same;
        }

    -- For a runtime with lawful floats and a URL without space around it, whatever `execute`
    -- sends goes to a target in scope of the gateway's engagement for its method: to the host
    -- that normalises to the checked one, to the checked port, in the checked scheme and with the
    -- checked path and query.
    pub execute-SentTo : Memᴰ s (execute R x w r).sent → SentTo x (R.upper s.method) s
    execute-SentTo m = Authorised-SentTo (execute-Authorised R F x w r s m).0
