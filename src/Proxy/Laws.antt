-- ===== src/Proxy/Laws.antt =====
-- What the egress proxy has the executor send.
use nighwatch.Common.{
  ℕ, zero, suc, ◌≤◌, String, Bool, false, ◌||◌, ◌&&◌, not, Option, none, some, List, [], ◌∷◌, ◌≡◌,
  refl, arith, take, length, All, Memᴰ, ok, bind_ok, raise_if_ok, is_some, contains, contains_iff,
  ltb, ◌==◌, Bool-cases, Result-cases, inl, inr, sym, subst,
}
use nighwatch.Python.Bytes.{Bytes}
use nighwatch.Python.Dicts.{lookup, set_key}
use nighwatch.Python.DictLaws.{set_key-All}
use nighwatch.Models.Scope.{or_empty}
use nighwatch.Python.Int.{ℤ, pos, negsuc}
use nighwatch.Python.Runtime.{Runtime, IsFloat}
use nighwatch.Python.Str.{strip, has_char}
use nighwatch.Python.Url.{urlsplit}
use nighwatch.Http.Execute.{HttpRequest, RequestBody, body_bytes, World}
use nighwatch.Http.Execute.Gate.{Authorised, execute-Authorised}
use nighwatch.Http.Headers.{Headers, supported_methods}
use nighwatch.Http.Request.{Sent}
use nighwatch.Proxy.{
  ProxyServer, ProxyRequest, is_dropped, header_of, lowered, length_of, body_within, sized_body,
  read_body, forward_headers, first_of, proxy_call, run_call, forward, handle,
}

length-take : {A : Type 0} (n : ℕ) (xs : List A) → length (take n xs) ≤ n
length-take zero xs = omega arith
length-take (suc n) [] = omega arith
length-take (suc n) (x ∷ xs) = omega (arith, length-take n xs)

module _ (R : Runtime) where
  -- A header that is passed on: not a control header, listed, no credential beside a profile, and
  -- without line breaks.
  abbrev pub IsPassed : Bool → String × String → Type 0
  IsPassed has_profile (name, value) =
      (is_dropped has_profile (R.lower name) ≡ false)
      × (has_char 13 value ≡ false)
      × (has_char 10 value ≡ false)

  forward_headers-IsPassed :
      (has_profile : Bool) (taken given out : Headers)
      → All (IsPassed has_profile) taken
      → forward_headers R has_profile taken given ≡ ok out
      → All (IsPassed has_profile) out
  unfolding forward_headers
  forward_headers-IsPassed has_profile taken [] out h e =
      let same : taken ≡ out = ground (arith, e) in subst (All (IsPassed has_profile)) same h
  forward_headers-IsPassed has_profile taken ((k, v) ∷ kvs) out h e =
      elim (Bool-cases (is_dropped has_profile (R.lower k))) [
        | inl dropped ↦
            forward_headers-IsPassed has_profile taken kvs out h (ground (arith, e, dropped))
        | inr kept ↦ elim (Bool-cases (has_char 13 v || has_char 10 v)) [
          | inl broken ↦ ground (arith, e, kept, broken)
          | inr whole ↦
              forward_headers-IsPassed has_profile (set_key taken k v) kvs out
                (set_key-All (IsPassed has_profile) taken k v h
                  (kept, ground (arith, whole), ground (arith, whole)))
                (ground (arith, e, kept, whole))
        ]
      ]

  body_within_small :
      (bound : ℕ) (rfile : Bytes) (n : ℤ) (body : Bytes)
      → body_within R bound rfile n ≡ ok body
      → length body ≤ bound
  body_within_small bound rfile (negsuc n) body e = ground (arith, e)
  body_within_small bound rfile (pos n) body e = elim (Bool-cases (ltb bound n)) [
    | inl large ↦ ground (arith, e, large)
    | inr small ↦
        let same : take n rfile ≡ body = ground (arith, e, small) in
        let short : n ≤ bound = ground (arith, small) in
        subst (λ b. length b ≤ bound) same (omega (arith, length-take n rfile, short))
  ]

  sized_body_small :
      (bound : ℕ) (rfile : Bytes) (n : Option ℤ) (body : Bytes)
      → sized_body R bound rfile n ≡ ok body
      → length body ≤ bound
  sized_body_small bound rfile none body e = ground (arith, e)
  sized_body_small bound rfile (some n) body e = body_within_small bound rfile n body e

  read_body_small :
      (bound : ℕ) (q : ProxyRequest) (body : Bytes)
      → read_body R bound q ≡ ok body
      → length body ≤ bound
  unfolding read_body
  read_body_small bound q body e =
      let encoding = R.lower (or_empty (header_of R q.headers "Transfer-Encoding")) in
      let (h, e1) =
        raise_if_ok (not (encoding == "") && not (encoding == "identity"))
          "chunked proxy request bodies are not supported" _ body e in
      sized_body_small bound q.rfile (length_of R (header_of R q.headers "Content-Length")) body e1

  -- The request that stands for one of the proxy.
  pub record IsProxied (p : ProxyServer R) (q : ProxyRequest) (r : HttpRequest) : Type 0 where
    pub url : r.url ≡ strip q.path
    pub method : r.method ≡ q.command
    pub small : length (body_bytes r.body) ≤ p.config.active_testing.max_payload_bytes
    pub headers : All (IsPassed (is_some r.auth_profile)) r.request_headers

  proxy_call-IsProxied :
      (p : ProxyServer R) (q : ProxyRequest) (r : HttpRequest)
      → proxy_call R p q (strip q.path) ≡ ok r
      → IsProxied p q r
  unfolding proxy_call
  proxy_call-IsProxied p q r e =
      let (body, p1, e1) =
        bind_ok (read_body R p.config.active_testing.max_payload_bytes q) _ r e in
      let profile =
        first_of (lookup (lowered R [] q.headers) "x-nighwatch-auth-profile")
          p.default_auth_profile in
      let (headers, p2, e2) = bind_ok (forward_headers R (is_some profile) [] q.headers) _ r e1 in
      let made : HttpRequest = record {
        url = strip q.path;
        method = q.command;
        auth_profile = profile;
        purpose = "controlled tool request through local egress proxy";
        body = RequestBody.raw body;
        request_headers = headers;
        approval_id =
            first_of (lookup (lowered R [] q.headers) "x-nighwatch-approval-id")
              p.default_approval_id;
        payload_label = first_of (lookup (lowered R [] q.headers) "x-nighwatch-payload-label") none;
      } in
      let proxied : IsProxied p q made = record {
        url = refl;
        method = refl;
        small = read_body_small p.config.active_testing.max_payload_bytes q body p1;
        headers = forward_headers-IsPassed (is_some profile) [] q.headers headers tt p2;
      } in
      let same : made ≡ r = ground (arith, e2) in subst (IsProxied p q) same proxied

  module _ (F : IsFloat R) (p : ProxyServer R) (w : World R) (sendable : String → String → Bool)
      (q : ProxyRequest) where
    -- What was sent is nothing, or what the executor has authorized for the proxied request.
    abbrev pub SendsProxied : List Sent → Type 0
    SendsProxied sent =
        (s : Sent)
        → Memᴰ s sent
        → Memᴰ q.command supported_methods
          × (sent ≡ s ∷ [])
          × ((r : HttpRequest) × IsProxied p q r × Authorised p.executor w r s)

    SendsProxied-nothing : (sent : List Sent) → sent ≡ [] → SendsProxied sent
    SendsProxied-nothing sent e = λ s m. elim (rw e at m) [ ]

    run_call-SendsProxied :
        (r : HttpRequest)
        → Memᴰ q.command supported_methods
        → IsProxied p q r
        → SendsProxied (run_call R p w sendable q r).sent
    unfolding run_call
    run_call-SendsProxied r listed proxied = λ s m.
        let (authorised, only) = execute-Authorised R F p.executor w r s m in
        (listed, only, (r, proxied, authorised))

    forward-SendsProxied :
        Memᴰ q.command supported_methods → SendsProxied (forward R p w sendable q).sent
    forward-SendsProxied listed = elim (Result-cases (urlsplit R (strip q.path))) [
      | inr (message, e) ↦ SendsProxied-nothing _ (unfold forward in ground (arith, e))
      | inl (parsed, e) ↦
          elim (Bool-cases
            (not (contains ("http" ∷ "https" ∷ []) parsed.scheme) || parsed.netloc == "")) [
              | inl relative ↦
                  SendsProxied-nothing _ (unfold forward in ground (arith, e, relative))
              | inr absolute ↦ elim (Bool-cases (not (parsed.fragment == ""))) [
                | inl marked ↦
                    SendsProxied-nothing _ (unfold forward in ground (arith, e, absolute, marked))
                | inr bare ↦ elim (Result-cases (proxy_call R p q (strip q.path))) [
                  | inr (message, c) ↦
                      SendsProxied-nothing _
                        (unfold forward in ground (arith, e, absolute, bare, c))
                  | inl (r, c) ↦
                      let same : (forward R p w sendable q).sent
                          ≡ (run_call R p w sendable q r).sent =
                        unfold forward in ground (arith, e, absolute, bare, c) in
                      subst SendsProxied (sym same)
                        (run_call-SendsProxied r listed (proxy_call-IsProxied p q r c))
                ]
              ]
            ]
    ]

    handle-SendsProxied : SendsProxied (handle R p w sendable q).sent
    handle-SendsProxied = elim (Bool-cases (contains supported_methods q.command)) [
      | inl listed ↦
          let same : handle R p w sendable q ≡ forward R p w sendable q =
            unfold handle in ground (arith, listed) in
          subst (λ out. SendsProxied out.sent) (sym same)
            (forward-SendsProxied ((contains_iff supported_methods q.command).0 listed))
      | inr other ↦ elim (Bool-cases (q.command == "CONNECT")) [
        | inl tunnel ↦ SendsProxied-nothing _ (unfold handle in ground (arith, other, tunnel))
        | inr neither ↦ SendsProxied-nothing _ (unfold handle in ground (arith, other, neither))
      ]
    ]

    -- For a runtime with lawful floats, the egress proxy sends nothing or one request; what it
    -- sends is for a method that has a handler which forwards, and was authorized by the executor
    -- for a request with the proxy request's method and its path without surrounding blanks as
    -- the URL, a body within `max_payload_bytes`, and headers that are on the list of those
    -- forwarded, are without line breaks and hold no credential where an authentication profile
    -- is named.
    pub handle_forwards :
        (s : Sent)
        → Memᴰ s (handle R p w sendable q).sent
        → Memᴰ q.command supported_methods
          × ((handle R p w sendable q).sent ≡ s ∷ [])
          × ((r : HttpRequest) × IsProxied p q r × Authorised p.executor w r s)
    handle_forwards = handle-SendsProxied
