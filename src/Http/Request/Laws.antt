-- ===== src/Http/Request/Laws.antt =====
-- What one exchange sends and how much of the answer it keeps.
use nighwatch.Common.{
  ℕ, zero, suc, ◌≤◌, String, false, Option, some, List, [], ◌∷◌, ◌≡◌, refl, sym, ap, ◌∙◌,
  if◌then◌else◌, arith, ok, ltb, take, length, ◌==◌, Bool-cases, Result-cases, inl, inr, Result,
}
use nighwatch.Python.Bytes.{Bytes}
use nighwatch.Python.Runtime.{Runtime}
use nighwatch.Python.Url.{SplitResult, urlsplit, hostname, port}
use nighwatch.Models.Config.{EngagementConfig}
use nighwatch.Models.Scope.{or_empty, port_or_default}
use nighwatch.Http.Address.{Candidate, resolve_allowed_address}
use nighwatch.Http.Address.Laws.{FirstAdmitted, resolve_allowed_address_sound}
use nighwatch.Http.Headers.{Headers}
use nighwatch.Http.Request.{
  Sent, Answer, Network, request_path, bounded_response, address_request, sent_to,
}

length-take : {A : Type 0} (n : ℕ) (xs : List A) → length (take n xs) ≤ n
length-take zero xs = ground arith
length-take (suc n) [] = ground arith
length-take (suc n) (x ∷ xs) = omega (arith, length-take n xs)

take_short : {A : Type 0} (n : ℕ) (xs : List A) → length xs ≤ n → take n xs ≡ xs
take_short zero [] h = refl
take_short zero (x ∷ xs) h = ground (arith, h)
take_short (suc n) [] h = refl
take_short (suc n) (x ∷ xs) h = ap (λ ys. x ∷ ys) (take_short n xs (omega (arith, h)))

take-take : {A : Type 0} (n : ℕ) (xs : List A) → take n (take (suc n) xs) ≡ take n xs
take-take zero xs = refl
take-take (suc n) [] = refl
take-take (suc n) (x ∷ xs) = ap (λ ys. x ∷ ys) (take-take n xs)

-- One more than the bound is read exactly when there is more than the bound.
length-take_more :
    {A : Type 0} (n : ℕ) (xs : List A) → ltb n (length (take (suc n) xs)) ≡ ltb n (length xs)
length-take_more zero [] = refl
length-take_more zero (x ∷ xs) = ground (arith)
length-take_more (suc n) [] = refl
length-take_more (suc n) (x ∷ xs) = ground (arith, length-take_more n xs)

bounded_take :
    {A : Type 0} (n : ℕ) (xs : List A)
    → (if ltb n (length (take (suc n) xs)) then take n (take (suc n) xs) else take (suc n) xs)
      ≡ take n xs
bounded_take n xs = elim (Bool-cases (ltb n (length (take (suc n) xs)))) [
  | inl more ↦ rw more (take-take n xs)
  | inr fits ↦ rw fits (
      let short : length (take (suc n) xs) ≤ n = ground (arith, fits) in
      sym (take_short n (take (suc n) xs) short) ∙ take-take n xs)
]

module _ (R : Runtime) where
  -- Of the answer to a request other than HEAD, the first `max_body_bytes` bytes are kept, and
  -- the response says that it was truncated exactly when there were more; of the answer to a HEAD
  -- request none are kept, and none is said to be missing.
  pub bounded_response_body :
      (max_body_bytes : ℕ) (url method : String) (elapsed : R.Float) (a : Answer)
      → let response = bounded_response R max_body_bytes url method elapsed a in
        (length response.body ≤ max_body_bytes)
        × (response.body ≡ (if method == "HEAD" then [] else take max_body_bytes a.body))
        × (response.body_truncated
            ≡ (if method == "HEAD" then false else ltb max_body_bytes (length a.body)))
  unfolding bounded_response
  bounded_response_body max_body_bytes url method elapsed a = elim (Bool-cases (method == "HEAD")) [
    | inl head ↦ ground (arith, head)
    | inr other ↦ (
      rw (other, bounded_take max_body_bytes a.body) (length-take max_body_bytes a.body),
      rw other (bounded_take max_body_bytes a.body),
      rw other (length-take_more max_body_bytes a.body),
    )
  ]

  -- What the parts of a request are that is ready to be sent.
  pub record IsAddressed (c : EngagementConfig R) (net : Network) (url method : String)
      (headers : Headers) (body : Bytes) (sent : Sent) : Type 0 where
    pub parts : SplitResult
    pub given : Option ℕ
    pub candidate : Candidate
    pub candidates : List Candidate
    pub split : urlsplit R url ≡ ok parts
    pub number : port R parts ≡ ok given
    pub same_host : sent.host ≡ or_empty (hostname R parts)
    pub same_port : sent.port ≡ port_or_default given (R.lower parts.scheme)
    pub secure : sent.secure ≡ (R.lower parts.scheme == "https")
    pub same_path : sent.path ≡ request_path R parts
    pub same_method : sent.method ≡ method
    pub same_headers : sent.headers ≡ headers
    pub same_body : sent.body ≡ body
    pub resolved : net.getaddrinfo sent.host sent.port ≡ some candidates
    pub chosen : FirstAdmitted net.ip_address c.allow_private_addresses candidate candidates
    pub same_family : sent.family ≡ candidate.family
    pub same_address : sent.sockaddr ≡ candidate.sockaddr

  module _ (c : EngagementConfig R) (net : Network) (url method : String) (headers : Headers)
      (body : Bytes) (sent : Sent)
      (e : address_request R c net url method headers body ≡ ok sent) where
    abbrev resolution : SplitResult → Option ℕ → Result String Candidate
    resolution parts given =
        resolve_allowed_address net.getaddrinfo net.ip_address (or_empty (hostname R parts))
          (port_or_default given (R.lower parts.scheme)) c.allow_private_addresses

    -- A request that is ready to be sent goes to the URL's host, port and path, in its scheme,
    -- with the method, headers and body it was given, and to the first address of the host that
    -- the engagement admits.
    pub address_request-IsAddressed : IsAddressed c net url method headers body sent
    unfolding address_request sent_to
    address_request-IsAddressed = elim (Result-cases (urlsplit R url)) [
      | inr (message, p) ↦ ground (arith, e, p)
      | inl (parts, p) ↦ elim (Result-cases (port R parts)) [
        | inr (message, q) ↦ ground (arith, e, p, q)
        | inl (given, q) ↦ elim (Result-cases (resolution parts given)) [
          | inr (message, r) ↦ ground (arith, e, p, q, r)
          | inl (candidate, r) ↦
              let same : sent_to R parts (port_or_default given (R.lower parts.scheme)) candidate
                    method headers body
                  ≡ sent =
                ground (arith, e, p, q, r) in
              let (candidates, answer, first) =
                resolve_allowed_address_sound net.getaddrinfo net.ip_address
                  (or_empty (hostname R parts)) (port_or_default given (R.lower parts.scheme))
                  c.allow_private_addresses candidate r in
              rw (sym same) (record {
                parts = parts;
                given = given;
                candidate = candidate;
                candidates = candidates;
                split = p;
                number = q;
                same_host = refl;
                same_port = refl;
                secure = refl;
                same_path = refl;
                same_method = refl;
                same_headers = refl;
                same_body = refl;
                resolved = answer;
                chosen = first;
                same_family = refl;
                same_address = refl;
              })
        ]
      ]
    ]
