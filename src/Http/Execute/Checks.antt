-- ===== src/Http/Execute/Checks.antt =====
-- Which requests pass the checks before the gateway, and what follows for what is sent.
use nighwatch.Common.{
  ◌≤◌, true, false, none, [], ◌∷◌, ◌≡◌, ◌⊎◌, arith, All, ok, Result-cases, inl, inr, contains,
  length,
}
use nighwatch.Python.Bytes.{Bytes, is_empty}
use nighwatch.Python.Dicts.{update}
use nighwatch.Python.Runtime.{Runtime}
use nighwatch.Http.Headers.{
  supported_methods, bodyless_methods, validate_forward_headers, has_auth_header,
}
use nighwatch.Http.Headers.Laws.{IsForwardable, validate_forward_headers_sound}
use nighwatch.Http.Execute.{HttpExecutor, HttpRequest, Checked, body_bytes, check_request}

empty_of : (bs : Bytes) → is_empty bs ≡ true → bs ≡ []
empty_of [] h = ground arith
empty_of (b ∷ bs) h = ground (arith, h)

module _ (R : Runtime) (x : HttpExecutor R) (r : HttpRequest) (c : Checked)
    (e : check_request R x r ≡ ok c) where
  -- A request that passes the checks has a supported method, upper-cased; its body is the
  -- caller's, within the engagement's bound, and empty for GET, HEAD and OPTIONS; its headers are
  -- the caller's, all listed and without line breaks, and none of them is an authentication
  -- header when a profile is used.
  pub check_request_sound :
      (c.method ≡ R.upper r.method)
      × (contains supported_methods c.method ≡ true)
      × (c.body ≡ body_bytes r.body)
      × (length c.body ≤ x.config.active_testing.max_payload_bytes)
      × ((contains bodyless_methods c.method ≡ false) ⊎ (c.body ≡ []))
      × (c.headers ≡ update [] r.request_headers)
      × All (IsForwardable R) c.headers
      × ((r.auth_profile ≡ none) ⊎ (has_auth_header R c.headers ≡ false))
  unfolding check_request
  check_request_sound = elim (Result-cases (validate_forward_headers R r.request_headers)) [
    | inr (failure, p) ↦ ground (arith, e, p)
    | inl (headers, p) ↦
        let (given, all, same) = validate_forward_headers_sound R r.request_headers headers p in
        let same_headers : c.headers ≡ headers = ground (arith, e, p) in
        (
          ground (arith, e, p),
          ground (arith, e, p),
          ground (arith, e, p),
          ground (arith, e, p),
          ground (arith, e, p, empty_of c.body),
          ground (arith, same_headers, same),
          rw same_headers all,
          ground (arith, e, p, same_headers),
        )
  ]
