-- ===== src/Security/Redact/Laws.antt =====
-- What the redaction hides, and what it keeps.
use nighwatch.Common.{String, false, List, [], ◌∷◌, ok, contains, ◌≡◌, ◌≢◌, refl, arith}
use nighwatch.Python.Runtime.{Runtime}
use nighwatch.Python.Url.{SplitResult, urlsplit, urlunsplit}
use nighwatch.Python.Url.Laws.{HasPart, urlunsplit-netloc}
use nighwatch.Security.Redact.{
  sensitive_query_keys, sensitive_headers, redact_pairs, redact_headers, redact_url,
}

module _ (R : Runtime) (sensitive : List String) where
  -- The same names in the same order, and the same values but for sensitive names.
  abbrev pub SamePublic : List (String × String) → List (String × String) → Type 0
  SamePublic [] [] = Unit
  SamePublic [] (_ ∷ _) = ⊥
  SamePublic (_ ∷ _) [] = ⊥
  SamePublic ((k, v) ∷ xs) ((j, w) ∷ ys) =
      (k ≡ j) × (contains sensitive (R.lower k) ≡ false → v ≡ w) × SamePublic xs ys

  pub redact_pairs-SamePublic :
      (xs ys : List (String × String))
      → SamePublic xs ys
      → redact_pairs R sensitive xs ≡ redact_pairs R sensitive ys
  unfolding redact_pairs
  redact_pairs-SamePublic [] [] s = refl
  redact_pairs-SamePublic [] (y ∷ ys) s = elim s [ ]
  redact_pairs-SamePublic (x ∷ xs) [] s = elim s [ ]
  redact_pairs-SamePublic ((k, v) ∷ xs) ((j, w) ∷ ys) (same, values, rest) =
      ground (arith, redact_pairs-SamePublic xs ys rest)

  pub redact_pairs_public :
      (xs : List (String × String)) → SamePublic xs (redact_pairs R sensitive xs)
  unfolding redact_pairs
  redact_pairs_public [] = tt
  redact_pairs_public ((k, v) ∷ xs) = (refl, λ h. ground arith, redact_pairs_public xs)

-- Header lists that agree but for the values of sensitive headers are redacted alike, and
-- redaction changes no name and no other value.
pub redact_headers_hides :
    (R : Runtime) (xs ys : List (String × String))
    → SamePublic R sensitive_headers xs ys
    → (redact_headers R xs ≡ redact_headers R ys)
      × SamePublic R sensitive_headers xs (redact_headers R xs)
unfolding redact_headers
redact_headers_hides R xs ys s = (
  redact_pairs-SamePublic R sensitive_headers xs ys s,
  redact_pairs_public R sensitive_headers xs,
)

-- Two URLs that split into the same scheme, network location and path, and into queries that
-- agree but for the values of sensitive names, are redacted alike.
pub redact_url_hides :
    (R : Runtime) (s t : String) (u v : SplitResult)
    → urlsplit R s ≡ ok u
    → urlsplit R t ≡ ok v
    → (u.scheme ≡ v.scheme) × (u.netloc ≡ v.netloc) × (u.path ≡ v.path)
    → SamePublic R sensitive_query_keys (R.parse_qsl u.query) (R.parse_qsl v.query)
    → redact_url R s ≡ redact_url R t
unfolding redact_url
redact_url_hides R s t u v p q (scheme, netloc, path) same =
    let e = redact_pairs-SamePublic R sensitive_query_keys _ _ same in
    rw (p, q) (cc (scheme, netloc, path, e))

-- The network location of a URL, if it is not empty, stands unchanged in the redacted URL, with
-- any user name and password in it.
pub redact_url_keeps_netloc :
    (R : Runtime) (url safe : String) (u : SplitResult)
    → urlsplit R url ≡ ok u
    → u.netloc ≢ ""
    → redact_url R url ≡ ok safe
    → HasPart u.netloc safe
unfolding redact_url
redact_url_keeps_netloc R url safe u parsed located e =
    let query = R.urlencode (redact_pairs R sensitive_query_keys (R.parse_qsl u.query)) in
    let out : SplitResult = record u { query = query; fragment = "" } in
    let same : urlunsplit out ≡ safe = ground (arith, parsed) in
    rw same at (urlunsplit-netloc out located)
