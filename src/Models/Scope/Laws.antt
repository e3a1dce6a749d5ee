-- ===== src/Models/Scope/Laws.antt =====
-- Which targets `check_url` allows, stated without its loop and its early returns.
use nighwatch.Common.{
  String, true, false, none, List, [], ◌∷◌, ok, contains, ◌≡◌, refl, ◌↔◌, ◌⊎◌, inl, inr, Memᴰ,
  arith, eq_iff, Bool-cases, Result-cases, contains_iff, contains_int_iff,
}
use nighwatch.Python.Runtime.{Runtime}
use nighwatch.Python.Str.{strip}
use nighwatch.Python.Url.{username, password}
use nighwatch.Models.Config.{ScopeOrigin, EngagementConfig}
use nighwatch.Models.PathMatch.{normalize_prefix}
use nighwatch.Models.PathMatch.Laws.{Covers, path_matches_iff}
use nighwatch.Models.Scope.{
  Parsed, parse_target, origin_matches, path_or_root, check_origins, check_parsed, check_url,
}

-- The origin is that of the target: scheme, host and port.
abbrev pub Serves : Parsed → ScopeOrigin → Type 0
Serves p o = (p.scheme ≡ o.scheme) × (p.host ≡ o.host) × Memᴰ p.port o.ports

-- The first origin of a list that serves a target.
pub data FirstServing (p : Parsed) (o : ScopeOrigin) : List ScopeOrigin → Type 0 where
  here : {os : List ScopeOrigin} → Serves p o → FirstServing p o (o ∷ os)
  later :
      {x : ScopeOrigin} {os : List ScopeOrigin}
      → ¬ Serves p x
      → FirstServing p o os
      → FirstServing p o (x ∷ os)

abbrev pub AllowsPath : String → List String → Type 0
AllowsPath path prefixes =
    (prefixes ≡ [])
    ⊎ ((prefix : String) × Memᴰ prefix prefixes × Covers (normalize_prefix prefix) path)

-- The first origin that serves the target has its method and its path.
abbrev pub Granted : Parsed → String → List ScopeOrigin → Type 0
Granted p method origins =
    (o : ScopeOrigin) × FirstServing p o origins
    × Memᴰ method o.methods
    × AllowsPath (path_or_root p.parts.path) o.path_prefixes

pub record InScope {R : Runtime} (c : EngagementConfig R) (p : Parsed) (method : String)
    : Type 0 where
  pub web : (p.scheme ≡ "http") ⊎ (p.scheme ≡ "https")
  pub no_user : username p.parts ≡ none
  pub no_password : password p.parts ≡ none
  pub no_fragment : p.parts.fragment ≡ ""
  pub not_excluded : ¬ Memᴰ p.host c.excluded_hosts
  pub granted : Granted p method c.allowed_origins

origin_matches_iff : (p : Parsed) (o : ScopeOrigin) → (origin_matches p o ≡ true) ↔ Serves p o
unfolding origin_matches
origin_matches_iff p o = (
  λ h. (
    (eq_iff p.scheme o.scheme).0 (ground arith),
    (eq_iff p.host o.host).0 (ground arith),
    (contains_int_iff o.ports p.port).0 (ground arith),
  ),
  λ (s, h, m). ground (
    arith,
    (eq_iff p.scheme o.scheme).1 s,
    (eq_iff p.host o.host).1 h,
    (contains_int_iff o.ports p.port).1 m,
  ),
)

-- The checks on the origin that the loop stops at.
served :
    (p : Parsed) (method : String) (o : ScopeOrigin) (os : List ScopeOrigin)
    → origin_matches p o ≡ true
    → ((check_origins p method (o ∷ os)).0 ≡ true)
      ↔ (Memᴰ method o.methods × AllowsPath (path_or_root p.parts.path) o.path_prefixes)
unfolding check_origins
served p method o os found = (
  λ h. (
    (contains_iff o.methods method).0 (ground arith),
    (path_matches_iff _ o.path_prefixes).0 (ground arith),
  ),
  λ (m, a). ground (
    arith,
    (contains_iff o.methods method).1 m,
    (path_matches_iff (path_or_root p.parts.path) o.path_prefixes).1 a,
  ),
)

check_origins_sound :
    (p : Parsed) (method : String) (os : List ScopeOrigin)
    → (check_origins p method os).0 ≡ true
    → Granted p method os
check_origins_sound p method [] h = unfold check_origins in cc
check_origins_sound p method (o ∷ os) h = elim (Bool-cases (origin_matches p o)) [
  | inl found ↦
      let (m, a) = (served p method o os found).0 h in
      (o, here ((origin_matches_iff p o).0 found), m, a)
  | inr other ↦
      let (w, first, m, a) =
        check_origins_sound p method os (unfold check_origins in ground arith) in
      (w, later (λ s. cc ((origin_matches_iff p o).1 s)) first, m, a)
]

check_origins_complete :
    (p : Parsed) (method : String) {o : ScopeOrigin} {os : List ScopeOrigin}
    → FirstServing p o os
    → Memᴰ method o.methods
    → AllowsPath (path_or_root p.parts.path) o.path_prefixes
    → (check_origins p method os).0 ≡ true
unfolding check_origins
check_origins_complete p method {o} (here s) m a =
    (served p method o _ ((origin_matches_iff p o).1 s)).1 (m, a)
check_origins_complete p method (later {x} ns first) m a = elim (Bool-cases (origin_matches p x)) [
  | inl found ↦ absurd (ns ((origin_matches_iff p x).0 found))
  | inr other ↦ ground (arith, check_origins_complete p method first m a)
]

check_parsed_iff :
    {R : Runtime} (c : EngagementConfig R) (p : Parsed) (method : String)
    → ((check_parsed c p method).0 ≡ true) ↔ InScope c p method
unfolding check_parsed
check_parsed_iff c p method = (
  λ h. record {
    web = ground (arith, eq_iff p.scheme "http", eq_iff p.scheme "https");
    no_user = ground arith;
    no_password = ground arith;
    no_fragment = ground (arith, eq_iff p.parts.fragment "");
    not_excluded = λ m. ground (arith, (contains_iff c.excluded_hosts p.host).1 m);
    granted = check_origins_sound p method c.allowed_origins (ground arith);
  },
  λ s.
      let (o, first, m, a) = s.granted in
      elim (Bool-cases (contains c.excluded_hosts p.host)) [
        | inl bad ↦ absurd (s.not_excluded ((contains_iff _ _).0 bad))
        | inr fine ↦ ground (
          arith,
          check_origins_complete p method first m a,
          eq_iff p.scheme "http",
          eq_iff p.scheme "https",
          eq_iff p.parts.fragment "",
        )
      ],
)

-- `check_url` allows a URL exactly when it parses, has scheme http or https, no user information
-- and no fragment, its host is not excluded, and the first origin with its scheme, host and port
-- lists the method and covers the path.
pub check_url-allowed_iff :
    (R : Runtime) (c : EngagementConfig R) (url method : String)
    → ((check_url R c url method).allowed ≡ true)
      ↔ ((p : Parsed) × (parse_target R (strip url) ≡ ok p) × InScope c p (R.upper method))
unfolding check_url
check_url-allowed_iff R c url method = (
  λ h. elim (Result-cases (parse_target R (strip url))) [
    | inl (p, e) ↦ (p, e, (check_parsed_iff c p (R.upper method)).0 (ground arith))
    | inr (message, e) ↦ ground arith
  ],
  λ (p, e, s). ground (arith, (check_parsed_iff c p (R.upper method)).1 s),
)

FirstServing-unique :
    (p : Parsed) {o w : ScopeOrigin} {os : List ScopeOrigin}
    → FirstServing p o os
    → FirstServing p w os
    → o ≡ w
FirstServing-unique p (here s) (here t) = refl
FirstServing-unique p (here s) (later n g) = absurd (n s)
FirstServing-unique p (later n f) (here t) = absurd (n t)
FirstServing-unique p (later n f) (later m g) = FirstServing-unique p f g

-- If the first origin with the target's scheme, host and port does not list the method, the URL
-- is refused, whatever later origins say.
pub check_url_first_origin :
    (R : Runtime) (c : EngagementConfig R) (url method : String) (p : Parsed) (o : ScopeOrigin)
    → parse_target R (strip url) ≡ ok p
    → FirstServing p o c.allowed_origins
    → ¬ Memᴰ (R.upper method) o.methods
    → (check_url R c url method).allowed ≡ false
check_url_first_origin R c url method p o parsed first lacks =
    elim (Bool-cases (check_url R c url method).allowed) [
      | inr refused ↦ refused
      | inl allowed ↦
          let (q, parsed', s) = (check_url-allowed_iff R c url method).0 allowed in
          let same : p ≡ q = cc in
          let (w, first', m, a) = s.granted in
          absurd (lacks (rw (FirstServing-unique q (rw same at first) first') m))
    ]
