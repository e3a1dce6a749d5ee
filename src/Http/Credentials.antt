-- ===== src/Http/Credentials.antt =====
-- `resolve_auth_headers` and `profile_fingerprint`: the secrets of a profile, from memory or from the
-- process environment.
pub mod Laws
use Prim.Native.Char.{Char, code}
use nighwatch.Common.{
  String, ◌<>◌, Bool, true, false, ◌||◌, ◌&&◌, not, Option, none, some, List, [], ◌∷◌, ◌++◌, map,
  Result, ok, err, ◌>>=◌, ◌>>◌, raise_if, contains, eqb, ◌==◌, if◌then◌else◌,
}
use nighwatch.Python.Bytes.{encode}
use nighwatch.Python.Dicts.{lookup, set_key}
use nighwatch.Python.Runtime.{Runtime}
use nighwatch.Python.Sets.{insert, join}
use nighwatch.Python.Str.{is_ascii_alpha, is_ascii_digit, all_chars, lstrip_of, rstrip_of}
use nighwatch.Models.Config.{EngagementConfig}
use nighwatch.Security.Kill.{Surroundings, or_else}
use nighwatch.Http.Failure.{HttpFailure, config_error}
use nighwatch.Http.Headers.{Headers, auth_header_names, breaks_line}

-- `re.sub(r"[^A-Za-z0-9]+", "_", s)`; the flag says that the character before was replaced.
unfoldable pub replace_runs : Bool → String → String
replace_runs in_run String.[] = ""
replace_runs in_run (String.◌∷◌ c s) =
    if is_ascii_alpha c || is_ascii_digit c
    then String.◌∷◌ c (replace_runs false s)
    else if in_run
    then replace_runs true s
    else "_" <> replace_runs true s

abbrev is_underscore : Char → Bool
is_underscore c = eqb (code c) b'_'

-- ``re.fullmatch(r"[!#$%&'*+.^_`|~0-9A-Za-z-]+", name)``
is_token_char : Char → Bool
is_token_char c =
    is_ascii_alpha c
    || is_ascii_digit c
    || contains
        ("!" ∷ "#" ∷ "$" ∷ "%" ∷ "&" ∷ "'" ∷ "*" ∷ "+" ∷ "." ∷ "^" ∷ "_" ∷ "`" ∷ "|" ∷ "~" ∷ "-"
          ∷ [])
        (String.◌∷◌ c "")

unfoldable pub is_token : String → Bool
unfolding is_token_char contains all_chars
is_token name = not (name == "") && all_chars is_token_char name

-- A text that is set and not empty.
abbrev pub truthy : Option String → Option String
truthy none = none
truthy (some s) = if s == "" then none else some s

abbrev pub entry_of : String → Option String → Headers
entry_of name none = []
entry_of name (some value) = (name, value) ∷ []

abbrev pub mark_bearer : Option String → Option String
mark_bearer none = none
mark_bearer (some s) = some ("Bearer " <> s)

-- `os.getenv(f"NIGHWATCH_AUTH_{suffix}_...") or os.getenv(f"AGENTSEC_AUTH_{suffix}_...")`
abbrev pub auth_variable : Surroundings → String → String → Option String
auth_variable w suffix kind = truthy (
    or_else (w.getenv ("NIGHWATCH_AUTH_" <> suffix <> "_" <> kind))
      (w.getenv ("AGENTSEC_AUTH_" <> suffix <> "_" <> kind)))

unfoldable pub headers_from_environment : Surroundings → String → Headers
headers_from_environment w suffix =
    entry_of "Authorization" (mark_bearer (auth_variable w suffix "BEARER"))
    ++ entry_of "Cookie" (auth_variable w suffix "COOKIE")

module _ (R : Runtime) where
  -- `_safe_profile_suffix`
  unfoldable pub safe_profile_suffix : String → Result (HttpFailure R) String
  unfolding replace_runs lstrip_of rstrip_of
  safe_profile_suffix profile =
      let suffix =
        R.upper (rstrip_of is_underscore (lstrip_of is_underscore (replace_runs false profile))) in
      if suffix == ""
      then err
          (config_error "auth profile identifier cannot be converted to an environment variable")
      else ok suffix

  -- The loop that checks the headers.
  unfoldable pub check_auth_headers : Headers → Result (HttpFailure R) (Unit {0})
  check_auth_headers [] = ok tt
  check_auth_headers ((name, value) ∷ headers) =
      let rest = check_auth_headers headers in
      if not (contains auth_header_names (R.lower name))
      then err (config_error ("auth profile header is not permitted: " <> name))
      else if not (is_token name) || breaks_line value
      then err (config_error "auth profile contains an invalid HTTP header")
      else rest

  -- The headers of a declared profile, before they are checked.
  load_headers : Option Headers → Surroundings → String → Result (HttpFailure R) Headers
  load_headers (some headers) w profile = ok headers
  load_headers none w profile = do
    suffix ← safe_profile_suffix profile
    ok (headers_from_environment w suffix)

  check_loaded : String → Headers → Result (HttpFailure R) Headers
  check_loaded profile [] = err (config_error ("no secret is loaded for auth profile: " <> profile))
  check_loaded profile (h ∷ headers) = check_auth_headers (h ∷ headers) >> ok (h ∷ headers)

  -- `resolve_auth_headers`, with the process environment.
  unfoldable pub resolve_auth_headers :
      EngagementConfig R
      → Option String
      → List (String × Headers)
      → Surroundings
      → Result (HttpFailure R) Headers
  unfolding load_headers check_loaded
  resolve_auth_headers c none explicit w = ok []
  resolve_auth_headers c (some profile) explicit w =
      let loaded = load_headers (lookup explicit profile) w profile >>= check_loaded profile in
      if not (contains c.auth_profiles profile)
      then err (config_error ("auth profile is not declared in the engagement: " <> profile))
      else loaded

  -- `sorted(headers.items())`: by name, which are all different.
  sort_items : Headers → Headers
  sort_items [] = []
  sort_items (h ∷ headers) = insert (λ kv. kv.0) h (sort_items headers)

  -- `HttpExecutor.profile_fingerprint`
  unfoldable pub profile_fingerprint :
      EngagementConfig R
      → String
      → List (String × Headers)
      → Surroundings
      → Result (HttpFailure R) String
  unfolding sort_items
  profile_fingerprint c profile explicit w = do
    headers ← resolve_auth_headers c (some profile) explicit w
    let lines = map (λ kv. R.lower kv.0 <> ":" <> kv.1) (sort_items headers)
    ok (R.sha256 (encode (join "\n" lines)))
