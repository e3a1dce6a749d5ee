-- ===== src/Ollama/Config/Laws.antt =====
-- Which base URLs the client of the model server accepts.
use nighwatch.Common.{
  String, Bool, true, false, ◌&&◌, ◌||◌, not, Option, none, some, [], ◌∷◌, ok, ◌>>◌, raise_if_ok,
  bind_ok, is_some, ◌==◌, contains, contains_iff, ◌≡◌, ◌≢◌, refl, arith, eq_iff, Result-cases, inl,
  inr, Memᴰ, subst,
}
use nighwatch.Python.Runtime.{Runtime}
use nighwatch.Python.Str.{strip, rstrip_char}
use nighwatch.Python.Url.{SplitResult, urlsplit, username, password, hostname}
use nighwatch.Models.Scope.{or_empty}
use nighwatch.Ollama.Config.{
  OllamaConfig, bad_config, local_hosts, is_positive, check_base, check_settings, post_init,
  from_env, or_error, timeout_text, temperature_text, tokens_text,
}

is_some-none : {A : Type 0} (v : Option A) → is_some v ≡ false → v ≡ none
is_some-none none h = refl
is_some-none (some a) h = ground (arith, h)

module _ (R : Runtime) where
  -- A base URL of the server's root, on this machine unless that is waived.
  pub record IsRoot (allow_remote : Bool) (parsed : SplitResult) : Type 0 where
    pub web : Memᴰ parsed.scheme ("http" ∷ "https" ∷ [])
    pub named : or_empty (hostname R parsed) ≢ ""
    pub anonymous : (username parsed ≡ none) × (password parsed ≡ none)
    pub root : Memᴰ parsed.path ("" ∷ "/" ∷ [])
    pub bare : (parsed.query ≡ "") × (parsed.fragment ≡ "")
    pub local : allow_remote ≡ false → Memᴰ (R.lower (or_empty (hostname R parsed))) local_hosts

  check_base-IsRoot :
      (allow_remote : Bool) (parsed : SplitResult)
      → check_base R allow_remote parsed ≡ ok tt
      → IsRoot allow_remote parsed
  unfolding check_base
  check_base-IsRoot allow_remote parsed e =
      let host = or_empty (hostname R parsed) in
      let (h1, e1) =
        raise_if_ok (not (contains ("http" ∷ "https" ∷ []) parsed.scheme) || host == "")
          (bad_config "Ollama base URL must be an http(s) URL with a hostname") _ tt e in
      let (h2, e2) =
        raise_if_ok (is_some (username parsed) || is_some (password parsed))
          (bad_config "Ollama base URL must not contain credentials") _ tt e1 in
      let (h3, e3) =
        raise_if_ok
          (not (contains ("" ∷ "/" ∷ []) parsed.path)
            || (not (parsed.query == "") || not (parsed.fragment == "")))
          (bad_config "Ollama base URL must point to the server root, not a path or query") _ tt
          e2 in
      record {
        web = (contains_iff _ _).0 (ground (arith, h1));
        named = λ h. ground (arith, h1, eq_iff host "", h);
        anonymous = (
          is_some-none (username parsed) (ground (arith, h2)),
          is_some-none (password parsed) (ground (arith, h2)),
        );
        root = (contains_iff _ _).0 (ground (arith, h3));
        bare = (
          ground (arith, h3, eq_iff parsed.query ""),
          ground (arith, h3, eq_iff parsed.fragment ""),
        );
        local = λ h. (contains_iff _ _).0 (ground (arith, e3, h));
      }

  -- A configuration of the client as it is kept, for the base URL that was given.
  pub record IsLocal (given kept : OllamaConfig R) : Type 0 where
    pub parsed : SplitResult
    pub base : kept.base_url ≡ rstrip_char b'/' given.base_url
    pub splits : urlsplit R kept.base_url ≡ ok parsed
    pub at_root : IsRoot kept.allow_remote parsed
    pub same_waiver : kept.allow_remote ≡ given.allow_remote
    pub same_model : (kept.model ≡ given.model) × (strip kept.model ≢ "")
    pub timeout : R.float_le kept.timeout_seconds (R.float 0) ≡ false
    pub tokens : is_positive kept.max_tokens ≡ true
    pub cold : R.float_le (R.float 0) kept.temperature ≡ true
    pub hot : R.float_le kept.temperature (R.float 2) ≡ true

  check_settings-IsLocal :
      (c kept : OllamaConfig R) (parsed : SplitResult)
      → urlsplit R (rstrip_char b'/' c.base_url) ≡ ok parsed
      → IsRoot c.allow_remote parsed
      → check_settings R c (rstrip_char b'/' c.base_url) ≡ ok kept
      → IsLocal c kept
  unfolding check_settings
  check_settings-IsLocal c kept parsed splits at_root e =
      let (h1, e1) =
        raise_if_ok (strip c.model == "") (bad_config "Ollama model cannot be empty") _ kept e in
      let (h2, e2) =
        raise_if_ok (R.float_le c.timeout_seconds (R.float 0))
          (bad_config "Ollama timeout must be greater than zero") _ kept e1 in
      let (h3, e3) =
        raise_if_ok (not (is_positive c.max_tokens))
          (bad_config "Ollama max_tokens must be greater than zero") _ kept e2 in
      let (h4, e4) =
        raise_if_ok
          (not (R.float_le (R.float 0) c.temperature && R.float_le c.temperature (R.float 2)))
          (bad_config "Ollama temperature must be between 0 and 2") _ kept e3 in
      let made : OllamaConfig R = record c { base_url = rstrip_char b'/' c.base_url } in
      let checked : IsLocal c made = record {
        parsed = parsed;
        base = refl;
        splits = splits;
        at_root = at_root;
        same_waiver = refl;
        same_model = (refl, λ h. ground (arith, h1, eq_iff (strip c.model) "", h));
        timeout = h2;
        tokens = ground (arith, h3);
        cold = ground (arith, h4);
        hot = ground (arith, h4);
      } in
      let same : made ≡ kept = ground (arith, e4) in subst (IsLocal c) same checked

  pub post_init-IsLocal :
      (given kept : OllamaConfig R) → post_init R given ≡ ok kept → IsLocal given kept
  unfolding post_init
  post_init-IsLocal c kept e =
      let base = rstrip_char b'/' c.base_url in
      elim (Result-cases (urlsplit R base)) [
        | inr (x, p) ↦ ground (arith, e, p)
        | inl (parsed, p) ↦
            let e1 : (check_base R c.allow_remote parsed >> check_settings R c base) ≡ ok kept =
              ground (arith, e, p) in
            let (u, q, e2) = bind_ok (check_base R c.allow_remote parsed) _ kept e1 in
            let checked : check_base R c.allow_remote parsed ≡ ok tt = q in
            check_settings-IsLocal c kept parsed p (check_base-IsRoot c.allow_remote parsed checked)
              e2
      ]

  -- Whatever the environment says, a configuration that it gives is one that was checked.
  pub from_env-IsLocal :
      (getenv : String → Option String) (model_override : Option String) (kept : OllamaConfig R)
      → from_env R getenv model_override ≡ ok kept
      → (given : OllamaConfig R) × IsLocal given kept
  unfolding from_env
  from_env-IsLocal getenv model_override kept e =
      let (t, p1, e1) = bind_ok (or_error (R.text_float (timeout_text getenv))) _ kept e in
      let (h, p2, e2) = bind_ok (or_error (R.text_float (temperature_text getenv))) _ kept e1 in
      let (n, p3, e3) = bind_ok (or_error (R.text_int (tokens_text getenv))) _ kept e2 in
      (_, post_init-IsLocal _ kept e3)
