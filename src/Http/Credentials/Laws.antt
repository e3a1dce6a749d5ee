-- ===== src/Http/Credentials/Laws.antt =====
-- Which secrets a profile resolves to.
use nighwatch.Common.{
  String, true, false, Option, none, some, List, [], ◌∷◌, ◌≡◌, ◌≢◌, ◌⊎◌, refl, arith, All, contains,
  ok, Result-cases, inl, inr,
}
use nighwatch.Python.Dicts.{lookup}
use nighwatch.Python.Runtime.{Runtime}
use nighwatch.Models.Config.{EngagementConfig}
use nighwatch.Security.Kill.{Surroundings}
use nighwatch.Http.Headers.{Headers, auth_header_names, breaks_line}
use nighwatch.Http.Credentials.{
  is_token, load_headers, check_loaded, check_auth_headers, safe_profile_suffix,
  headers_from_environment, resolve_auth_headers,
}

module _ (R : Runtime) where
  -- A header that a profile may hold: its name is an authentication header's and a token, and its
  -- value has no line break.
  abbrev pub IsCredential : String × String → Type 0
  IsCredential (name, value) =
      (contains auth_header_names (R.lower name) ≡ true)
      × (is_token name ≡ true)
      × (breaks_line value ≡ false)

  check_auth_headers_sound :
      (headers : Headers) → check_auth_headers R headers ≡ ok tt → All IsCredential headers
  unfolding check_auth_headers
  check_auth_headers_sound [] e = tt
  check_auth_headers_sound ((name, value) ∷ headers) e =
      (ground (arith, e), check_auth_headers_sound headers (ground (arith, e)))

  -- What a profile's headers are before they are checked: those given for it, or those of the
  -- environment's variables.
  abbrev pub ComesFrom : List (String × Headers) → Surroundings → String → Headers → Type 0
  ComesFrom explicit w profile headers =
      (lookup explicit profile ≡ some headers)
      ⊎ ((suffix : String) × (lookup explicit profile ≡ none)
          × (safe_profile_suffix R profile ≡ ok suffix)
          × (headers ≡ headers_from_environment w suffix))

  load_headers_sound :
      (given : Option Headers) (w : Surroundings) (profile : String) (headers : Headers)
      → load_headers R given w profile ≡ ok headers
      → (given ≡ some headers)
        ⊎ ((suffix : String) × (given ≡ none)
            × (safe_profile_suffix R profile ≡ ok suffix)
            × (headers ≡ headers_from_environment w suffix))
  unfolding load_headers
  load_headers_sound (some given) w profile headers e = inl (ground (arith, e))
  load_headers_sound none w profile headers e =
      elim (Result-cases (safe_profile_suffix R profile)) [
        | inr (failure, p) ↦ ground (arith, e, p)
        | inl (suffix, p) ↦ inr (suffix, refl, p, ground (arith, e, p))
      ]

  check_loaded_sound :
      (profile : String) (loaded headers : Headers)
      → check_loaded R profile loaded ≡ ok headers
      → (loaded ≡ headers) × (headers ≢ []) × All IsCredential headers
  unfolding check_loaded
  check_loaded_sound profile [] headers e = ground (arith, e)
  check_loaded_sound profile (h ∷ loaded) headers e =
      elim (Result-cases (check_auth_headers R (h ∷ loaded))) [
        | inr (failure, p) ↦ ground (arith, e, p)
        | inl (done, p) ↦
            let same : (h ∷ loaded) ≡ headers = ground (arith, e, p) in
            (same, λ q. ground (arith, same, q), check_auth_headers_sound headers (rw same at p))
      ]

  -- When the headers of a profile are resolved, the profile is declared in the engagement, the
  -- headers are those given for it or, without any given, those of its environment variables,
  -- there is at least one, and each is an authentication header with a valid name and no line
  -- break in its value.
  pub resolve_auth_headers_sound :
      (c : EngagementConfig R) (profile : String) (explicit : List (String × Headers))
      (w : Surroundings) (headers : Headers)
      → resolve_auth_headers R c (some profile) explicit w ≡ ok headers
      → (contains c.auth_profiles profile ≡ true)
        × ComesFrom explicit w profile headers
        × (headers ≢ [])
        × All IsCredential headers
  unfolding resolve_auth_headers
  resolve_auth_headers_sound c profile explicit w headers e =
      elim (Result-cases (load_headers R (lookup explicit profile) w profile)) [
        | inr (failure, p) ↦ ground (arith, e, p)
        | inl (loaded, p) ↦
            let checked : check_loaded R profile loaded ≡ ok headers = ground (arith, e, p) in
            let (same, some_header, all) = check_loaded_sound profile loaded headers checked in
            (
              ground (arith, e),
              load_headers_sound (lookup explicit profile) w profile headers (rw same at p),
              some_header,
              all,
            )
      ]
