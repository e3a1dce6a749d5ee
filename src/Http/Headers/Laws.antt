-- ===== src/Http/Headers/Laws.antt =====
-- Which headers a caller may send through the egress boundary.
use nighwatch.Common.{String, true, false, [], ◌∷◌, ◌≡◌, ◌↔◌, refl, arith, All, contains, ok}
use nighwatch.Python.Dicts.{set_key, update}
use nighwatch.Python.DictLaws.{set_key-All}
use nighwatch.Python.Runtime.{Runtime}
use nighwatch.Http.Headers.{
  Headers, forward_header_names, breaks_line, validate_into, validate_forward_headers,
}

module _ (R : Runtime) where
  -- A header that a caller may give: its name is listed and it has no line break.
  abbrev pub IsForwardable : String × String → Type 0
  IsForwardable (name, value) =
      (contains forward_header_names (R.lower name) ≡ true)
      × (breaks_line name ≡ false)
      × (breaks_line value ≡ false)

  validate_into_sound :
      (result headers out : Headers)
      → All IsForwardable result
      → validate_into R result headers ≡ ok out
      → All IsForwardable headers × All IsForwardable out × (out ≡ update result headers)
  unfolding validate_into update
  validate_into_sound result [] out h e =
      let same : result ≡ out = ground (arith, e) in (tt, rw same at h, ground (arith, same))
  validate_into_sound result ((name, value) ∷ headers) out h e =
      let good : IsForwardable (name, value) = ground (arith, e) in
      let more : validate_into R (set_key result name value) headers ≡ ok out = ground (arith, e) in
      let (rest, all, same) =
        validate_into_sound (set_key result name value) headers out
          (set_key-All IsForwardable result name value h good) more in
      ((good, rest), all, same)

  validate_into_complete :
      (result headers : Headers)
      → All IsForwardable headers
      → validate_into R result headers ≡ ok (update result headers)
  unfolding validate_into update
  validate_into_complete result [] h = refl
  validate_into_complete result ((name, value) ∷ headers) h =
      ground (arith, h.0, validate_into_complete (set_key result name value) headers h.1)

  -- The headers of a caller are passed on, as a dictionary, exactly when every name is listed and
  -- no name and no value has a line break.
  pub validate_forward_headers-ok_iff :
      (headers : Headers)
      → (validate_forward_headers R headers ≡ ok (update [] headers)) ↔ All IsForwardable headers
  unfolding validate_forward_headers
  validate_forward_headers-ok_iff headers = (
    λ e. (validate_into_sound [] headers (update [] headers) tt e).0,
    validate_into_complete [] headers,
  )

  pub validate_forward_headers_sound :
      (headers out : Headers)
      → validate_forward_headers R headers ≡ ok out
      → All IsForwardable headers × All IsForwardable out × (out ≡ update [] headers)
  unfolding validate_forward_headers
  validate_forward_headers_sound headers out e = validate_into_sound [] headers out tt e
