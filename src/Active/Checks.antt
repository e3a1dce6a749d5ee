-- ===== src/Active/Checks.antt =====
-- What the checks before the first case let through.
use nighwatch.Common.{
  ℕ, suc, ◌+◌, ◌≤◌, String, true, not, Option, none, some, List, [], ◌∷◌, ◌≡◌, ◌≢◌, ◌⊎◌, refl,
  arith, Memᴰ, ok, bind_ok, raise_if_ok, contains, length, ltb, leb, inl, inr, sym, subst, ap,
}
use nighwatch.Python.Bytes.{encode}
use nighwatch.Python.Runtime.{Runtime}
use nighwatch.Python.Str.{has_text}
use nighwatch.Models.Config.{EngagementConfig}
use nighwatch.Active.{Probe, probe_methods, placeholder, collect, check_probe, some_values}

module _ (R : Runtime) where
  collect_short :
      (bound taken : ℕ) (payloads : List (Option String)) (values : List String)
      → collect R bound taken payloads ≡ ok values
      → (values ≡ []) ⊎ (taken + length values ≤ bound)
  unfolding collect
  collect_short bound taken [] values e = inl (ground (arith, e))
  collect_short bound taken (none ∷ payloads) values e = ground (arith, e)
  collect_short bound taken (some payload ∷ payloads) values e =
      let (h, e1) = raise_if_ok (leb bound taken) _ _ values e in
      let (rest, p, e2) = bind_ok (collect R bound (suc taken) payloads) _ values e1 in
      let same : payload ∷ rest ≡ values = ground (arith, e2) in
      elim (collect_short bound (suc taken) payloads rest p) [
        | inl nothing ↦
            inr (subst (λ vs. taken + length vs ≤ bound) same (rw nothing (ground (arith, h))))
        | inr short ↦ inr (subst (λ vs. taken + length vs ≤ bound) same (omega (arith, short)))
      ]

  collect_given :
      (bound taken : ℕ) (payloads : List (Option String)) (values : List String) (v : String)
      → collect R bound taken payloads ≡ ok values
      → Memᴰ v values
      → Memᴰ (some v) payloads
  unfolding collect
  collect_given bound taken [] values v e m =
      let nothing : values ≡ [] = ground (arith, e) in elim (rw nothing at m) [ ]
  collect_given bound taken (none ∷ payloads) values v e m = ground (arith, e)
  collect_given bound taken (some payload ∷ payloads) values v e m =
      let (h, e1) = raise_if_ok (leb bound taken) _ _ values e in
      let (rest, p, e2) = bind_ok (collect R bound (suc taken) payloads) _ values e1 in
      let same : values ≡ payload ∷ rest = ground (arith, e2) in
      elim (rw same at m) [
        | Memᴰ.head here ↦ Memᴰ.head (ap some here)
        | Memᴰ.tail later ↦ Memᴰ.tail (collect_given bound (suc taken) payloads rest v p later)
      ]

  -- What a probe that passes the checks is.
  abbrev pub IsChecked : EngagementConfig R → Probe → String × List String → Type 0
  IsChecked c p (method, values) =
      (contains probe_methods method ≡ true)
      × (method ≡ R.upper p.method)
      × (length values ≤ c.active_testing.max_cases)
      × ((v : String) → Memᴰ v values → Memᴰ (some v) p.payloads)

  nonempty_ok :
      (method : String) (values : List String) (out : String × List String)
      → some_values R method values ≡ ok out
      → (values ≢ []) × (out ≡ (method, values))
  nonempty_ok method [] out e = ground (arith, e)
  nonempty_ok method (v ∷ vs) out e = (λ h. ground (arith, h), ground (arith, e))

  pub check_probe-IsChecked :
      (c : EngagementConfig R) (p : Probe) (out : String × List String)
      → check_probe R c p ≡ ok out
      → IsChecked c p out
  unfolding check_probe
  check_probe-IsChecked c p out e =
      let (h1, e1) = raise_if_ok (not (contains probe_methods (R.upper p.method))) _ _ out e in
      let (h2, e2) = raise_if_ok (not (has_text placeholder p.body_template)) _ _ out e1 in
      let (h3, e3) =
        raise_if_ok (ltb c.active_testing.max_payload_bytes (length (encode p.body_template))) _ _
          out e2 in
      let (values, q, e4) = bind_ok (collect R c.active_testing.max_cases 0 p.payloads) _ out e3 in
      let (some_value, same) = nonempty_ok (R.upper p.method) values out e4 in
      let short : length values ≤ c.active_testing.max_cases =
        elim (collect_short c.active_testing.max_cases 0 p.payloads values q) [
          | inl nothing ↦ absurd (some_value nothing)
          | inr bounded ↦ omega (arith, bounded)
        ] in
      subst (IsChecked c p) (sym same) (
        ground (arith, h1),
        refl,
        short,
        λ v m. collect_given c.active_testing.max_cases 0 p.payloads values v q m,
      )
