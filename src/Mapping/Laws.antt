-- ===== src/Mapping/Laws.antt =====
-- What the application map keeps from one observation to the next.
use nighwatch.Common.{
  String, false, some, List, [], ◌∷◌, ◌≡◌, refl, arith, ◌==◌, eq_iff, eq_refl, Memᴰ, All, ok,
  Result-cases, inl, inr,
}
use nighwatch.Python.Runtime.{Runtime}
use nighwatch.Python.SetLaws.{All-update_set, HasKey, All-HasKey}
use nighwatch.Python.Str.{str_int}
use nighwatch.Security.Redact.{redact_url}
use nighwatch.Mapping.{
  Endpoint, Endpoints, Observed, Identified, get_endpoint, set_endpoint, str_key, profile_list,
  json_field_names, identify, observe, endpoint_or, merge,
}

get-set_same :
    (es : Endpoints) (key : String) (e : Endpoint)
    → get_endpoint (set_endpoint es key e) key ≡ some e
unfolding get_endpoint set_endpoint
get-set_same [] key e = ground (arith, eq_refl key)
get-set_same ((k, d) ∷ es) key e = ground (arith, get-set_same es key e)

get-set_other :
    (es : Endpoints) (key other : String) (e : Endpoint)
    → (key == other) ≡ false
    → get_endpoint (set_endpoint es key e) other ≡ get_endpoint es other
unfolding get_endpoint set_endpoint
get-set_other [] key other e h = ground arith
get-set_other ((k, d) ∷ es) key other e h =
    ground (arith, get-set_other es key other e h, eq_iff k key, eq_iff key other, eq_iff k other)

abbrev Within : {A : Type 0} → List A → List A → Type 0
Within xs ys = All (λ x. Memᴰ x ys) xs

-- The second entry names the same endpoint and has lost nothing of the first.
pub record Grows (d e : Endpoint) : Type 0 where
  pub same_id : e.endpoint_id ≡ d.endpoint_id
  pub same_method : e.method ≡ d.method
  pub same_origin : e.origin ≡ d.origin
  pub same_path : e.path_template ≡ d.path_template
  pub query_params : Within d.query_params e.query_params
  pub object_refs : Within d.object_refs e.object_refs
  pub profiles : Within d.observed_auth_profiles e.observed_auth_profiles
  pub statuses : Within d.status_codes e.status_codes
  pub response_fields : Within d.response_fields e.response_fields
  pub evidence : Within d.evidence_ids e.evidence_ids

-- The entry shows what the observation has found.
pub record Shows (R : Runtime) (o : Observed) (found : Identified) (e : Endpoint) : Type 0 where
  pub query_params : All (HasKey str_key e.query_params) found.query
  pub object_refs : All (HasKey str_key e.object_refs) found.refs
  pub profiles : All (HasKey str_key e.observed_auth_profiles) (profile_list o.auth_profile)
  pub statuses : All (HasKey str_int e.status_codes) (o.status ∷ [])
  pub response_fields : All (HasKey str_key e.response_fields) (json_field_names R o.response_body)
  pub evidence : All (HasKey str_key e.evidence_ids) (o.evidence_id ∷ [])
  pub url : String
  pub redacted : redact_url R o.url ≡ ok url
  pub last_url : e.last_observed_url ≡ some url

merge-Grows :
    (R : Runtime) (e : Endpoint) (query refs : List String) (o : Observed) (url : String)
    → Grows e (merge R e query refs o url)
unfolding merge
merge-Grows R e query refs o url = record {
  same_id = refl;
  same_method = refl;
  same_origin = refl;
  same_path = refl;
  query_params = All-update_set str_key e.query_params query;
  object_refs = All-update_set str_key e.object_refs refs;
  profiles = All-update_set str_key e.observed_auth_profiles (profile_list o.auth_profile);
  statuses = All-update_set str_int e.status_codes (o.status ∷ []);
  response_fields = All-update_set str_key e.response_fields (json_field_names R o.response_body);
  evidence = All-update_set str_key e.evidence_ids (o.evidence_id ∷ []);
}

merge-Shows :
    (R : Runtime) (e : Endpoint) (found : Identified) (o : Observed) (url : String)
    → redact_url R o.url ≡ ok url
    → Shows R o found (merge R e found.query found.refs o url)
unfolding merge
merge-Shows R e found o url p = record {
  query_params = All-HasKey str_key e.query_params found.query;
  object_refs = All-HasKey str_key e.object_refs found.refs;
  profiles = All-HasKey str_key e.observed_auth_profiles (profile_list o.auth_profile);
  statuses = All-HasKey str_int e.status_codes (o.status ∷ []);
  response_fields = All-HasKey str_key e.response_fields (json_field_names R o.response_body);
  evidence = All-HasKey str_key e.evidence_ids (o.evidence_id ∷ []);
  url = url;
  redacted = p;
  last_url = refl;
}

module _ (R : Runtime) (es es' : Endpoints) (o : Observed) (id : String)
    (h : observe R es o ≡ ok (id, es')) where
  record Inverted : Type 0 where
    found : Identified
    url : String
    identified : identify R o ≡ ok found
    redacted : redact_url R o.url ≡ ok url
    same_id : id ≡ found.fresh.endpoint_id
    stored :
        es'
        ≡ set_endpoint es id
            (merge R (endpoint_or (get_endpoint es id) found.fresh) found.query found.refs o url)

  inverted : Inverted
  unfolding observe
  inverted = elim (Result-cases (identify R o)) [
    | inr (e, p) ↦ ground (arith, h, p)
    | inl (found, p) ↦ elim (Result-cases (redact_url R o.url)) [
      | inr (e, q) ↦ ground (arith, h, p, q)
      | inl (url, q) ↦ record {
        found = found;
        url = url;
        identified = p;
        redacted = q;
        same_id = ground (arith, h, p, q);
        stored = ground (arith, h, p, q);
      }
    ]
  ]

  -- When `observe` returns, the endpoint under the identifier it returns has kept everything that
  -- stood there, or is new, and shows the observation's query names, path identifiers, profile,
  -- status, response fields and evidence, and the redacted URL.
  pub observe_merges :
      (found : Identified) × (e : Endpoint) × (identify R o ≡ ok found)
      × (id ≡ found.fresh.endpoint_id)
      × (get_endpoint es' id ≡ some e)
      × Grows (endpoint_or (get_endpoint es id) found.fresh) e
      × Shows R o found e
  observe_merges =
      let i = inverted in
      let old = endpoint_or (get_endpoint es id) i.found.fresh in
      let e = merge R old i.found.query i.found.refs o i.url in
      (
        i.found,
        e,
        i.identified,
        i.same_id,
        rw i.stored (get-set_same es id e),
        merge-Grows R old i.found.query i.found.refs o i.url,
        merge-Shows R old i.found o i.url i.redacted,
      )

  -- When `observe` returns, the endpoints under all other identifiers are as they were.
  pub observe_others :
      (other : String) → (id == other) ≡ false → get_endpoint es' other ≡ get_endpoint es other
  observe_others other distinct =
      let i = inverted in
      let old = endpoint_or (get_endpoint es id) i.found.fresh in
      let e = merge R old i.found.query i.found.refs o i.url in
      rw i.stored (get-set_other es id other e distinct)
