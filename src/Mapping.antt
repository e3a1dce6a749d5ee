-- ===== src/Mapping.antt =====
-- agentsec/mapping.py: the application map. The store's data are its endpoints by identifier, in the
-- order of their first observation; a set that the map keeps is its sorted list.
pub mod Laws
use nighwatch.Common.{
  ℕ, String, ◌<>◌, Bool, true, false, Option, none, some, List, [], ◌∷◌, map, Result, ok, err,
  ◌>>=◌, ◌==◌, contains, take, not, if◌then◌else◌,
}
use nighwatch.Python.Bytes.{Bytes, encode, is_empty}
use nighwatch.Python.Json.{Json, obj, Fields, end, field}
use nighwatch.Python.Runtime.{Runtime}
use nighwatch.Python.Sets.{sort_strings, update_set, join}
use nighwatch.Python.Str.{str_int, split, take_chars}
use nighwatch.Python.Url.{SplitResult, urlsplit, hostname, port}
use nighwatch.Models.Scope.{or_empty, port_or_default, path_or_root}
use nighwatch.Security.Redact.{redact_url}
use nighwatch.Evidence.{sensitive_body_keys}

pub record Endpoint : Type 0 where
  pub endpoint_id : String
  pub method : String
  pub origin : String
  pub path_template : String
  pub query_params : List String
  pub object_refs : List String
  pub observed_auth_profiles : List String
  pub status_codes : List ℕ
  pub response_fields : List String
  pub evidence_ids : List String
  pub last_observed_url : Option String

abbrev pub Endpoints : Type 0
Endpoints = List (String × Endpoint)

abbrev id_segment : String
id_segment = "(?i)^(?:\\d+|[0-9a-f]{8}-[0-9a-f-]{27,}|[0-9a-f]{16,})$"

-- What one response adds to an endpoint.
pub record Observed : Type 0 where
  pub method : String
  pub url : String
  pub auth_profile : Option String
  pub status : ℕ
  pub response_body : Bytes
  pub evidence_id : String

-- The first value under a key.
unfoldable pub get_endpoint : Endpoints → String → Option Endpoint
get_endpoint [] key = none
get_endpoint ((k, e) ∷ es) key = if k == key then some e else get_endpoint es key

-- The value under a key replaced, or a new entry at the end.
unfoldable pub set_endpoint : Endpoints → String → Endpoint → Endpoints
set_endpoint [] key e = (key, e) ∷ []
set_endpoint ((k, d) ∷ es) key e = if k == key then (k, e) ∷ es else (k, d) ∷ set_endpoint es key e

abbrev pub str_key : String → String
str_key s = s

-- `[auth_profile] if auth_profile else []`
abbrev pub profile_list : Option String → List String
profile_list none = []
profile_list (some p) = if p == "" then [] else p ∷ []

new_endpoint : String → String → String → String → Endpoint
new_endpoint id method origin path = record {
  endpoint_id = id;
  method = method;
  origin = origin;
  path_template = path;
  query_params = [];
  object_refs = [];
  observed_auth_profiles = [];
  status_codes = [];
  response_fields = [];
  evidence_ids = [];
  last_observed_url = none;
}

-- What `observe` reads off the observation: the endpoint if it is new, the query's names and the
-- path's identifiers.
pub record Identified : Type 0 where
  pub fresh : Endpoint
  pub query : List String
  pub refs : List String

-- `endpoints.setdefault(endpoint_id, {...})`
abbrev pub endpoint_or : Option Endpoint → Endpoint → Endpoint
endpoint_or none e = e
endpoint_or (some d) e = d

field_keys : {F : Type 0} → Fields F → List String
field_keys end = []
field_keys (field key v fs) = key ∷ field_keys fs

module _ (R : Runtime) where
  -- The loop of `_path_template`: the rendered segments, and the identifiers.
  unfoldable pub render_segments : List String → List String × List String
  render_segments [] = ([], [])
  render_segments (segment ∷ segments) =
      let (rendered, refs) = render_segments segments in
      if R.re_match id_segment segment
      then ("{id}" ∷ rendered, segment ∷ refs)
      else (segment ∷ rendered, refs)

  -- `_path_template`
  unfoldable pub path_template : String → String × List String
  path_template path =
      let (rendered, refs) = render_segments (split b'/' path) in
      (path_or_root (join "/" rendered), refs)

  -- The names that are not sensitive.
  unfoldable pub public_keys : List String → List String
  public_keys [] = []
  public_keys (key ∷ keys) =
      let rest = public_keys keys in
      if contains sensitive_body_keys (R.lower key) then rest else key ∷ rest

  names_of : Option (Json R.Float) → List String
  unfolding public_keys field_keys sort_strings
  names_of (some (obj fs)) = take 100 (sort_strings (public_keys (field_keys fs)))
  names_of _ = []

  -- `_json_field_names`
  unfoldable pub json_field_names : Bytes → List String
  unfolding names_of
  json_field_names body =
      if is_empty body then [] else names_of (R.json_loads (R.decode_utf8 (take 65536 body)))

  -- `f"{scheme}://{host}:{port}"`
  origin_text : SplitResult → Option ℕ → String
  origin_text parts given =
      R.lower parts.scheme
      <> "://"
      <> R.lower (or_empty (hostname R parts))
      <> ":"
      <> str_int (port_or_default given parts.scheme)

  -- The loop over the fields, and the assignment after it.
  merge : Endpoint → List String → List String → Observed → String → Endpoint
  merge e query refs o url = record e {
    query_params = update_set str_key e.query_params query;
    object_refs = update_set str_key e.object_refs refs;
    observed_auth_profiles =
        update_set str_key e.observed_auth_profiles (profile_list o.auth_profile);
    status_codes = update_set str_int e.status_codes (o.status ∷ []);
    response_fields = update_set str_key e.response_fields (json_field_names o.response_body);
    evidence_ids = update_set str_key e.evidence_ids (o.evidence_id ∷ []);
    last_observed_url = some url;
  }

  unfoldable pub identify : Observed → Result String Identified
  unfolding new_endpoint origin_text
  identify o = do
    parts ← urlsplit R o.url
    given ← port R parts
    let (path, refs) = path_template (path_or_root parts.path)
    let query = update_set str_key [] (public_keys (map (λ kv. kv.0) (R.parse_qsl parts.query)))
    let origin = origin_text parts given
    let identity = R.upper o.method <> "|" <> origin <> path <> "|" <> join "," query
    let id = "ep_" <> take_chars 16 (R.sha256 (encode identity))
    ok (record {
      fresh = new_endpoint id (R.upper o.method) origin path;
      query = query;
      refs = refs;
    })

  -- `ApplicationMapStore.observe`: the identifier, and the endpoints; `err` is a `ValueError`.
  unfoldable pub observe : Endpoints → Observed → Result String (String × Endpoints)
  unfolding merge
  observe endpoints o = do
    found ← identify o
    url ← redact_url R o.url
    let id = found.fresh.endpoint_id
    let e = endpoint_or (get_endpoint endpoints id) found.fresh
    ok (id, set_endpoint endpoints id (merge e found.query found.refs o url))
