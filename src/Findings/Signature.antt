-- ===== src/Findings/Signature.antt =====
-- `_signature`, and the verdict over four signatures in `compare`.
pub mod Laws
use nighwatch.Common.{
  ℕ, String, ◌<>◌, Bool, true, false, ◌&&◌, ◌||◌, not, Option, none, some, List, [], ◌∷◌, contains,
  eqb, leb, ltb, ◌==◌, suc, if◌then◌else◌,
}
use nighwatch.Python.Bytes.{encode}
use nighwatch.Python.Int.{ℤ, pos, negsuc}
use nighwatch.Python.Json.{Json, null, bool, int, float, str, arr, tup, obj, Fields, end, field}
use nighwatch.Python.Runtime.{Runtime}
use nighwatch.Python.Sets.{sort_strings, update_set}
use nighwatch.Python.Str.{str_int}
use nighwatch.Http.Request.{HttpResponse}

abbrev pub impact_field_names : List String
impact_field_names =
    "address" ∷ "balance" ∷ "customer_id" ∷ "document" ∷ "document_url" ∷ "email" ∷ "internal_id"
    ∷ "owner" ∷ "payment" ∷ "phone" ∷ "phone_number" ∷ "role" ∷ "secret" ∷ "ssn" ∷ []

abbrev pub id_fields : List String
id_fields = "id" ∷ "uuid" ∷ "user_id" ∷ "account_id" ∷ "order_id" ∷ "object_id" ∷ "resource_id" ∷ []

abbrev pub volatile_fields : List String
volatile_fields =
    "created_at" ∷ "updated_at" ∷ "timestamp" ∷ "request_id" ∷ "trace_id" ∷ "nonce" ∷ []

pub record ResponseSignature : Type 0 where
  pub status : ℕ
  pub body_sha256 : String
  pub object_ids : List String
  pub fields : List String
  pub normalized_hash : String

int_text : ℤ → String
int_text (pos n) = str_int n
int_text (negsuc n) = "-" <> str_int (suc n)

module _ (R : Runtime) where
  -- The text of a string, an integer, a Boolean (which is one) or a float.
  scalar_text : Json R.Float → Option String
  unfolding int_text
  scalar_text (str s) = some s
  scalar_text (int n) = some (int_text n)
  scalar_text (bool true) = some "True"
  scalar_text (bool false) = some "False"
  scalar_text (float f) = some (R.float_text f)
  scalar_text null = none
  scalar_text (arr vs) = none
  scalar_text (tup vs) = none
  scalar_text (obj fs) = none

  -- `f"{key}={item}"` for each identifying field.
  unfoldable pub object_ids_of : Fields R.Float → List String
  unfolding scalar_text
  object_ids_of end = []
  object_ids_of (field key value fs) =
      let rest = object_ids_of fs in
      if contains id_fields (R.lower key)
      then elim (scalar_text value) [ none ↦ rest | some text ↦ (key <> "=" <> text) ∷ rest ]
      else rest

  unfoldable pub names_of : Fields R.Float → List String
  names_of end = []
  names_of (field key value fs) = key ∷ names_of fs

  -- The fields that are not volatile.
  unfoldable pub stable_fields : Fields R.Float → Fields R.Float
  stable_fields end = end
  stable_fields (field key value fs) =
      let rest = stable_fields fs in
      if contains volatile_fields (R.lower key) then rest else field key value rest

  hash_of : Json R.Float → String
  hash_of v =
      R.sha256
        (encode (R.json_dumps (record { compact = true; sort_keys = true; ensure_ascii = true }) v))

  sign : HttpResponse R → Option (Json R.Float) → ResponseSignature
  unfolding object_ids_of names_of stable_fields hash_of sort_strings
  sign response (some (obj fs)) = record {
    status = response.status;
    body_sha256 = R.sha256 response.body;
    object_ids = sort_strings (object_ids_of fs);
    fields = sort_strings (names_of fs);
    normalized_hash = hash_of (obj (stable_fields fs));
  }
  sign response _ = record {
    status = response.status;
    body_sha256 = R.sha256 response.body;
    object_ids = [];
    fields = [];
    normalized_hash = hash_of null;
  }

  -- `_signature`
  unfoldable pub signature : HttpResponse R → ResponseSignature
  unfolding sign
  signature response = sign response (R.json_loads (R.decode_utf8 response.body))

  lowered : List String → List String
  lowered [] = []
  lowered (f ∷ fs) = R.lower f ∷ lowered fs

  -- `{field.lower() for field in (impact_fields or set())} or _IMPACT_FIELDS`
  unfoldable pub field_pool : List String → List String
  unfolding lowered
  field_pool [] = impact_field_names
  field_pool (f ∷ fs) = lowered (f ∷ fs)

  unfoldable pub fields_in : List String → List String → List String
  fields_in pool [] = []
  fields_in pool (f ∷ fs) =
      let rest = fields_in pool fs in if contains pool (R.lower f) then f ∷ rest else rest

  -- `observed_impact`
  unfoldable pub observed_impact : List String → ResponseSignature → List String
  observed_impact requested s = update_set (λ f. f) [] (fields_in (field_pool requested) s.fields)

abbrev pub succeeded : ℕ → Bool
succeeded status = leb 200 status && ltb status 300

-- `bool(set(xs) & set(ys))`
unfoldable pub shares : List String → List String → Bool
shares [] ys = false
shares (x ∷ xs) ys = if contains ys x then true else shares xs ys

-- Two answers to one profile agree.
abbrev pub repeats : ResponseSignature → ResponseSignature → Bool
repeats s t =
    eqb s.status t.status
    && (s.body_sha256 == t.body_sha256 || s.normalized_hash == t.normalized_hash)

abbrev is_none : List String → Bool
is_none [] = true
is_none (x ∷ xs) = false

-- The ladder of tests in `compare`: the status and the reason.
ladder : Bool → Bool → Bool → Bool → Bool → Bool → String × String
ladder owner_success subject_success same_object repeated_subject stable_owner no_impact =
    if not owner_success || not subject_success
    then ("rejected", "subject profile did not receive a successful response")
    else if not same_object
    then (
      "candidate", "both profiles succeeded, but the returned resource could not be matched safely",
    )
    else if not repeated_subject || not stable_owner
    then ("candidate", "the access behavior was not stable across independent reproductions")
    else if no_impact
    then (
      "candidate",
      "the subject received the resource, but no demonstrable impact field was observed",
    )
    else (
      "verified",
      "distinct profiles repeatedly received the same resource and impact fields were observed",
    )

-- The status and the reason that `compare` gives.
unfoldable pub verdict :
    ResponseSignature
    → ResponseSignature
    → ResponseSignature
    → ResponseSignature
    → List String
    → String × String
unfolding ladder
verdict owner subject owner_again subject_again impact =
    ladder (succeeded owner.status) (succeeded subject.status)
      (shares owner.object_ids subject.object_ids) (repeats subject subject_again)
      (repeats owner owner_again) (is_none impact)
