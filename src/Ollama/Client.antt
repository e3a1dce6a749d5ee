-- ===== src/Ollama/Client.antt =====
-- `OllamaClient` of agentsec/llm.py: what it sends to the model server and what it makes of the answer.
pub mod Laws
use nighwatch.Common.{
  ℕ, String, ◌<>◌, Bool, true, false, ◌&&◌, ◌||◌, not, Option, none, some, List, [], ◌∷◌, ◌++◌, map,
  Result, ok, err, ◌>>=◌, ◌>>◌, raise_if, ◌==◌, contains, if◌then◌else◌,
}
use nighwatch.Python.Bytes.{Bytes, encode}
use nighwatch.Python.Int.{ℤ, pos, negsuc}
use nighwatch.Python.Json.{
  Json, null, bool, int, float, str, arr, obj, Items, nil, item, Fields, end, field, items, fields,
  hashable,
}
use nighwatch.Python.Runtime.{Runtime}
use nighwatch.Python.Str.{str_int}
use nighwatch.Models.FromDict.{get, str_of}
use nighwatch.Models.Engagement.{or_null}
use nighwatch.Ollama.Config.{OllamaConfig, OllamaError, failed, unavailable, uncaught, endpoint}

-- A call of `urlopen`.
pub record Call (R : Runtime) : Type 0 where
  pub method : String
  pub url : String
  pub headers : List (String × String)
  pub body : Option Bytes
  pub timeout_seconds : R.Float

-- What `urlopen` and the reading of the response do: the body, an `HTTPError` with the first 512
-- bytes of its body, another `OSError`, or an exception that `_request` does not catch, as
-- `IncompleteRead`.
pub data Reply : Type 0 where
  answered : Bytes → Reply
  http_error : ℕ → Bytes → Reply
  unreachable : Reply
  raised : String → Reply

pub record ToolDefinition (R : Runtime) : Type 0 where
  pub name : String
  pub description : String
  pub parameters : Fields R.Float

pub record OllamaToolCall (R : Runtime) : Type 0 where
  pub name : String
  pub arguments : Fields R.Float

pub record OllamaResponse (R : Runtime) : Type 0 where
  pub model : String
  pub content : String
  pub tool_calls : List (OllamaToolCall R)
  pub prompt_eval_count : Option (Json R.Float)
  pub eval_count : Option (Json R.Float)
  pub raw : Fields R.Float

-- The calls that were made, and how it ended.
pub record Ran (R : Runtime) (A : Type 0) : Type 0 where
  pub calls : List (Call R)
  pub result : Result OllamaError A

abbrev pub chat_roles : List String
chat_roles = "system" ∷ "user" ∷ "assistant" ∷ "tool" ∷ []

abbrev pub accept : String × String
accept = ("Accept", "application/json")

abbrev pub json_content : String × String
json_content = ("Content-Type", "application/json")

module _ (R : Runtime) where
  -- `repr(v)`
  abbrev pub repr_of : Json R.Float → String
  repr_of (str s) = R.repr s
  repr_of v = R.json_text v

  -- `ToolDefinition.to_dict`
  unfoldable pub tool_dict : ToolDefinition R → Json R.Float
  unfolding fields
  tool_dict t = obj (
      fields (
        ("type", str "function")
        ∷ (
          "function",
          obj (
              fields (
                ("name", str t.name)
                ∷ ("description", str t.description)
                ∷ ("parameters", obj t.parameters)
                ∷ [])),
        )
        ∷ []))

  -- The request of `_request`, without and with a payload.
  unfoldable pub call_of : OllamaConfig R → String → String → Option (Json R.Float) → Call R
  call_of c method path none = record {
    method = method;
    url = endpoint R c path;
    headers = accept ∷ [];
    body = none;
    timeout_seconds = c.timeout_seconds;
  }
  call_of c method path (some v) = record {
    method = method;
    url = endpoint R c path;
    headers = accept ∷ json_content ∷ [];
    body = some (
        encode
          (R.json_dumps (record { compact = true; sort_keys = false; ensure_ascii = true }) v));
    timeout_seconds = c.timeout_seconds;
  }

  abbrev pub json_object : Option (Json R.Float) → Result OllamaError (Fields R.Float)
  json_object none = err (failed "Ollama returned invalid JSON")
  json_object (some (obj fs)) = ok fs
  json_object (some v) = err (failed "Ollama returned a non-object JSON response")

  -- What `_request` makes of the reply.
  unfoldable pub read_reply : OllamaConfig R → Reply → Result OllamaError (Fields R.Float)
  read_reply c unreachable = err (
      unavailable
        ("cannot reach Ollama at " <> c.base_url <> "; start Ollama or verify the local endpoint"))
  read_reply c (raised message) = err (uncaught message)
  read_reply c (http_error status body) =
      err (failed ("Ollama returned HTTP " <> str_int status <> ": " <> R.decode_utf8 body))
  read_reply c (answered body) = elim (R.strict_utf8 body) [
    | none ↦ err (failed "Ollama returned invalid JSON")
    | some text ↦ json_object (R.json_loads text)
  ]

  -- The names of a list of models.
  unfoldable pub model_names : Items R.Float → List String
  model_names nil = []
  model_names (item (obj fs) vs) =
      let rest = model_names vs in elim (get fs "name") [ some (str s) ↦ s ∷ rest | v ↦ rest ]
  model_names (item v vs) = model_names vs

  abbrev models_of : Option (Json R.Float) → Result OllamaError (List String)
  models_of none = ok []
  models_of (some (arr vs)) = ok (model_names vs)
  models_of (some v) = err (failed "Ollama /api/tags returned an invalid models list")

  -- `OllamaClient.list_models`
  unfoldable pub list_models : OllamaConfig R → (Call R → Reply) → Ran R (List String)
  list_models c urlopen =
      let call = call_of c "GET" "tags" none in
      record {
        calls = call ∷ [];
        result = read_reply c (urlopen call) >>= λ fs. models_of (get fs "models");
      }

  -- `role not in {…}`, which raises `TypeError` for a role that has no hash.
  unfoldable pub check_role : Option (Json R.Float) → Result OllamaError (Unit {0})
  check_role (some (str s)) =
      raise_if (not (contains chat_roles s)) (failed ("unsupported chat role: " <> R.repr s))
  check_role v =
      if hashable (or_null v)
      then err (failed ("unsupported chat role: " <> repr_of (or_null v)))
      else err (uncaught "TypeError")

  abbrev check_content : Option (Json R.Float) → Result OllamaError (Unit {0})
  check_content (some (str s)) = ok tt
  check_content v = err (failed "chat message content must be a string")

  -- The messages that are passed on.
  unfoldable pub validate_messages : Items R.Float → Result OllamaError (List (Json R.Float))
  unfolding check_role
  validate_messages nil = ok []
  validate_messages (item (obj fs) vs) = do
    check_role (get fs "role")
    check_content (get fs "content")
    rest ← validate_messages vs
    ok (obj fs ∷ rest)
  validate_messages (item v vs) = err (failed "each chat message must be an object")

  abbrev tools_field : List (ToolDefinition R) → List (String × Json R.Float)
  tools_field [] = []
  tools_field (t ∷ ts) = ("tools", arr (items (map tool_dict (t ∷ ts)))) ∷ []

  -- The field `format`, if there is a schema.
  unfoldable pub format_field :
      Option (Json R.Float) → Result OllamaError (List (String × Json R.Float))
  format_field none = ok []
  format_field (some (obj fs)) = elim (get fs "type") [
    | some (str s) ↦
        if s == "object"
        then ok (("format", obj fs) ∷ [])
        else err (failed "response_schema must be a JSON object schema")
    | v ↦ err (failed "response_schema must be a JSON object schema")
  ]
  format_field (some v) = err (failed "response_schema must be a JSON object schema")

  -- The payload of `chat`.
  unfoldable pub chat_payload :
      OllamaConfig R
      → Items R.Float
      → List (ToolDefinition R)
      → Option (Json R.Float)
      → Result OllamaError (Json R.Float)
  unfolding tool_dict
  chat_payload c messages tools schema = do
    validated ← validate_messages messages
    format ← format_field schema
    ok (
        obj (
          fields (
            ("model", str c.model)
            ∷ ("messages", arr (items validated))
            ∷ ("stream", bool false)
            ∷ (
              "options",
              obj (
                  fields (
                    ("temperature", float c.temperature) ∷ ("num_predict", int c.max_tokens) ∷ [])),
            )
            ∷ (tools_field tools ++ format))))

  -- `raw_call["function"]` and the name and arguments in it
  unfoldable pub tool_call : Json R.Float → Result OllamaError (OllamaToolCall R)
  tool_call (obj raw_call) = elim (get raw_call "function") [
    | some (obj function) ↦ elim (get function "name") [
      | none ↦ err (failed "Ollama returned a malformed tool call")
      | some (str name) ↦ elim (get function "arguments") [
        | none ↦ ok (record { name = name; arguments = end })
        | some (obj arguments) ↦ ok (record { name = name; arguments = arguments })
        | v ↦ err (failed "Ollama tool call must contain a name and object arguments")
      ]
      | v ↦ err (failed "Ollama tool call must contain a name and object arguments")
    ]
    | v ↦ err (failed "Ollama returned a malformed tool call")
  ]
  tool_call v = err (failed "Ollama returned a malformed tool call")

  unfoldable pub tool_calls_of : Items R.Float → Result OllamaError (List (OllamaToolCall R))
  tool_calls_of nil = ok []
  tool_calls_of (item v vs) = do call ← tool_call v; calls ← tool_calls_of vs; ok (call ∷ calls)

  abbrev calls_in : Option (Json R.Float) → Result OllamaError (List (OllamaToolCall R))
  calls_in none = ok []
  calls_in (some null) = ok []
  calls_in (some (arr vs)) = tool_calls_of vs
  calls_in (some v) = err (failed "Ollama tool_calls was not a list")

  abbrev message_of : Option (Json R.Float) → Result OllamaError (Fields R.Float)
  message_of (some (obj fs)) = ok fs
  message_of v = err (failed "Ollama chat response did not contain a message")

  abbrev content_of : Option (Json R.Float) → Result OllamaError String
  content_of none = ok ""
  content_of (some (str s)) = ok s
  content_of (some v) = err (failed "Ollama chat message content was not a string")

  -- `_optional_int`; a Boolean is an `int`.
  unfoldable pub optional_int : Option (Json R.Float) → Option (Json R.Float)
  optional_int (some (int n)) = some (int n)
  optional_int (some (bool b)) = some (bool b)
  optional_int v = none

  abbrev model_of : OllamaConfig R → Option (Json R.Float) → String
  model_of c none = c.model
  model_of c (some v) = str_of R v

  -- The response that the answer of the server makes.
  unfoldable pub response_of :
      OllamaConfig R → Fields R.Float → Result OllamaError (OllamaResponse R)
  unfolding optional_int
  response_of c result = do
    message ← message_of (get result "message")
    content ← content_of (get message "content")
    calls ← calls_in (get message "tool_calls")
    ok (record {
      model = model_of c (get result "model");
      content = content;
      tool_calls = calls;
      prompt_eval_count = optional_int (get result "prompt_eval_count");
      eval_count = optional_int (get result "eval_count");
      raw = result;
    })

  -- The exchange of `chat`, for its payload.
  unfoldable pub send_chat :
      OllamaConfig R → (Call R → Reply) → Json R.Float → Ran R (OllamaResponse R)
  send_chat c urlopen payload =
      let call = call_of c "POST" "chat" (some payload) in
      record { calls = call ∷ []; result = read_reply c (urlopen call) >>= response_of c }

  -- `OllamaClient.chat`
  unfoldable pub chat :
      OllamaConfig R
      → (Call R → Reply)
      → Items R.Float
      → List (ToolDefinition R)
      → Option (Json R.Float)
      → Ran R (OllamaResponse R)
  chat c urlopen messages tools schema = elim (chat_payload c messages tools schema) [
    | err e ↦ record { calls = []; result = err e }
    | ok payload ↦ send_chat c urlopen payload
  ]
