-- ===== src/Ollama/Config.antt =====
-- `OllamaConfig` of agentsec/llm.py: what is accepted as the address of the model server.
pub mod Laws
use nighwatch.Common.{
  ℕ, String, ◌<>◌, Bool, true, false, ◌&&◌, ◌||◌, not, Option, none, some, List, [], ◌∷◌, Result,
  ok, err, ◌>>=◌, ◌>>◌, raise_if, is_some, ◌==◌, contains, eqb, if◌then◌else◌,
}
use nighwatch.Python.Int.{ℤ, pos, negsuc}
use nighwatch.Python.Runtime.{Runtime}
use nighwatch.Python.Str.{strip, rstrip_char, lstrip_char}
use nighwatch.Python.Url.{SplitResult, urlsplit, username, password, hostname}
use nighwatch.Models.Scope.{or_empty}

-- `OllamaError`, its subclasses `OllamaConfigError` and `OllamaUnavailable`, or an exception of another kind.
pub data OllamaError : Type 0 where
  failed bad_config unavailable uncaught : String → OllamaError

pub record OllamaConfig (R : Runtime) : Type 0 where
  pub base_url : String
  pub model : String
  pub timeout_seconds : R.Float
  pub temperature : R.Float
  pub max_tokens : ℤ
  pub allow_remote : Bool

abbrev is_positive : ℤ → Bool
is_positive (pos n) = not (eqb n 0)
is_positive (negsuc n) = false

abbrev pub local_hosts : List String
local_hosts = "127.0.0.1" ∷ "localhost" ∷ "::1" ∷ []

-- `os.getenv(name, os.getenv(…, default))`
unfoldable pub getenv_or : (String → Option String) → List String → String → String
getenv_or getenv [] default = default
getenv_or getenv (name ∷ names) default = elim (getenv name) [
  | some v ↦ v
  | none ↦ getenv_or getenv names default
]

abbrev pub timeout_text : (String → Option String) → String
timeout_text getenv =
    getenv_or getenv ("NIGHWATCH_OLLAMA_TIMEOUT_SECONDS" ∷ "AGENTSEC_OLLAMA_TIMEOUT_SECONDS" ∷ [])
      "120.0"

abbrev pub temperature_text : (String → Option String) → String
temperature_text getenv =
    getenv_or getenv ("NIGHWATCH_OLLAMA_TEMPERATURE" ∷ "AGENTSEC_OLLAMA_TEMPERATURE" ∷ []) "0.0"

abbrev pub tokens_text : (String → Option String) → String
tokens_text getenv =
    getenv_or getenv ("NIGHWATCH_OLLAMA_MAX_TOKENS" ∷ "AGENTSEC_OLLAMA_MAX_TOKENS" ∷ []) "2048"

-- A number of the environment, whose `ValueError` is reported.
abbrev pub or_error : {A : Type 0} → Option A → Result OllamaError A
or_error none = err (bad_config "invalid Ollama numeric environment variable")
or_error (some a) = ok a

module _ (R : Runtime) where
  -- The checks of the split base URL.
  unfoldable pub check_base : Bool → SplitResult → Result OllamaError (Unit {0})
  check_base allow_remote parsed = do
    let host = or_empty (hostname R parsed)
    raise_if (not (contains ("http" ∷ "https" ∷ []) parsed.scheme) || host == "")
        (bad_config "Ollama base URL must be an http(s) URL with a hostname")
    raise_if (is_some (username parsed) || is_some (password parsed))
        (bad_config "Ollama base URL must not contain credentials")
    raise_if
        (not (contains ("" ∷ "/" ∷ []) parsed.path)
          || (not (parsed.query == "") || not (parsed.fragment == "")))
        (bad_config "Ollama base URL must point to the server root, not a path or query")
    raise_if (not allow_remote && not (contains local_hosts (R.lower host))) (
        bad_config
          "remote Ollama is disabled by default; use allow_remote only for an explicitly trusted endpoint")

  -- The checks of the other settings, and the configuration that is kept.
  unfoldable pub check_settings : OllamaConfig R → String → Result OllamaError (OllamaConfig R)
  check_settings c base = do
    raise_if (strip c.model == "") (bad_config "Ollama model cannot be empty")
    raise_if (R.float_le c.timeout_seconds (R.float 0))
        (bad_config "Ollama timeout must be greater than zero")
    raise_if (not (is_positive c.max_tokens))
        (bad_config "Ollama max_tokens must be greater than zero")
    raise_if (not (R.float_le (R.float 0) c.temperature && R.float_le c.temperature (R.float 2)))
        (bad_config "Ollama temperature must be between 0 and 2")
    ok (record c { base_url = base })

  -- `OllamaConfig.__post_init__`, which returns the configuration that is kept.
  unfoldable pub post_init : OllamaConfig R → Result OllamaError (OllamaConfig R)
  post_init c =
      let base = rstrip_char b'/' c.base_url in
      elim (urlsplit R base) [
        | err message ↦ err (uncaught message)
        | ok parsed ↦ check_base c.allow_remote parsed >> check_settings c base
      ]

  -- `OllamaConfig.from_env`
  unfoldable pub from_env :
      (String → Option String) → Option String → Result OllamaError (OllamaConfig R)
  unfolding getenv_or
  from_env getenv model_override = do
    let base_url =
        getenv_or getenv
          ("NIGHWATCH_OLLAMA_BASE_URL" ∷ "AGENTSEC_OLLAMA_BASE_URL" ∷ "OLLAMA_BASE_URL" ∷ [])
          "http://127.0.0.1:11434"
    let given = or_empty model_override
    let model =
        if given == ""
        then getenv_or getenv
            ("NIGHWATCH_OLLAMA_MODEL" ∷ "AGENTSEC_OLLAMA_MODEL" ∷ "OLLAMA_MODEL" ∷ []) "gpt-oss:20b"
        else given
    let remote = contains ("1" ∷ "true" ∷ "yes" ∷ []) (
        R.lower (
          getenv_or getenv ("NIGHWATCH_OLLAMA_ALLOW_REMOTE" ∷ "AGENTSEC_OLLAMA_ALLOW_REMOTE" ∷ [])
            ""))
    timeout ← or_error (R.text_float (timeout_text getenv))
    temperature ← or_error (R.text_float (temperature_text getenv))
    max_tokens ← or_error (R.text_int (tokens_text getenv))
    post_init (record {
      base_url = base_url;
      model = model;
      timeout_seconds = timeout;
      temperature = temperature;
      max_tokens = max_tokens;
      allow_remote = remote;
    })

  -- `OllamaConfig.endpoint`
  unfoldable pub endpoint : OllamaConfig R → String → String
  endpoint c path = c.base_url <> "/api/" <> lstrip_char b'/' path
