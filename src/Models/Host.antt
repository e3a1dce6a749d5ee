-- ===== src/Models/Host.antt =====
-- `normalize_host` of agentsec/models.py; an error is the message of the `ConfigError`.
use nighwatch.Common.{String, ◌<>◌, none, some, Result, ok, err, ◌==◌, if◌then◌else◌}
use nighwatch.Python.Runtime.{Runtime}
use nighwatch.Python.Str.{strip, rstrip_char}

module _ (R : Runtime) where
  unfoldable pub normalize_host : String → Result String String
  normalize_host host =
      let value = R.lower (rstrip_char b'.' (strip host)) in
      if value == "" then err "host cannot be empty" else elim (R.idna value) [
        | none ↦ err ("invalid host: " <> R.repr host)
        | some ascii ↦ ok ascii
      ]
