-- ===== src/Security/Kill.antt =====
-- `KillSwitch` of agentsec/security.py. What the process environment and the file system answer at
-- one moment is a `Surroundings`.
use nighwatch.Common.{
  String, Bool, true, false, Option, none, some, List, [], ◌∷◌, ◌==◌, contains, if◌then◌else◌,
}
use nighwatch.Python.Runtime.{Runtime}
use nighwatch.Python.Str.{strip}

pub record Surroundings : Type 0 where
  -- `os.getenv(name)`
  pub getenv : String → Option String
  -- `os.path.isfile(path)`
  pub is_file : String → Bool

abbrev pub stop_values : List String
stop_values = "1" ∷ "true" ∷ "yes" ∷ "on" ∷ "stop" ∷ []

-- `os.getenv(name, "")`
abbrev pub getenv_or_empty : Surroundings → String → String
getenv_or_empty w name = elim (w.getenv name) [ none ↦ "" | some value ↦ value ]

-- `a or b` for an optional text `a`
abbrev pub or_else : Option String → Option String → Option String
or_else none b = b
or_else (some a) b = if a == "" then b else some a

-- `bool(path and os.path.isfile(path))`
abbrev pub names_file : Surroundings → Option String → Bool
names_file w none = false
names_file w (some path) = if path == "" then false else w.is_file path

-- `KillSwitch.tripped`, for the switch with this configured file.
unfoldable pub tripped : Runtime → Option String → Surroundings → Bool
tripped R configured_file w =
    let value = R.lower (strip (getenv_or_empty w "NIGHWATCH_KILL_SWITCH")) in
    if contains stop_values value
    then true
    else names_file w (or_else (w.getenv "NIGHWATCH_KILL_SWITCH_FILE") configured_file)
