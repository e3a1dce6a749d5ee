-- ===== src/Models/PathMatch.antt =====
-- `_path_matches` of agentsec/models.py.
pub mod Laws
use nighwatch.Common.{
  String, ◌<>◌, Bool, true, false, List, [], ◌∷◌, ◌==◌, starts_with, ◌||◌, if◌then◌else◌,
}
use nighwatch.Python.Str.{rstrip_char}

-- The two assignments to `normalized`.
unfoldable pub normalize_prefix : String → String
normalize_prefix prefix =
    let stripped = rstrip_char b'/' (if starts_with prefix "/" then prefix else "/" <> prefix) in
    if stripped == "" then "/" else stripped

-- The loop over the prefixes.
unfoldable pub matches_some : String → List String → Bool
matches_some path [] = false
matches_some path (prefix ∷ prefixes) =
    let normalized = normalize_prefix prefix in
    if normalized == "/"
    then true
    else if path == normalized || starts_with path (normalized <> "/")
    then true
    else matches_some path prefixes

unfoldable pub path_matches : String → List String → Bool
path_matches path [] = true
path_matches path (prefix ∷ prefixes) = matches_some path (prefix ∷ prefixes)
