-- ===== src/Python/Encode.antt =====
-- Texts that `encode("utf-8")` refuses.
use nighwatch.Common.{String, Option, none, some, Result, ok, err}
use nighwatch.Python.Runtime.{Runtime}

abbrev refused_by : Option String → Result String (Unit {0})
refused_by none = ok tt
refused_by (some message) = err message

-- The encoding of a text, where only its exception counts.
abbrev pub encodable : Runtime → String → Result String (Unit {0})
encodable R s = refused_by (R.utf8_error s)
