-- ===== src/Python/Runtime.antt =====
-- The part of the Python runtime whose definition is a table or a primitive: Unicode case mapping
-- and IDNA, floating point, form encoding and SHA-256. The theorems hold
-- for every such runtime, those about float arithmetic if it is lawful (`IsFloat`); `Ascii` is one
-- that runs.
use nighwatch.Common.{ℕ, String, Bool, true, false, Option, List, ◌≡◌}
use nighwatch.Python.Bytes.{Bytes}
use nighwatch.Python.Int.{ℤ}
use nighwatch.Python.Json.{Json}

pub record Dumps : Type 0 where
  pub compact : Bool
  pub sort_keys : Bool
  pub ensure_ascii : Bool

-- An integer, or the `ValueError` or `OverflowError` that `int` raises.
pub data IntResult : Type 0 where
  an_int : ℤ → IntResult
  value_error overflow_error : IntResult

pub record Runtime : Type 1 where
  -- `str.lower` and `str.upper`
  pub lower : String → String
  pub upper : String → String
  -- `repr` of a string, in error messages
  pub repr : String → String
  -- `s.encode("idna").decode("ascii")`, or `none` for a `UnicodeError`
  pub idna : String → Option String
  -- the `ValueError` by which `urlsplit` refuses a network location: an address between brackets
  -- that is none, or characters that normalise to a delimiter
  pub netloc_error : String → Option String
  -- `parse_qsl(_, keep_blank_values=True)` and `urlencode`
  pub parse_qsl : String → List (String × String)
  pub urlencode : List (String × String) → String
  -- `hashlib.sha256(_).hexdigest()`
  pub sha256 : Bytes → String
  -- floats: the small integers, `-`, `/`, `<`, `<=` and `==`
  pub Float : Type 0
  pub float : ℕ → Float
  pub float_sub : Float → Float → Float
  pub float_div : Float → Float → Float
  pub float_lt : Float → Float → Bool
  pub float_le : Float → Float → Bool
  pub float_eq : Float → Float → Bool
  -- `json.dumps`, with `separators=(",", ":")` if compact, with `sort_keys` and `ensure_ascii`
  pub json_dumps : Dumps → Json Float → String
  -- `json.loads`, or `none` for a `ValueError`
  pub json_loads : String → Option (Json Float)
  -- the `msg` of the `JSONDecodeError`
  pub json_error : String → String
  -- the `UnicodeEncodeError` of `s.encode("utf-8")`, where `s` holds a lone surrogate, which
  -- `json.loads` makes of an escape; how a text here stands for one is up to the runtime
  pub utf8_error : String → Option String
  -- `bytes.decode("utf-8", errors="replace")`
  pub decode_utf8 : Bytes → String
  -- `bytes.decode("utf-8")`, or `none` for a `UnicodeDecodeError`
  pub strict_utf8 : Bytes → Option String
  -- `re.sub` of a pattern, by its text, with a replacement
  pub re_sub : String → String → String → String
  -- `re.match` of a pattern, by its text
  pub re_match : String → String → Bool
  -- `int(x)`: of a float, which may raise, and of a text, or `none` for a `ValueError`
  pub float_int : Float → IntResult
  pub text_int : String → Option ℤ
  -- `float(x)`: of an integer, or `none` for an `OverflowError`, and of a text, or `none` for a
  -- `ValueError`
  pub int_float : ℤ → Option Float
  pub text_float : String → Option Float
  -- `bool(x)`
  pub float_bool : Float → Bool
  -- `str(x)`
  pub float_text : Float → String
  -- `str(v)` of a JSON value that is no text
  pub json_text : Json Float → String
  -- `f"{x:.3f}"`
  pub float_fixed : Float → String

-- What is used of float arithmetic: `b - a` is positive where `a < b`, zero equals itself, and a
-- positive number does not equal zero. IEEE 754 doubles satisfy all three.
pub record IsFloat (R : Runtime) : Type 0 where
  pub sub_pos :
      (a b : R.Float) → R.float_lt a b ≡ true → R.float_lt (R.float 0) (R.float_sub b a) ≡ true
  pub zero_eq : R.float_eq (R.float 0) (R.float 0) ≡ true
  pub pos_ne : (a : R.Float) → R.float_lt (R.float 0) a ≡ true → R.float_eq a (R.float 0) ≡ false
