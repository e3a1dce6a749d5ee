-- ===== src/Python/Ascii.antt =====
-- A runtime that computes, for texts of ASCII characters: the theorems' instances and the tests run
-- on it. Floats are counts of thousandths, `parse_qsl` decodes nothing, the hash is the text, and
-- JSON of any text but the empty one is an object that holds it twice; one text is an answer of the
-- model server and a proposal.
use Prim.Native.Char.{Char, code}
use Prim.Native.Nat.{◌/◌}
use Prim.Native.String.{char_at}
use nighwatch.Common.{
  ℕ, ◌-◌, ◌*◌, String, ◌<>◌, refl, Bool, true, ◌&&◌, not, Option, none, some, List, [], ◌∷◌, arith,
  leb, ltb, eqb, ◌==◌, if◌then◌else◌,
}
use nighwatch.Python.Str.{partition, all_chars, str_int, is_ascii_digit}
use nighwatch.Python.Json.{Json, bool, str, arr, obj, nil, end, field}
use nighwatch.Python.Int.{ℤ, pos, negsuc}
use nighwatch.Python.Runtime.{an_int, Runtime, IsFloat}

abbrev lower_char : Char → Char
lower_char c =
    if leb b'A' (code c) && leb (code c) b'Z'
    then char_at "abcdefghijklmnopqrstuvwxyz" (code c - b'A')
    else c

abbrev upper_char : Char → Char
upper_char c =
    if leb b'a' (code c) && leb (code c) b'z'
    then char_at "ABCDEFGHIJKLMNOPQRSTUVWXYZ" (code c - b'a')
    else c

unfoldable pub map_chars : (Char → Char) → String → String
map_chars f String.[] = ""
map_chars f (String.◌∷◌ c s) = String.◌∷◌ (f c) (map_chars f s)

abbrev is_ascii : String → Bool
is_ascii s = all_chars (λ c. ltb (code c) 128) s

-- The texts between the `&`s, from the right.
unfoldable pub split_fields : String → List String
split_fields String.[] = "" ∷ []
split_fields (String.◌∷◌ c s) = push c (split_fields s)
  where
    push : Char → List String → List String
    push d [] = []
    push d (w ∷ ws) =
        if leb (code d) 38 && leb 38 (code d) then "" ∷ w ∷ ws else String.◌∷◌ d w ∷ ws

unfoldable pub key_values : List String → List (String × String)
unfolding partition
key_values [] = []
key_values (w ∷ ws) =
    let p = partition b'=' w in
    let rest = key_values ws in if w == "" then rest else (p.before, p.after) ∷ rest

unfoldable pub join_fields : List (String × String) → String
join_fields [] = ""
join_fields ((k, v) ∷ []) = k <> "=" <> v
join_fields ((k, v) ∷ kv ∷ kvs) = k <> "=" <> v <> "&" <> join_fields (kv ∷ kvs)

unfoldable pub decode_ascii : List ℕ → String
decode_ascii [] = ""
decode_ascii (n ∷ ns) = char_of n <> decode_ascii ns
  where
    char_of : ℕ → String
    char_of n =
        if leb 32 n && ltb n 127
        then String.◌∷◌
            (char_at
              " !\"#$%&'()*+,-./0123456789:;<=>?@ABCDEFGHIJKLMNOPQRSTUVWXYZ[\\]^_`abcdefghijklmnopqrstuvwxyz{|}~"
              (n - 32))
            ""
        else "?"

-- What `json_loads` reads.
unfoldable pub load : String → Option (Json ℕ)
load s =
    if s == ""
    then none
    else if s == "compare_authorization"
    then some (
        obj (
          field "message" (obj (field "content" (str s) end)) (
            field "task_kind" (str s) (
              field "target_ref" (str "endpoint:ep_001 ") (
                field "reason" (str "compare the owner with another user") (
                  field "auth_profiles" (arr nil) (
                    field "risk_level" (str "state_change")
                      (field "approval_required" (bool true) end))))))))
    else some (obj (field "id" (str s) (field "email" (str s) end)))

-- Whoever unfolds this unfolds the functions of `ascii`.
unfoldable pub ascii_runs : Unit {0}
unfolding load decode_ascii map_chars split_fields key_values join_fields all_chars str_int
ascii_runs = tt

abbrev thousands : ℤ → ℕ
thousands (pos n) = n * 1000
thousands (negsuc n) = 0

abbrev pub ascii : Runtime
ascii = record {
  lower = map_chars lower_char;
  upper = map_chars upper_char;
  repr = λ s. "'" <> s <> "'";
  idna = λ s. if is_ascii s then some s else none;
  netloc_error = λ s. if is_ascii s then none else some "netloc contains invalid characters";
  parse_qsl = λ s. key_values (split_fields s);
  urlencode = join_fields;
  sha256 = decode_ascii;
  Float = ℕ;
  float = λ n. n * 1000;
  float_sub = λ a b. a - b;
  float_div = λ a b. a * 1000 / b;
  float_lt = ltb;
  float_le = leb;
  float_eq = eqb;
  int_float = λ n. some (thousands n);
  text_float = λ s. if s == "120.0" then some 120000 else if s == "0.0" then some 0 else none;
  json_error = λ s. "Expecting value";
  json_text = λ v. "value";
  json_dumps = λ options v. "json";
  json_loads = load;
  utf8_error = λ s. none;
  decode_utf8 = decode_ascii;
  strict_utf8 = λ s. some (decode_ascii s);
  re_sub = λ pattern replacement s. s;
  re_match = λ pattern s. all_chars is_ascii_digit s && not (s == "");
  float_int = λ x. an_int (pos (x / 1000));
  text_int = λ s. if s == "2048" then some (pos 2048) else if s == "5" then some (pos 5) else none;
  float_bool = λ x. not (eqb x 0);
  float_text = str_int;
  float_fixed = str_int;
}

pub ascii-IsFloat : IsFloat ascii
ascii-IsFloat = record {
  sub_pos = λ a b h. ground arith;
  zero_eq = refl;
  pos_ne = λ a h. ground arith;
}
