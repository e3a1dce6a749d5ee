-- ===== src/Python/Str.antt =====
-- The methods of `str` that the source uses and that need no Unicode case table.
use Prim.Native.Char.{Char, code}
use Prim.Native.Nat.{◌/◌, ◌%◌}
use Prim.Native.String.{[], ◌∷◌, char_at}
use nighwatch.Common.{
  ℕ, zero, suc, ◌-◌, String, ◌<>◌, starts_with, ◌≡◌, refl, Bool, true, false, List, [], ◌∷◌, ◌&&◌,
  ◌||◌, leb, ltb, eqb, ◌==◌, if◌then◌else◌,
}

-- `str.isspace` of one character.
unfoldable pub is_space : Char → Bool
is_space c =
    let n = code c in
    (leb 9 n && leb n 13)
    || (leb 28 n && leb n 32)
    || eqb n 0x85
    || eqb n 0xa0
    || eqb n 0x1680
    || (leb 0x2000 n && leb n 0x200a)
    || eqb n 0x2028
    || eqb n 0x2029
    || eqb n 0x202f
    || eqb n 0x205f
    || eqb n 0x3000

-- `s.lstrip`, `s.rstrip` and `s.strip` of the characters that pass a test.
unfoldable pub lstrip_of : (Char → Bool) → String → String
lstrip_of p [] = []
lstrip_of p (c ∷ s) = if p c then lstrip_of p s else c ∷ s

unfoldable pub rstrip_of : (Char → Bool) → String → String
rstrip_of p [] = []
rstrip_of p (c ∷ s) = let rest = rstrip_of p s in if rest == "" && p c then [] else c ∷ rest

unfoldable pub strip : String → String
unfolding is_space lstrip_of rstrip_of
strip s = rstrip_of is_space (lstrip_of is_space s)

-- `s.rstrip(ch)` for one character, by its code point.
unfoldable pub rstrip_char : ℕ → String → String
unfolding rstrip_of
rstrip_char ch s = rstrip_of (λ c. eqb (code c) ch) s

-- `s.replace(ch, "")`
unfoldable pub remove_char : ℕ → String → String
remove_char ch [] = []
remove_char ch (c ∷ s) = let rest = remove_char ch s in if eqb (code c) ch then rest else c ∷ rest

-- `s.replace(ch, text)`
unfoldable pub replace_char : ℕ → String → String → String
replace_char ch text [] = []
replace_char ch text (c ∷ s) =
    let rest = replace_char ch text s in if eqb (code c) ch then text <> rest else c ∷ rest

-- `ch in s`
unfoldable pub has_char : ℕ → String → Bool
has_char ch [] = false
has_char ch (c ∷ s) = if eqb (code c) ch then true else has_char ch s

-- The result of `s.partition(ch)` and `s.rpartition(ch)`.
pub record Parts : Type 0 where
  pub before : String
  pub found : Bool
  pub after : String

abbrev keep : Char → Parts → Parts
keep c p = record p { before = c ∷ p.before }

unfoldable pub partition : ℕ → String → Parts
partition ch [] = record { before = ""; found = false; after = "" }
partition ch (c ∷ s) =
    if eqb (code c) ch
    then record { before = ""; found = true; after = s }
    else keep c (partition ch s)

-- Without the character the whole text is `after`.
unfoldable pub rpartition : ℕ → String → Parts
rpartition ch [] = record { before = ""; found = false; after = "" }
rpartition ch (c ∷ s) =
    let rest = rpartition ch s in
    if rest.found
    then keep c rest
    else if eqb (code c) ch
    then record { before = ""; found = true; after = s }
    else record { before = ""; found = false; after = c ∷ s }

-- `s[:n]`
unfoldable pub take_chars : ℕ → String → String
take_chars zero s = []
take_chars (suc n) [] = []
take_chars (suc n) (c ∷ s) = c ∷ take_chars n s

-- `s.split(ch)` for one character, by its code point: the last piece has no separator after it.
unfoldable pub split : ℕ → String → List String
split ch [] = "" ∷ []
split ch (c ∷ s) = begin_piece (eqb (code c) ch) c (split ch s)
  where
    begin_piece : Bool → Char → List String → List String
    begin_piece cut c [] = []
    begin_piece cut c (w ∷ ws) = if cut then "" ∷ w ∷ ws else (c ∷ w) ∷ ws

-- `len(s)`
unfoldable pub str_length : String → ℕ
str_length [] = 0
str_length (c ∷ s) = suc (str_length s)

-- `s.lstrip(ch)` for one character, by its code point.
unfoldable pub lstrip_char : ℕ → String → String
unfolding lstrip_of
lstrip_char ch s = lstrip_of (λ c. eqb (code c) ch) s

-- `sub in s`
unfoldable pub has_text : String → String → Bool
has_text sub [] = sub == ""
has_text sub (c ∷ s) = if starts_with (c ∷ s) sub then true else has_text sub s

-- `s.replace(old, new)` for a text that is not empty, after the characters that belong to a match.
replace_from : ℕ → String → String → String → String
replace_from skip old new [] = []
replace_from (suc skip) old new (c ∷ s) = replace_from skip old new s
replace_from zero old new (c ∷ s) = elim (starts_with (c ∷ s) old) [
  | true ↦ new <> replace_from (str_length old - 1) old new s
  | false ↦ c ∷ replace_from zero old new s
]

unfoldable pub replace_text : String → String → String → String
unfolding replace_from
replace_text old new s = replace_from zero old new s

-- `all(p(c) for c in s)`
unfoldable pub all_chars : (Char → Bool) → String → Bool
all_chars p [] = true
all_chars p (c ∷ s) = if p c then all_chars p s else false

abbrev pub is_ascii_digit : Char → Bool
is_ascii_digit c = leb b'0' (code c) && leb (code c) b'9'

abbrev pub is_ascii_alpha : Char → Bool
is_ascii_alpha c =
    (leb b'a' (code c) && leb (code c) b'z') || (leb b'A' (code c) && leb (code c) b'Z')

digit : ℕ → String
digit n = char_at "0123456789" n ∷ ""

decimal : ℕ → ℕ → String
unfolding digit
decimal zero n = digit n
decimal (suc fuel) n =
    let rest = decimal fuel (n / 10) <> digit (n % 10) in if ltb n 10 then digit n else rest

-- `str(n)`; a number has no more digits than units.
unfoldable pub str_int : ℕ → String
unfolding decimal
str_int n = decimal n n

str_int_test : str_int 65535 ≡ "65535"
unfolding str_int
str_int_test = refl

strip_test : strip "  a b\n " ≡ "a b"
unfolding strip
strip_test = refl

rpartition_test : rpartition b'@' "a@b@c" ≡ record { before = "a@b"; found = true; after = "c" }
unfolding rpartition
rpartition_test = refl

replace_text_test : replace_text "{{P}}" "x" "a={{P}}&b={{P}" ≡ "a=x&b={{P}"
unfolding replace_text str_length
replace_text_test = refl

has_text_test : has_text "://" "http://a" ≡ true
unfolding has_text
has_text_test = refl
