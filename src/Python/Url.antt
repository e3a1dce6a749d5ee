-- ===== src/Python/Url.antt =====
-- `urllib.parse.urlsplit`, the fields of its result, and `urlunsplit`.
pub mod Laws
use Prim.Native.Char.{Char, code}
use Prim.Native.String.{[], ◌∷◌}
use nighwatch.Common.{
  ℕ, ◌+◌, ◌*◌, ◌-◌, String, ◌<>◌, Bool, false, ◌&&◌, ◌||◌, not, Option, none, some, List, [], ◌∷◌,
  Result, ok, err, ◌==◌, starts_with, eqb, leb, contains, if◌then◌else◌,
}
use nighwatch.Python.Runtime.{Runtime}
use nighwatch.Python.Str.{
  lstrip_of, remove_char, has_char, all_chars, partition, rpartition, is_ascii_digit,
  is_ascii_alpha,
}

pub record SplitResult : Type 0 where
  pub scheme : String
  pub netloc : String
  pub path : String
  pub query : String
  pub fragment : String

-- Up to the first of `/`, `?` and `#`, and the rest with that character.
unfoldable pub split_netloc : String → String × String
split_netloc [] = ("", "")
split_netloc (c ∷ s) =
    let n = code c in
    let (netloc, rest) = split_netloc s in
    if eqb n b'/' || eqb n b'?' || eqb n b'#' then ("", c ∷ s) else (c ∷ netloc, rest)

abbrev is_scheme_char : Char → Bool
is_scheme_char c =
    is_ascii_alpha c
    || is_ascii_digit c
    || eqb (code c) b'+'
    || eqb (code c) b'-'
    || eqb (code c) b'.'

abbrev begins_with_letter : String → Bool
begins_with_letter [] = false
begins_with_letter (c ∷ s) = is_ascii_alpha c

-- WHATWG: leading control characters and spaces go, and tabs and line breaks anywhere.
clean : String → String
unfolding lstrip_of remove_char
clean url =
    remove_char b'\n' (remove_char b'\r' (remove_char b'\t' (lstrip_of (λ c. leb (code c) 32) url)))

abbrev drop_two : String → String
drop_two (a ∷ b ∷ s) = s
drop_two s = s

-- `_userinfo`
unfoldable pub username : SplitResult → Option String
unfolding rpartition partition
username u =
    let at = rpartition b'@' u.netloc in
    if at.found then some (partition b':' at.before).before else none

unfoldable pub password : SplitResult → Option String
unfolding rpartition partition
password u =
    let at = rpartition b'@' u.netloc in
    let colon = partition b':' at.before in
    if at.found && colon.found then some colon.after else none

-- `_hostinfo`: the host text and the port text.
host_info : SplitResult → String × Option String
unfolding rpartition partition
host_info u =
    let info = (rpartition b'@' u.netloc).after in
    let open_bracket = partition b'[' info in
    let closed = partition b']' open_bracket.after in
    let host = if open_bracket.found then closed.before else (partition b':' info).before in
    let port =
      if open_bracket.found
      then (partition b':' closed.after).after
      else (partition b':' info).after in
    (host, if port == "" then none else some port)

digits_value : ℕ → String → ℕ
digits_value n [] = n
digits_value n (c ∷ s) = digits_value (n * 10 + (code c - b'0')) s

split_rest : String → String → String → SplitResult
unfolding partition
split_rest scheme netloc url =
    let f = partition b'#' url in
    let q = partition b'?' f.before in
    record {
      scheme = scheme;
      netloc = netloc;
      path = q.before;
      query = q.after;
      fragment = f.after;
    }

module _ (R : Runtime) where
  -- The scheme, lower-cased, and what follows its colon.
  split_scheme : String → String × String
  unfolding partition all_chars
  split_scheme url =
      let p = partition b':' url in
      if p.found && begins_with_letter url && all_chars is_scheme_char p.before
      then (R.lower p.before, p.after)
      else ("", url)

  split_authority : String → String → Result String SplitResult
  unfolding split_netloc has_char split_rest
  split_authority scheme url =
      let (netloc, rest) = split_netloc url in
      if (has_char b'[' netloc && not (has_char b']' netloc))
        || (has_char b']' netloc && not (has_char b'[' netloc))
      then err "Invalid IPv6 URL"
      else elim (R.netloc_error netloc) [
        | none ↦ ok (split_rest scheme netloc rest)
        | some message ↦ err message
      ]

  -- `err` is a `ValueError` with its message.
  unfoldable pub urlsplit : String → Result String SplitResult
  unfolding clean split_scheme split_rest split_authority
  urlsplit text =
      let (scheme, url) = split_scheme (clean text) in
      if starts_with url "//"
      then split_authority scheme (drop_two url)
      else ok (split_rest scheme "" url)

  -- Lower-cased up to a zone identifier.
  unfoldable pub hostname : SplitResult → Option String
  unfolding host_info partition
  hostname u =
      let host = (host_info u).0 in
      let zone = partition b'%' host in
      if host == ""
      then none
      else some (R.lower zone.before <> (if zone.found then "%" else "") <> zone.after)

  -- `err` is the `ValueError` of the `port` property.
  unfoldable pub port : SplitResult → Result String (Option ℕ)
  unfolding host_info digits_value all_chars
  port u = elim (host_info u).1 [
    | none ↦ ok none
    | some text ↦
        if all_chars is_ascii_digit text
        then (if leb (digits_value 0 text) 65535
            then ok (some (digits_value 0 text))
            else err "Port out of range 0-65535")
        else err ("Port could not be cast to integer value as " <> R.repr text)
  ]

abbrev uses_netloc : List String
uses_netloc =
    "" ∷ "ftp" ∷ "http" ∷ "gopher" ∷ "nntp" ∷ "telnet" ∷ "imap" ∷ "wais" ∷ "file" ∷ "mms" ∷ "https"
    ∷ "shttp" ∷ "snews" ∷ "prospero" ∷ "rtsp" ∷ "rtsps" ∷ "rtspu" ∷ "rsync" ∷ "svn" ∷ "svn+ssh"
    ∷ "sftp" ∷ "nfs" ∷ "git" ∷ "git+ssh" ∷ "ws" ∷ "wss" ∷ "itms-services" ∷ []

-- `urlunsplit`
unfoldable pub urlunsplit : SplitResult → String
unfolding contains
urlunsplit u =
    let slashed = if u.path == "" || starts_with u.path "/" then u.path else "/" <> u.path in
    let located =
      if not (u.netloc == "")
        || (not (u.scheme == "") && contains uses_netloc u.scheme && not (starts_with u.path "//"))
      then "//" <> u.netloc <> slashed
      else u.path in
    let schemed = if u.scheme == "" then located else u.scheme <> ":" <> located in
    let queried = if u.query == "" then schemed else schemed <> "?" <> u.query in
    if u.fragment == "" then queried else queried <> "#" <> u.fragment
