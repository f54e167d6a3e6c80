-- ===== src/Dotenv.antt =====
-- internal/dotenv/dotenv.go: the parser of KEY=VALUE blocks. A pair or an error carries the number
-- of its line, from 1. An error's message text is not modelled, only which error it is.
mod Keys
mod Lines
mod Names
mod Quote
mod RoundTrip
mod Crlf
mod Tests
use jitenv.Base.{
  ℕ, ◌+◌, Bool, true, false, not, ◌&&◌, ◌||◌, Option, none, some, List, [], ◌∷◌, ◌++◌, leb, ◌==◌,
  if◌then◌else◌, Result, ok, err, Text, codes, take, drop, same, has_prefix, trim_left, trim_right,
  trim_space, index, split, is_empty,
}

pub record Pair : Type 0 where
  pub key : Text
  pub value : Text
  pub line : ℕ

pub data Reason : Type 0 where
  no_separator empty_key unterminated_double unterminated_single : Reason
  invalid_key : Text → Reason

pub record ParseError : Type 0 where
  pub line : ℕ
  pub why : Reason

-- the cutset " \t"
abbrev pub is_blank : ℕ → Bool
is_blank c = c == b' ' || c == b'\t'

abbrev pub export_prefix : Text
export_prefix = codes "export"

-- what follows `export`: only a blank after it makes it a prefix
pub after_export : Text → Option Text
after_export [] = none
after_export (c ∷ cs) = if is_blank c then some (trim_left is_blank (c ∷ cs)) else none

-- `none` is the result (line, false)
pub strip_export : Text → Option Text
unfolding after_export
strip_export line = if has_prefix line export_prefix then after_export (drop 6 line) else none

pub unescape : ℕ → ℕ
unescape c = if c == b'n' then b'\n' else if c == b'r' then 13 else if c == b't' then b'\t' else c

-- the loop behind an opening double quote, with the builder `b`
pub scan_double : Text → Text → Result Reason Text
scan_double b [] = err unterminated_double
scan_double b (c ∷ []) = if c == b'"' then ok b else err unterminated_double
scan_double b (c ∷ d ∷ rest) =
    let escaped = scan_double (b ++ unescape d ∷ []) rest in
    let plain = scan_double (b ++ c ∷ []) (d ∷ rest) in
    if c == b'\\' then escaped else if c == b'"' then ok b else plain

-- s[:strings.Index(s, " #")], or s
pub cut_comment : Text → Text
cut_comment [] = []
cut_comment (c ∷ cs) = if has_prefix (c ∷ cs) (codes " #") then [] else c ∷ cut_comment cs

pub single_quoted : Text → Option ℕ → Result Reason Text
single_quoted s none = err unterminated_single
single_quoted s (some end) = ok (take end s)

pub unquote_value : Text → Result Reason Text
unfolding scan_double unescape single_quoted cut_comment
unquote_value [] = ok []
unquote_value (c ∷ s) =
    if c == b'"'
    then scan_double [] s
    else if c == 39
    then single_quoted s (index 39 s)
    else ok (trim_right is_blank (cut_comment (c ∷ s)))

abbrev pub is_name_start : ℕ → Bool
is_name_start c = c == b'_' || leb b'a' c && leb c b'z' || leb b'A' c && leb c b'Z'

-- the loop; the flag is `i > 0`
pub valid_from : Bool → Text → Bool
valid_from later [] = true
valid_from later (c ∷ cs) =
    (is_name_start c || later && leb b'0' c && leb c b'9') && valid_from true cs

pub is_valid_env_key : Text → Bool
unfolding valid_from
is_valid_env_key s = not (is_empty s) && valid_from false s

pub with_value : ℕ → Text → Result Reason Text → Result ParseError Pair
with_value n key (ok v) = ok (record { key = key; value = v; line = n })
with_value n key (err e) = err (record { line = n; why = e })

-- from the position of `=` on
pub key_value : ℕ → Text → ℕ → Result ParseError Pair
unfolding with_value
key_value n line eq =
    let key = trim_space (take eq line) in
    let value = unquote_value (trim_left is_blank (drop (eq + 1) line)) in
    if is_empty key
    then err (record { line = n; why = empty_key })
    else if not (is_valid_env_key key)
    then err (record { line = n; why = invalid_key key })
    else with_value n key value

pub at_separator : ℕ → Text → Option ℕ → Result ParseError Pair
at_separator n line none = err (record { line = n; why = no_separator })
at_separator n line (some eq) = key_value n line eq

abbrev pub or_line : Text → Option Text → Text
or_line line none = line
or_line line (some rest) = rest

-- a line that is neither blank nor a comment
pub parse_entry : ℕ → Text → Result ParseError Pair
unfolding at_separator key_value
parse_entry n line =
    let rest = or_line line (strip_export line) in at_separator n rest (index b'=' rest)

abbrev pub is_carriage_return : ℕ → Bool
is_carriage_return c = c == 13

-- the line as the loop looks at it
pub clean : Text → Text
clean raw = trim_space (trim_right is_carriage_return raw)

pub is_skipped : Text → Bool
is_skipped line = is_empty line || has_prefix line (codes "#")

abbrev pub add : Result ParseError Pair → List Pair × List ParseError → List Pair × List ParseError
add (ok p) (ps, es) = (p ∷ ps, es)
add (err e) (ps, es) = (ps, e ∷ es)

pub parse_lines : ℕ → List Text → List Pair × List ParseError
unfolding clean is_skipped
parse_lines n [] = ([], [])
parse_lines n (raw ∷ rest) =
    let after = parse_lines (n + 1) rest in
    if is_skipped (clean raw) then after else add (parse_entry n (clean raw)) after

unfoldable pub parse : Text → List Pair × List ParseError
unfolding parse_lines parse_entry strip_export unquote_value is_valid_env_key
parse input = parse_lines 1 (split b'\n' input)
