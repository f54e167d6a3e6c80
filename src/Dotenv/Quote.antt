-- ===== src/Dotenv/Quote.antt =====
-- A double-quoted value is read back.
use jitenv.Base.{
  ℕ, false, [], ◌∷◌, ◌++◌, ◌≡◌, ◌∙◌, refl, ap, arith, ◌==◌, if◌then◌else◌, Text, ok, append_assoc,
  append-nil, any, any-append,
}
use jitenv.Dotenv.{scan_double, unescape, unquote_value}

abbrev backslashed : ℕ → Text
backslashed c = b'\\' ∷ c ∷ []

-- How a character is written between double quotes.
pub escape_char : ℕ → Text
escape_char c =
    if c == b'\n'
    then backslashed b'n'
    else if c == 13
    then backslashed b'r'
    else if c == b'\t'
    then backslashed b't'
    else if c == b'\\'
    then backslashed b'\\'
    else if c == b'"'
    then backslashed b'"'
    else c ∷ []

pub escape : Text → Text
escape [] = []
escape (c ∷ cs) = escape_char c ++ escape cs

abbrev pub quote : Text → Text
quote v = b'"' ∷ (escape v ++ b'"' ∷ [])

scan_double_plain :
    (b : Text) (c : ℕ) (s : Text)
    → (c == b'\\') ≡ false
    → (c == b'"') ≡ false
    → scan_double b (c ∷ s) ≡ scan_double (b ++ c ∷ []) s
unfolding scan_double
scan_double_plain b c [] h k = rw k
scan_double_plain b c (d ∷ s) h k = rw (h, k)

scan_double_pair :
    (b : Text) (d : ℕ) (s : Text)
    → scan_double b (b'\\' ∷ d ∷ s) ≡ scan_double (b ++ unescape d ∷ []) s
unfolding scan_double
scan_double_pair b d s = refl

scan_double_end : (b s : Text) → scan_double b (b'"' ∷ s) ≡ ok b
unfolding scan_double
scan_double_end b [] = refl
scan_double_end b (c ∷ s) = refl

scan-escape_char :
    (b : Text) (c : ℕ) (s : Text) → scan_double b (escape_char c ++ s) ≡ scan_double (b ++ c ∷ []) s
unfolding escape_char unescape
scan-escape_char b c s = ground (
  arith,
  scan_double_plain b c s,
  scan_double_pair b b'n' s,
  scan_double_pair b b'r' s,
  scan_double_pair b b't' s,
  scan_double_pair b b'\\' s,
  scan_double_pair b b'"' s,
)

scan-escape : (v b rest : Text) → scan_double b (escape v ++ (b'"' ∷ rest)) ≡ ok (b ++ v)
unfolding escape
scan-escape [] b rest = rw append-nil (scan_double_end b rest)
scan-escape (c ∷ v) b rest =
    ap (scan_double b) (append_assoc (escape_char c) (escape v) (b'"' ∷ rest))
    ∙ scan-escape_char b c (escape v ++ (b'"' ∷ rest))
    ∙ scan-escape v (b ++ c ∷ []) rest
    ∙ ap ok (append_assoc b (c ∷ []) v)

-- Whatever follows the closing quote is ignored.
pub unquote-quote : (v : Text) → unquote_value (quote v) ≡ ok v
unfolding unquote_value
unquote-quote v = scan-escape v [] []

escape_char-newline : (c : ℕ) → any (λ d. d == b'\n') (escape_char c) ≡ false
unfolding escape_char
escape_char-newline c = ground arith

pub escape-newline : (v : Text) → any (λ d. d == b'\n') (escape v) ≡ false
unfolding escape
escape-newline [] = refl
escape-newline (c ∷ v) =
    any-append _ (escape_char c) (escape v) ∙ rw (escape_char-newline c, escape-newline v)
