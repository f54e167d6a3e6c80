-- ===== src/Dotenv/Keys.antt =====
-- The keys that the parser accepts.
use jitenv.Base.{
  ℕ, ◌+◌, Bool, true, ◌||◌, ◌&&◌, List, [], ◌∷◌, ◌≡◌, refl, arith, leb, Bool-cases, inl, inr, ok,
  err, Result, Text, All, split,
}
use jitenv.Dotenv.{
  Pair, ParseError, add, is_name_start, valid_from, is_valid_env_key, parse_entry, parse_lines,
  is_skipped, clean, parse,
}

abbrev pub is_name_char : ℕ → Bool
is_name_char c = is_name_start c || leb b'0' c && leb c b'9'

-- A POSIX name: a letter or an underscore, then letters, digits and underscores.
abbrev pub IsIdentifier : Text → Type 0
IsIdentifier [] = ⊥
IsIdentifier (c ∷ cs) = (is_name_start c ≡ true) × All (λ d. is_name_char d ≡ true) cs

valid_from-All : (cs : Text) → valid_from true cs ≡ true → All (λ d. is_name_char d ≡ true) cs
unfolding valid_from
valid_from-All [] h = tt
valid_from-All (c ∷ cs) h = (ground arith, valid_from-All cs (ground arith))

pub valid-IsIdentifier : (k : Text) → is_valid_env_key k ≡ true → IsIdentifier k
unfolding is_valid_env_key
valid-IsIdentifier [] h = cc
valid-IsIdentifier (c ∷ cs) h = (ground arith, valid_from-All cs (ground arith))

All-valid_from : (cs : Text) → All (λ d. is_name_char d ≡ true) cs → valid_from true cs ≡ true
unfolding valid_from
All-valid_from [] h = refl
All-valid_from (c ∷ cs) h = ground (arith, All-valid_from cs)

pub IsIdentifier-valid : (k : Text) → IsIdentifier k → is_valid_env_key k ≡ true
unfolding is_valid_env_key
IsIdentifier-valid [] h = absurd h
IsIdentifier-valid (c ∷ cs) h = ground (arith, All-valid_from cs)

parse_entry-valid :
    (n : ℕ) (line : Text) (p : Pair) → parse_entry n line ≡ ok p → is_valid_env_key p.key ≡ true
unfolding parse_entry
parse_entry-valid n line p h = ground arith

add-IsIdentifier :
    (e : Result ParseError Pair) (r : List Pair × List ParseError)
    → ((p : Pair) → e ≡ ok p → IsIdentifier p.key)
    → All (λ p. IsIdentifier p.key) r.0
    → All (λ p. IsIdentifier p.key) (add e r).0
add-IsIdentifier (ok p) r h t = (h p refl, t)
add-IsIdentifier (err e) r h t = t

parse_lines-IsIdentifier :
    (n : ℕ) (ls : List Text) → All (λ p. IsIdentifier p.key) (parse_lines n ls).0
unfolding parse_lines
parse_lines-IsIdentifier n [] = tt
parse_lines-IsIdentifier n (raw ∷ rest) = elim (Bool-cases (is_skipped (clean raw))) [
  | inl skip ↦ rw skip (parse_lines-IsIdentifier (n + 1) rest)
  | inr kept ↦ rw kept (
      add-IsIdentifier (parse_entry n (clean raw)) (parse_lines (n + 1) rest)
        (λ p e. valid-IsIdentifier p.key (parse_entry-valid n (clean raw) p e))
        (parse_lines-IsIdentifier (n + 1) rest))
]

-- Every key that `Parse` returns is a POSIX name.
pub parse-IsIdentifier : (input : Text) → All (λ p. IsIdentifier p.key) (parse input).0
unfolding parse
parse-IsIdentifier input = parse_lines-IsIdentifier 1 (split b'\n' input)
