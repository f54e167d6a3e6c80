-- ===== src/Dotenv/Lines.antt =====
-- How the lines of the input are accounted for.
use jitenv.Base.{
  ℕ, ◌+◌, List, [], ◌∷◌, map, ◌≡◌, arith, if◌then◌else◌, Result, ok, err, Text, split, Bool-cases,
  inl, inr, subst,
}
use jitenv.Dotenv.{Pair, ParseError, parse_entry, parse_lines, is_skipped, clean, parse, add}

-- `zs` is made of the elements of `xs` and `ys`, each list in its own order.
pub data Interleaves : List ℕ → List ℕ → List ℕ → Type 0 where
  done : Interleaves [] [] []
  left : {x : ℕ} {xs ys zs : List ℕ} → Interleaves xs ys zs → Interleaves (x ∷ xs) ys (x ∷ zs)
  right : {y : ℕ} {xs ys zs : List ℕ} → Interleaves xs ys zs → Interleaves xs (y ∷ ys) (y ∷ zs)

-- The numbers of the lines, counted from `n`, that are neither blank nor comments.
abbrev pub significant : ℕ → List Text → List ℕ
significant n [] = []
significant n (raw ∷ rest) =
    if is_skipped (clean raw) then significant (n + 1) rest else n ∷ significant (n + 1) rest

abbrev entry_line : Result ParseError Pair → ℕ
entry_line (ok p) = p.line
entry_line (err e) = e.line

line-parse_entry : (n : ℕ) (line : Text) → entry_line (parse_entry n line) ≡ n
unfolding parse_entry
line-parse_entry n line = ground arith

abbrev Accounts : List Pair × List ParseError → List ℕ → Type 0
Accounts r = Interleaves (map (λ p. p.line) r.0) (map (λ e. e.line) r.1)

add-Accounts :
    (e : Result ParseError Pair) (r : List Pair × List ParseError) (zs : List ℕ)
    → Accounts r zs
    → Accounts (add e r) (entry_line e ∷ zs)
add-Accounts (ok p) r zs h = left h
add-Accounts (err e) r zs h = right h

parse_lines-Accounts : (n : ℕ) (ls : List Text) → Accounts (parse_lines n ls) (significant n ls)
unfolding parse_lines
parse_lines-Accounts n [] = done
parse_lines-Accounts n (raw ∷ rest) = elim (Bool-cases (is_skipped (clean raw))) [
  | inl skip ↦ rw skip (parse_lines-Accounts (n + 1) rest)
  | inr kept ↦ rw kept (
      subst
        (λ k.
          Accounts (add (parse_entry n (clean raw)) (parse_lines (n + 1) rest))
            (k ∷ significant (n + 1) rest))
        (line-parse_entry n (clean raw))
        (add-Accounts (parse_entry n (clean raw)) _ _ (parse_lines-Accounts (n + 1) rest)))
]

-- Every line that is neither blank nor a comment gives one pair or one error, which carries the
-- line's number, counted from 1; no other line gives any; both lists are in the order of the lines.
pub parse-accounts :
    (input : Text)
    → Interleaves
        (map (λ p. p.line) (parse input).0)
        (map (λ e. e.line) (parse input).1)
        (significant 1 (split b'\n' input))
unfolding parse
parse-accounts input = parse_lines-Accounts 1 (split b'\n' input)
