-- ===== src/Dotenv/RoundTrip.antt =====
-- Pairs that are written out, one line each, are read back.
use jitenv.Base.{
  ℕ, ◌+◌, false, List, [], ◌∷◌, ◌++◌, ◌≡◌, ◌∙◌, refl, sym, arith, ◌==◌, Text, ok, append_assoc, any,
  any-append, All, has_prefix, trim_left, trim_right, trim_space, split, split-append,
  trim_right_kept, is_space,
}
use jitenv.Dotenv.{Pair, is_carriage_return, parse_entry, parse_lines, is_skipped, clean, parse}
use jitenv.Dotenv.Keys.{IsIdentifier, IsIdentifier-valid}
use jitenv.Dotenv.Names.{
  IsIdentifier-NameText, index-name, take-length, newline-name, is_empty-name, drop-length,
  trim_space-name, strip_export-name,
}
use jitenv.Dotenv.Quote.{quote, escape, unquote-quote, escape-newline}

-- A line `KEY="value"`, and the lines of a list.
abbrev pub line_of : Text → Text → Text
line_of k v = k ++ (b'=' ∷ quote v)

pub render : List (Text × Text) → Text
render [] = []
render ((k, v) ∷ ps) = line_of k v ++ (b'\n' ∷ render ps)

abbrev pub numbered : ℕ → List (Text × Text) → List Pair
numbered n [] = []
numbered n ((k, v) ∷ ps) = record { key = k; value = v; line = n } ∷ numbered (n + 1) ps

-- The part of a line before its last character.
abbrev front : Text → Text → Text
front k v = k ++ (b'=' ∷ b'"' ∷ escape v)

line_of-front : (k v : Text) → line_of k v ≡ front k v ++ b'"' ∷ []
line_of-front k v = sym (append_assoc k (b'=' ∷ b'"' ∷ escape v) (b'"' ∷ []))

trim_left-name : (k rest : Text) → IsIdentifier k → trim_left is_space (k ++ rest) ≡ k ++ rest
unfolding trim_left
trim_left-name [] rest h = absurd h
trim_left-name (c ∷ k) rest h = ground arith

module _ (k v : Text) (name : IsIdentifier k) where
  clean-line_of : clean (line_of k v) ≡ line_of k v
  unfolding clean trim_space
  clean-line_of =
      rw
        (
          line_of-front k v,
          trim_right_kept is_carriage_return (front k v) b'"' refl,
          trim_right_kept is_space (front k v) b'"' refl,
          sym (line_of-front k v),
        )
        (trim_left-name k (b'=' ∷ quote v) name)

  parse_entry-line_of :
      (n : ℕ) → parse_entry n (line_of k v) ≡ ok (record { key = k; value = v; line = n })
  unfolding parse_entry trim_left
  parse_entry-line_of n =
      let names = IsIdentifier-NameText k name in
      rw (
        strip_export-name k (quote v) names,
        index-name k (quote v) names,
        take-length k (b'=' ∷ quote v),
        drop-length k (quote v) b'=',
        trim_space-name k names,
        is_empty-name k name,
        IsIdentifier-valid k name,
        unquote-quote v,
      )

is_skipped-line_of : (k v : Text) → IsIdentifier k → is_skipped (line_of k v) ≡ false
unfolding is_skipped has_prefix
is_skipped-line_of [] v h = absurd h
is_skipped-line_of (c ∷ k) v h = ground arith

line_of-newline : (k v : Text) → IsIdentifier k → any (λ d. d == b'\n') (line_of k v) ≡ false
line_of-newline k v h =
    any-append _ k (b'=' ∷ quote v)
    ∙ rw (newline-name k (IsIdentifier-NameText k h))
        (any-append _ (escape v) (b'"' ∷ []) ∙ rw (escape-newline v))

parse_lines-render :
    (n : ℕ) (ps : List (Text × Text))
    → All (λ p. IsIdentifier p.0) ps
    → parse_lines n (split b'\n' (render ps)) ≡ (numbered n ps, [])
unfolding render parse_lines
parse_lines-render n [] h = unfold split clean is_skipped trim_space trim_left trim_right in refl
parse_lines-render n ((k, v) ∷ ps) h =
    rw (split-append b'\n' (line_of k v) (render ps) (line_of-newline k v h.0)) (
      rw (
        clean-line_of k v h.0,
        is_skipped-line_of k v h.0,
        parse_entry-line_of k v h.0 n,
        parse_lines-render (n + 1) ps h.1,
      ))

-- `Parse` reads back, with no error, any list of pairs whose keys are POSIX names and whose
-- values are any texts, written as lines `KEY="value"` with the value escaped. The pairs come in
-- the order and with the numbers of their lines.
pub parse-render :
    (ps : List (Text × Text))
    → All (λ p. IsIdentifier p.0) ps
    → parse (render ps) ≡ (numbered 1 ps, [])
unfolding parse
parse-render ps h = parse_lines-render 1 ps h
