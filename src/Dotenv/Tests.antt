-- ===== src/Dotenv/Tests.antt =====
-- Runs of the parser, and its theorems at concrete inputs.
use jitenv.Base.{
  List, [], ◌∷◌, map, ◌≡◌, refl, arith, Text, codes, split, All, trim_left, trim_right, trim_space,
  index, has_prefix,
}
use jitenv.Dotenv.{
  no_separator, empty_key, invalid_key, unterminated_double, parse, clean, is_skipped,
}
use jitenv.Dotenv.Keys.{IsIdentifier, parse-IsIdentifier}
use jitenv.Dotenv.Lines.{Interleaves, significant, parse-accounts}
use jitenv.Dotenv.RoundTrip.{render, numbered, parse-render}

abbrev block : Text
block =
    codes
      "# demo\n\nexport A=1\n _b = \"x\\ty\" # c\nC='q # r'\nexported=v # note\n=x\n1A=2\nD\nE=\"z"

parse-block : parse block ≡ (
  record { key = codes "A"; value = codes "1"; line = 3 }
      ∷ record { key = codes "_b"; value = codes "x\ty"; line = 4 }
      ∷ record { key = codes "C"; value = codes "q # r"; line = 5 }
      ∷ record { key = codes "exported"; value = codes "v"; line = 6 }
      ∷ [],
  record { line = 7; why = empty_key }
      ∷ record { line = 8; why = invalid_key (codes "1A") }
      ∷ record { line = 9; why = no_separator }
      ∷ record { line = 10; why = unterminated_double }
      ∷ [],
)
unfolding parse split clean is_skipped trim_left trim_right trim_space index has_prefix
parse-block = refl

parse-IsIdentifier_example : All (λ p. IsIdentifier p.key) (parse block).0
parse-IsIdentifier_example = parse-IsIdentifier block

parse-accounts_example :
    Interleaves
      (map (λ p. p.line) (parse block).0)
      (map (λ e. e.line) (parse block).1)
      (significant 1 (split b'\n' block))
parse-accounts_example = parse-accounts block

abbrev secrets : List (Text × Text)
secrets = (codes "TOKEN", codes "a\"b\\c\nd #e") ∷ (codes "export", codes "") ∷ []

parse-render_example : parse (render secrets) ≡ (numbered 1 secrets, [])
parse-render_example = parse-render secrets (ground arith)
