-- ===== src/Dotenv/Crlf.antt =====
-- Windows line endings are read as Unix ones.
use jitenv.Base.{
  ℕ, ◌+◌, List, [], ◌∷◌, ◌++◌, ◌≡◌, ◌⊎◌, inl, inr, refl, ap, ◌==◌, if◌then◌else◌, Text, split,
  trim_right, cons_first, Bool-cases, trim_right-append,
}
use jitenv.Dotenv.{parse_lines, clean, parse, is_carriage_return}

-- The text with `\r\n` for every `\n`.
abbrev pub crlf : Text → Text
crlf [] = []
crlf (c ∷ cs) = if c == b'\n' then 13 ∷ b'\n' ∷ crlf cs else c ∷ crlf cs

-- The same lines, but that some end in `\r`.
abbrev SameLines : List Text → List Text → Type 0
SameLines [] [] = Unit
SameLines (a ∷ as') (b ∷ bs) = ((a ≡ b) ⊎ (a ≡ b ++ 13 ∷ [])) × SameLines as' bs
SameLines _ _ = ⊥

SameLines-cons_first :
    (c : ℕ) (xs ys : List Text) → SameLines xs ys → SameLines (cons_first c xs) (cons_first c ys)
SameLines-cons_first c [] [] h = (inl refl, tt)
SameLines-cons_first c (x ∷ xs) (y ∷ ys) (inl e, t) = (inl (ap (λ w. c ∷ w) e), t)
SameLines-cons_first c (x ∷ xs) (y ∷ ys) (inr e, t) = (inr (ap (λ w. c ∷ w) e), t)
SameLines-cons_first c [] (y ∷ ys) h = absurd h
SameLines-cons_first c (x ∷ xs) [] h = absurd h

split-crlf : (s : Text) → SameLines (split b'\n' (crlf s)) (split b'\n' s)
unfolding split
split-crlf [] = (inl refl, tt)
split-crlf (c ∷ cs) = elim (Bool-cases (c == b'\n')) [
  | inl e ↦ rw e (inr refl, split-crlf cs)
  | inr e ↦ rw (e, split) (rw e (SameLines-cons_first c _ _ (split-crlf cs)))
]

clean-crlf : (w : Text) → clean (w ++ 13 ∷ []) ≡ clean w
unfolding clean
clean-crlf w = rw (trim_right-append is_carriage_return w (13 ∷ []) (unfold trim_right in refl))

parse_lines-SameLines :
    (n : ℕ) (xs ys : List Text) → SameLines xs ys → parse_lines n xs ≡ parse_lines n ys
unfolding parse_lines
parse_lines-SameLines n [] [] h = refl
parse_lines-SameLines n (x ∷ xs) (y ∷ ys) (inl e, t) = rw (e, parse_lines-SameLines (n + 1) xs ys t)
parse_lines-SameLines n (x ∷ xs) (y ∷ ys) (inr e, t) =
    rw (e, clean-crlf y, parse_lines-SameLines (n + 1) xs ys t)
parse_lines-SameLines n [] (y ∷ ys) h = absurd h
parse_lines-SameLines n (x ∷ xs) [] h = absurd h

-- `Parse` gives the same pairs and errors when every line break is written `\r\n`.
pub parse-crlf : (input : Text) → parse (crlf input) ≡ parse input
unfolding parse
parse-crlf input = parse_lines-SameLines 1 _ _ (split-crlf input)
