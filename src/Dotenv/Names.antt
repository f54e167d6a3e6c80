-- ===== src/Dotenv/Names.antt =====
-- What a name before the first `=` of a line is to the operations of the parser.
use native.Mathlib.Numerals.{add-one}
use jitenv.Base.{
  suc, ◌+◌, is_empty, ℕ, suc, true, false, [], ◌∷◌, ◌++◌, ◌≡◌, inl, inr, refl, ap, arith, ◌==◌,
  Text, none, some, Bool-cases, any, All, length, take, drop, index, has_prefix, trim_left,
  trim_right, trim_space, is_space,
}
use jitenv.Dotenv.{after_export, strip_export, export_prefix}
use jitenv.Dotenv.Keys.{is_name_char, IsIdentifier}

abbrev pub NameText : Text → Type 0
NameText = All (λ c. is_name_char c ≡ true)

pub IsIdentifier-NameText : (k : Text) → IsIdentifier k → NameText k
IsIdentifier-NameText [] h = absurd h
IsIdentifier-NameText (c ∷ cs) h = (ground arith, h.1)

-- What a name character is not.
name_char-space : (c : ℕ) → is_name_char c ≡ true → is_space c ≡ false
name_char-space c h = ground arith

pub index-name : (k rest : Text) → NameText k → index b'=' (k ++ (b'=' ∷ rest)) ≡ some (length k)
unfolding index
index-name [] rest h = refl
index-name (c ∷ k) rest h = ground (arith, index-name k rest h.1)

pub take-length : (k rest : Text) → take (length k) (k ++ rest) ≡ k
take-length [] rest = refl
take-length (c ∷ k) rest = ap (λ w. c ∷ w) (take-length k rest)

drop-suc-length : (k rest : Text) (c : ℕ) → drop (suc (length k)) (k ++ (c ∷ rest)) ≡ rest
drop-suc-length [] rest c = refl
drop-suc-length (d ∷ k) rest c = drop-suc-length k rest c

pub drop-length : (k rest : Text) (c : ℕ) → drop (length k + 1) (k ++ (c ∷ rest)) ≡ rest
drop-length k rest c = rw add-one (drop-suc-length k rest c)

pub newline-name : (k : Text) → NameText k → any (λ d. d == b'\n') k ≡ false
newline-name [] h = refl
newline-name (c ∷ k) h = ground (arith, newline-name k h.1)

pub is_empty-name : (k : Text) → IsIdentifier k → is_empty k ≡ false
is_empty-name [] h = absurd h
is_empty-name (c ∷ k) h = refl

trim_right-name : (k : Text) → NameText k → trim_right is_space k ≡ k
unfolding trim_right
trim_right-name [] h = refl
trim_right-name (c ∷ k) h = rw (trim_right-name k h.1, name_char-space c h.0) (ground arith)

pub trim_space-name : (k : Text) → NameText k → trim_space k ≡ k
unfolding trim_space trim_left
trim_space-name [] h = rw (trim_right-name [] h)
trim_space-name (c ∷ k) h = rw (trim_right-name (c ∷ k) h) (rw (name_char-space c h.0))

-- `export` is no prefix of a line where a name stands before the first `=`.
after_export-name :
    (p k rest : Text)
    → NameText k
    → any (λ c. c == b'=') p ≡ false
    → has_prefix (k ++ (b'=' ∷ rest)) p ≡ true
    → after_export (drop (length p) (k ++ (b'=' ∷ rest))) ≡ none
unfolding after_export has_prefix
after_export-name [] [] rest h e m = refl
after_export-name [] (c ∷ k) rest h e m = ground arith
after_export-name (q ∷ p) [] rest h e m = ground arith
after_export-name (q ∷ p) (c ∷ k) rest h e m =
    after_export-name p k rest h.1 (ground arith) (ground arith)

pub strip_export-name : (k rest : Text) → NameText k → strip_export (k ++ (b'=' ∷ rest)) ≡ none
unfolding strip_export
strip_export-name k rest h = elim (Bool-cases (has_prefix (k ++ (b'=' ∷ rest)) export_prefix)) [
  | inl e ↦ rw e (after_export-name export_prefix k rest h refl e)
  | inr e ↦ rw e
]
