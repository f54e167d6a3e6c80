-- ===== src/Base/TextLaws.antt =====
-- Laws of the text operations.
use Prim.Native.Nat.{ℕ}
use mathlib.Core.Path.{◌≡◌, refl}
use mathlib.Core.Logic.{inl, inr}
use mathlib.Core.Bool.{Bool, true, false, ◌||◌}
use mathlib.Core.List.{List, [], ◌∷◌, ◌++◌}
use native.Mathlib.Omega.{arith}
use jitenv.Base.Tests.{Bool-cases, ◌==◌}
use jitenv.Base.Lists.{All, any, all}
use jitenv.Base.Strings.{Text, contains_text, has_prefix, trim_right, split, cons_first}

cons_first-any :
    (sep c : ℕ) (ws : List Text)
    → (c == sep) ≡ false
    → All (λ w. any (λ d. d == sep) w ≡ false) ws
    → All (λ w. any (λ d. d == sep) w ≡ false) (cons_first c ws)
cons_first-any sep c [] e h = (ground arith, tt)
cons_first-any sep c (w ∷ ws) e h = (ground arith, h.1)

pub has_prefix_split : (s p : Text) → has_prefix s p ≡ true → (r : Text) × (s ≡ p ++ r)
unfolding has_prefix
has_prefix_split s [] h = (s, refl)
has_prefix_split [] (c ∷ p) h = cc
has_prefix_split (d ∷ s) (c ∷ p) h =
    let tail_ok : has_prefix s p ≡ true = ground arith in
    let heads : d ≡ c = ground arith in
    ((has_prefix_split s p tail_ok).0, cc (heads, (has_prefix_split s p tail_ok).1))

-- Nothing is trimmed from a text that neither starts nor ends in the cutset.
pub trim_right-append :
    (p : ℕ → Bool) (xs ys : Text) → trim_right p ys ≡ [] → trim_right p (xs ++ ys) ≡ trim_right p xs
unfolding trim_right
trim_right-append p [] ys h = h
trim_right-append p (c ∷ xs) ys h = ground (arith, trim_right-append p xs ys h)

pub contains_text-append :
    (xs ys : List Text) (s : Text)
    → contains_text (xs ++ ys) s ≡ (contains_text xs s || contains_text ys s)
unfolding contains_text
contains_text-append [] ys s = refl
contains_text-append (x ∷ xs) ys s = ground (arith, contains_text-append xs ys s)

-- The first piece of a text whose front part holds no separator.
pub split-append :
    (sep : ℕ) (w rest : Text)
    → any (λ c. c == sep) w ≡ false
    → split sep (w ++ (sep ∷ rest)) ≡ w ∷ split sep rest
unfolding split
split-append sep [] rest h = ground arith
split-append sep (c ∷ w) rest h = ground (arith, split-append sep w rest)

pub split_none : (sep : ℕ) (w : Text) → any (λ c. c == sep) w ≡ false → split sep w ≡ w ∷ []
unfolding split
split_none sep [] h = refl
split_none sep (c ∷ w) h = ground (arith, split_none sep w)

pub trim_right_kept :
    (p : ℕ → Bool) (s : Text) (c : ℕ) → p c ≡ false → trim_right p (s ++ c ∷ []) ≡ s ++ c ∷ []
unfolding trim_right
trim_right_kept p [] c h = rw h
trim_right_kept p (d ∷ []) c h = rw (trim_right_kept p [] c h)
trim_right_kept p (d ∷ e ∷ s) c h = rw (trim_right_kept p (e ∷ s) c h)

-- A text of characters in the cutset is trimmed away.
pub trim_right-all : (p : ℕ → Bool) (s : Text) → all p s ≡ true → trim_right p s ≡ []
unfolding trim_right
trim_right-all p [] h = refl
trim_right-all p (c ∷ s) h = ground (arith, trim_right-all p s)

-- The pieces of a split hold no separator.
pub split-any : (sep : ℕ) (s : Text) → All (λ w. any (λ c. c == sep) w ≡ false) (split sep s)
unfolding split
split-any sep [] = (refl, tt)
split-any sep (c ∷ s) = elim (Bool-cases (c == sep)) [
  | inl e ↦ rw e (refl, split-any sep s)
  | inr e ↦ rw e (cons_first-any sep c (split sep s) e (split-any sep s))
]
