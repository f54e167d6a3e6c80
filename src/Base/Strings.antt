-- ===== src/Base/Strings.antt =====
-- Go strings by their code points, with the operations of package strings that the code uses.
use Prim.Native.Nat.{ℕ, suc}
use Prim.Native.Char.{code}
use Prim.Native.String.{String}
use mathlib.Core.Path.{◌≡◌, refl}
use mathlib.Core.Logic.{◌↔◌, ◌≢◌}
use mathlib.Core.Bool.{Bool, true, false, ◌&&◌, ◌||◌}
use mathlib.Core.Option
use mathlib.Core.Option.{Option, none, some}
use mathlib.Core.List.{List, [], ◌∷◌, ◌++◌}
use native.Mathlib.Omega.{arith}
use jitenv.Base.Tests.{◌==◌, leb, if◌then◌else◌}
use jitenv.Base.Lists.{is_empty}

abbrev pub Text : Type 0
Text = List ℕ

abbrev pub codes : String → Text
codes String.[] = []
codes (String.◌∷◌ c s) = code c ∷ codes s

-- `==` on strings
unfoldable pub same : Text → Text → Bool
same [] [] = true
same (x ∷ xs) (y ∷ ys) = x == y && same xs ys
same _ _ = false

pub same_iff : (a b : Text) → (same a b ≡ true) ↔ (a ≡ b)
unfolding same
same_iff (x ∷ a) (y ∷ b) = ground (arith, same_iff a b)
same_iff _ _ = ground arith

pub same_refl : (a : Text) → same a a ≡ true
same_refl a = (same_iff a a).1 refl

pub same_of_ne : (a b : Text) → a ≢ b → same a b ≡ false
same_of_ne a b h = ground (arith, same_iff a b)

-- slices.Contains
unfoldable pub contains_text : List Text → Text → Bool
contains_text [] s = false
contains_text (x ∷ xs) s = same x s || contains_text xs s

-- strings.HasPrefix(s, p)
unfoldable pub has_prefix : Text → Text → Bool
has_prefix s [] = true
has_prefix [] (p ∷ ps) = false
has_prefix (c ∷ s) (p ∷ ps) = c == p && has_prefix s ps

-- strings.TrimLeft and strings.TrimRight, with the cutset as a test
unfoldable pub trim_left : (ℕ → Bool) → Text → Text
trim_left p [] = []
trim_left p (c ∷ cs) = if p c then trim_left p cs else c ∷ cs

unfoldable pub trim_right : (ℕ → Bool) → Text → Text
trim_right p [] = []
trim_right p (c ∷ cs) = let rest = trim_right p cs in if is_empty rest && p c then [] else c ∷ rest

-- strings.IndexByte, for an ASCII byte
unfoldable pub index : ℕ → Text → Option ℕ
index b [] = none
index b (c ∷ cs) = if c == b then some 0 else Option.map (λ i. suc i) (index b cs)

-- strings.Split by a one-byte separator
abbrev pub cons_first : ℕ → List Text → List Text
cons_first c [] = (c ∷ []) ∷ []
cons_first c (w ∷ ws) = (c ∷ w) ∷ ws

unfoldable pub split : ℕ → Text → List Text
split sep [] = [] ∷ []
split sep (c ∷ cs) = let rest = split sep cs in if c == sep then [] ∷ rest else cons_first c rest

-- strings.Join by a one-byte separator
unfoldable pub join : ℕ → List Text → Text
join sep [] = []
join sep (w ∷ []) = w
join sep (w ∷ v ∷ ws) = w ++ (sep ∷ join sep (v ∷ ws))

-- unicode.IsSpace
abbrev pub is_space : ℕ → Bool
is_space c =
    leb 9 c && leb c 13
    || c == 32
    || c == 0x85
    || c == 0xa0
    || c == 0x1680
    || leb 0x2000 c && leb c 0x200a
    || c == 0x2028
    || c == 0x2029
    || c == 0x202f
    || c == 0x205f
    || c == 0x3000

-- strings.TrimSpace
unfoldable pub trim_space : Text → Text
trim_space s = trim_left is_space (trim_right is_space s)
