-- ===== src/Base/Sort.antt =====
-- sort.Strings: the order of strings and an insertion sort, which gives the one sorted list.
use mathlib.Core.Path.{◌≡◌, refl, ◌∙◌}
use mathlib.Core.Logic.{inl, inr}
use mathlib.Core.Bool.{Bool, true, false, ◌&&◌, ◌||◌}
use mathlib.Core.List.{List, [], ◌∷◌}
use native.Mathlib.Omega.{arith}
use jitenv.Base.Tests.{◌==◌, ltb, if◌then◌else◌, Bool-cases}
use jitenv.Base.Lists.{any}
use jitenv.Base.Strings.{Text, same, same_iff, contains_text}

-- The order by bytes, which for UTF-8 is that by code points.
unfoldable pub text_le : Text → Text → Bool
text_le [] t = true
text_le (c ∷ s) [] = false
text_le (c ∷ s) (d ∷ t) = ltb c d || c == d && text_le s t

unfoldable pub insert_sorted : Text → List Text → List Text
insert_sorted w [] = w ∷ []
insert_sorted w (v ∷ vs) = if text_le w v then w ∷ v ∷ vs else v ∷ insert_sorted w vs

unfoldable pub sort : List Text → List Text
sort [] = []
sort (w ∷ ws) = insert_sorted w (sort ws)

-- Each element is at most the next.
abbrev pub IsSorted : List Text → Type 0
IsSorted [] = Unit
IsSorted (w ∷ []) = Unit
IsSorted (w ∷ v ∷ vs) = (text_le w v ≡ true) × IsSorted (v ∷ vs)

text_le_total : (a b : Text) → text_le a b ≡ false → text_le b a ≡ true
unfolding text_le
text_le_total [] b h = cc
text_le_total (c ∷ a) [] h = refl
text_le_total (c ∷ a) (d ∷ b) h = ground (arith, text_le_total a b)

insert_sorted-IsSorted : (w : Text) (vs : List Text) → IsSorted vs → IsSorted (insert_sorted w vs)
unfolding insert_sorted
insert_sorted-IsSorted w [] h = tt
insert_sorted-IsSorted w (v ∷ []) h = elim (Bool-cases (text_le w v)) [
  | inl e ↦ rw e (e, tt)
  | inr e ↦ rw e (text_le_total w v e, tt)
]
insert_sorted-IsSorted w (v ∷ u ∷ us) h =
    ground (arith, text_le_total w v, insert_sorted-IsSorted w (u ∷ us) h.1)

or_right : (a : Bool) {b c : Bool} → b ≡ c → (a || b) ≡ (a || c)
or_right a e = rw e

pub sort-IsSorted : (ws : List Text) → IsSorted (sort ws)
unfolding sort
sort-IsSorted [] = tt
sort-IsSorted (w ∷ ws) = insert_sorted-IsSorted w (sort ws) (sort-IsSorted ws)

contains-insert_sorted :
    (w : Text) (vs : List Text) (s : Text)
    → contains_text (insert_sorted w vs) s ≡ (same w s || contains_text vs s)
unfolding insert_sorted contains_text
contains-insert_sorted w [] s = refl
contains-insert_sorted w (v ∷ vs) s = ground (arith, contains-insert_sorted w vs s)

pub contains-sort : (ws : List Text) (s : Text) → contains_text (sort ws) s ≡ contains_text ws s
unfolding sort contains_text
contains-sort [] s = refl
contains-sort (w ∷ ws) s =
    contains-insert_sorted w (sort ws) s ∙ or_right (same w s) (contains-sort ws s)

any-insert_sorted :
    (p : Text → Bool) (w : Text) (vs : List Text) → any p (insert_sorted w vs) ≡ (p w || any p vs)
unfolding insert_sorted
any-insert_sorted p w [] = refl
any-insert_sorted p w (v ∷ vs) = ground (arith, any-insert_sorted p w vs)

pub any-sort : (p : Text → Bool) (ws : List Text) → any p (sort ws) ≡ any p ws
unfolding sort
any-sort p [] = refl
any-sort p (w ∷ ws) = any-insert_sorted p w (sort ws) ∙ or_right (p w) (any-sort p ws)

pub any-contains :
    (p : Text → Bool) (ws : List Text) (w : Text)
    → contains_text ws w ≡ true
    → p w ≡ true
    → any p ws ≡ true
unfolding contains_text
any-contains p [] w h k = cc
any-contains p (v ∷ ws) w h k = ground (arith, same_iff v w, any-contains p ws w)
