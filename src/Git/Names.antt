-- ===== src/Git/Names.antt =====
-- What a derived name looks like, whatever the URL was.
use jitenv.Base.{
  ℕ, Bool, true, false, not, ◌&&◌, ◌||◌, [], ◌∷◌, map, if◌then◌else◌, ◌≡◌, refl, arith, inl, inr,
  Bool-cases, Text, is_empty, trim_right, split, join,
}
use jitenv.Git.{
  is_kept, sanitize_loop, is_dash, or_repo, sanitize_bag_name, non_empty, last_two, derive_bag_name,
}

-- letters, digits and dashes, with no dash behind a dash; the flag says that a dash stands before
unfoldable pub well_spaced : Bool → Text → Bool
well_spaced dash [] = true
well_spaced dash (c ∷ s) =
    let kept = well_spaced false s in
    let dashed = well_spaced true s in if is_kept c then kept else is_dash c && not dash && dashed

-- the last character is no dash
unfoldable pub ends_kept : Text → Bool
ends_kept [] = true
ends_kept (c ∷ []) = not (is_dash c)
ends_kept (c ∷ d ∷ s) = ends_kept (d ∷ s)

-- A name of letters, digits and single dashes between them.
abbrev pub IsBagName : Text → Type 0
IsBagName t = (is_empty t ≡ false) × (well_spaced true t ≡ true) × (ends_kept t ≡ true)

-- what a character that is not kept leaves
dropped-well_spaced :
    (dash any : Bool) (s : Text)
    → ((d a : Bool) → well_spaced (d || not a) (sanitize_loop d a s) ≡ true)
    → well_spaced
        (dash || not any)
        (if not dash && any then b'-' ∷ sanitize_loop true true s else sanitize_loop dash any s)
      ≡ true
unfolding well_spaced
dropped-well_spaced false true s h = h true true
dropped-well_spaced false false s h = h false false
dropped-well_spaced true any s h = h true any

-- a dash is written only behind a letter or digit
loop-well_spaced :
    (dash any : Bool) (s : Text) → well_spaced (dash || not any) (sanitize_loop dash any s) ≡ true
unfolding well_spaced sanitize_loop
loop-well_spaced dash any [] = refl
loop-well_spaced dash any (c ∷ s) = elim (Bool-cases (is_kept c)) [
  | inl k ↦ rw (k, k) (loop-well_spaced false true s)
  | inr k ↦ rw k (dropped-well_spaced dash any s (λ d a. loop-well_spaced d a s))
]

trim_right-well_spaced :
    (dash : Bool) (s : Text)
    → well_spaced dash s ≡ true
    → well_spaced dash (trim_right is_dash s) ≡ true
unfolding well_spaced trim_right
trim_right-well_spaced dash [] h = refl
trim_right-well_spaced dash (c ∷ s) h =
    ground (arith, trim_right-well_spaced false s, trim_right-well_spaced true s)

trim_right-ends_kept : (s : Text) → ends_kept (trim_right is_dash s) ≡ true
unfolding ends_kept trim_right
trim_right-ends_kept [] = refl
trim_right-ends_kept (c ∷ s) = tail (trim_right is_dash s) (trim_right-ends_kept s)
  where
    tail :
        (t : Text)
        → ends_kept t ≡ true
        → ends_kept (if is_empty t && is_dash c then [] else c ∷ t) ≡ true
    tail [] h = ground arith
    tail (d ∷ t) h = h

or_repo-IsBagName :
    (t : Text) → well_spaced true t ≡ true → ends_kept t ≡ true → IsBagName (or_repo t)
unfolding well_spaced ends_kept
or_repo-IsBagName [] h k = (refl, refl, refl)
or_repo-IsBagName (c ∷ t) h k = (refl, h, k)

sanitize_bag_name-IsBagName : (lower : ℕ → ℕ) (s : Text) → IsBagName (sanitize_bag_name lower s)
unfolding sanitize_bag_name
sanitize_bag_name-IsBagName lower s =
    or_repo-IsBagName (trim_right is_dash (sanitize_loop false false (map lower s)))
      (trim_right-well_spaced true (sanitize_loop false false (map lower s))
        (loop-well_spaced false false (map lower s)))
      (trim_right-ends_kept (sanitize_loop false false (map lower s)))

-- Whatever the path of the clone URL, the name derived from it is not empty, holds lower case letters,
-- digits and dashes only, and no dash at its start, at its end or behind another.
pub derive_bag_name-IsBagName :
    (lower : ℕ → ℕ) (path : Text) → IsBagName (derive_bag_name lower path)
unfolding derive_bag_name well_spaced ends_kept
derive_bag_name-IsBagName lower path = elim (Bool-cases (is_empty (non_empty (split b'/' path)))) [
  | inl e ↦ rw e (refl, refl, refl)
  | inr e ↦
      rw e (sanitize_bag_name-IsBagName lower (join b'-' (last_two (non_empty (split b'/' path)))))
]
