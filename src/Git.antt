-- ===== src/Git.antt =====
-- internal/gitauth/url.go: the name of a bag that is derived from the path of a clone URL. The mapping of
-- strings.ToLower on a character is a parameter.
pub mod Names
mod Tests
use jitenv.Base.{
  ℕ, Bool, true, false, not, ◌&&◌, ◌||◌, List, [], ◌∷◌, ◌++◌, map, reverse, if◌then◌else◌, leb,
  ◌==◌, Text, codes, is_empty, trim_right, split, join, has_prefix, drop,
}

abbrev pub is_kept : ℕ → Bool
is_kept c = leb b'a' c && leb c b'z' || leb b'0' c && leb c b'9'

-- the loop of sanitizeBagName: whether the last character written is a dash, and whether any is written
unfoldable pub sanitize_loop : Bool → Bool → Text → Text
sanitize_loop dash any [] = []
sanitize_loop dash any (c ∷ s) =
    let kept = sanitize_loop false true s in
    let dashed = sanitize_loop true true s in
    let dropped = sanitize_loop dash any s in
    if is_kept c then c ∷ kept else if not dash && any then b'-' ∷ dashed else dropped

abbrev pub is_dash : ℕ → Bool
is_dash c = c == b'-'

abbrev pub or_repo : Text → Text
or_repo out = if is_empty out then codes "repo" else out

-- sanitizeBagName
unfoldable pub sanitize_bag_name : (ℕ → ℕ) → Text → Text
unfolding sanitize_loop trim_right
sanitize_bag_name lower s = or_repo (trim_right is_dash (sanitize_loop false false (map lower s)))

unfoldable pub non_empty : List Text → List Text
non_empty [] = []
non_empty (p ∷ ps) = let rest = non_empty ps in if is_empty p then rest else p ∷ rest

-- strings.TrimSuffix(s, ".git")
abbrev pub trim_git : Text → Text
trim_git s = if has_prefix (reverse s) (codes "tig.") then reverse (drop 4 (reverse s)) else s

-- the last two of the segments, the last without `.git`
unfoldable pub last_two : List Text → List Text
last_two [] = []
last_two (p ∷ []) = trim_git p ∷ []
last_two (p ∷ q ∷ []) = p ∷ trim_git q ∷ []
last_two (p ∷ q ∷ r ∷ ps) = last_two (q ∷ r ∷ ps)

-- deriveBagName, which makes nothing of the host
unfoldable pub derive_bag_name : (ℕ → ℕ) → Text → Text
unfolding non_empty last_two sanitize_bag_name split join
derive_bag_name lower path =
    let parts = non_empty (split b'/' path) in
    if is_empty parts then codes "repo" else sanitize_bag_name lower (join b'-' (last_two parts))
