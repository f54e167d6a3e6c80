-- ===== src/Config/Index/Tests.antt =====
-- A host with a small matcher, runs of the index on it, and the theorems at concrete inputs.
use jitenv.Base.{
  ℕ, ◌+◌, Bool, true, false, ◌&&◌, ◌||◌, some, List, [], ◌∷◌, ◌++◌, ◌==◌, ==_iff, if◌then◌else◌,
  ◌≡◌, ◌≢◌, inl, refl, ap, arith, Text, codes, same, contains_text, has_prefix, length, any, All,
  lookup, insert, trim_right, sort, insert_sorted, text_le,
}
use jitenv.Paths.{dir, join_path, abs, clean}
use jitenv.Paths.Segments.{IsSegment, path_of}
use jitenv.Config.{VarRef, Mapping}
use jitenv.Config.Index
use jitenv.Config.Index.{
  Host, is_match, is_meta, expand_tilde, normalise_pattern, abs_or, add_mapping, add_mappings,
  new_index, glob_vars, lookup_path, any_glob, mapped, ancestor_loop, match_ancestor, cwd_vars,
  lookup_cwd, add_commands, cwd_commands_loop, cwd_commands, mapped_cwd, literal_prefix, keys,
  glob_prefixes, anchors,
}
use jitenv.Config.Index.Ancestors.{match_ancestor-total}
use jitenv.Config.Index.Lookups.{
  vars_where, is_exact, is_globbed, is_wrapped_in, lookup-new_index, lookup_cwd-ancestors,
}
use jitenv.Config.Index.Anchors.{LiteralLaws, reaches, mapped-anchors}

-- Literal characters, escapes, and a `*` at the end for any rest.
eat : ℕ → (Text → Bool) → Text → Bool
eat c rest [] = false
eat c rest (d ∷ s) = d == c && rest s

ends : Text → Bool
ends [] = true
ends (c ∷ s) = false

small_match : Text → Text → Bool
small_match [] s = ends s
small_match (c ∷ []) s =
    if c == b'*' then true else if is_meta c || c == b'\\' then false else eat c ends s
small_match (c ∷ d ∷ p) s =
    if c == b'\\'
    then eat d (small_match p) s
    else if is_meta c
    then false
    else eat c (small_match (d ∷ p)) s

abbrev host : Host
host = record {
  home = some (codes "/home/u");
  wd = some (codes "/home/u/w");
  glob_match = λ p s. some (small_match p s);
}

eat-cons :
    (c : ℕ) (rest : Text → Bool) (s : Text)
    → eat c rest s ≡ true
    → (r : Text) × (s ≡ c ∷ r) × (rest r ≡ true)
unfolding eat
eat-cons c rest [] h = cc
eat-cons c rest (d ∷ s) h = (s, ap (λ x. x ∷ s) ((==_iff d c).0 (ground arith)), ground arith)

small_literal :
    (c : ℕ) (p s : Text)
    → is_meta c ≡ false
    → c ≢ b'\\'
    → small_match (c ∷ p) s ≡ true
    → (r : Text) × (s ≡ c ∷ r) × (small_match p r ≡ true)
unfolding small_match
small_literal c [] s n b h = eat-cons c ends s (ground arith)
small_literal c (d ∷ p) s n b h = eat-cons c (small_match (d ∷ p)) s (ground arith)

small_escaped :
    (c : ℕ) (p s : Text)
    → small_match (b'\\' ∷ c ∷ p) s ≡ true
    → (r : Text) × (s ≡ c ∷ r) × (small_match p r ≡ true)
unfolding small_match
small_escaped c p s h = eat-cons c (small_match p) s h

small_laws : LiteralLaws host
small_laws = record {
  literal = λ c p s n b h. inl (small_literal c p s n b h);
  escaped = λ c p s h. inl (small_escaped c p s h);
  dangling = λ s. unfold small_match in refl;
}

abbrev var : VarRef
var = record {
  name = codes "TOKEN";
  source = codes "bag";
  ref = codes "r";
  key = codes "k";
  extra = [];
  value = [];
}

abbrev mapping : Text → Text → Text → List Text → Mapping
mapping p g w cs = record { path = p; glob = g; cwd_glob = w; commands = cs; vars = var ∷ [] }

abbrev mappings : List Mapping
mappings =
    mapping (codes "~/bin/../x") [] [] []
    ∷ mapping [] (codes "/opt/t/*") [] []
    ∷ mapping [] [] (codes "~/w/") (codes "npm" ∷ codes "go" ∷ codes "npm" ∷ [])
    ∷ []

abbrev x_path : Text
x_path = codes "/home/u/x"

run_index :
    (lookup_path host (new_index host mappings) x_path ≡ var ∷ [])
    × (mapped host (new_index host mappings) (codes "/opt/t/a") ≡ true)
    × (mapped host (new_index host mappings) (codes "/opt/a") ≡ false)
    × (cwd_commands host (new_index host mappings) (codes "sub/dir")
        ≡ codes "npm" ∷ codes "go" ∷ [])
    × (mapped_cwd host (new_index host mappings) (codes "~/w/a") (codes "go") ≡ true)
    × (anchors (new_index host mappings) ≡ (x_path ∷ [], codes "/opt/t/" ∷ []))
unfolding new_index add_mappings add_mapping abs_or expand_tilde normalise_pattern lookup_path
    glob_vars any_glob mapped lookup insert small_match eat ends cwd_commands cwd_commands_loop
    add_commands match_ancestor ancestor_loop mapped_cwd lookup_cwd cwd_vars contains_text anchors
    keys glob_prefixes literal_prefix sort insert_sorted text_le join_path abs clean dir has_prefix
    trim_right same
run_index = (refl, refl, refl, refl, refl, refl)

abbrev index : Index.Index
index = new_index host mappings

match_ancestor-total_example :
    (b : Bool) × (ancestor_loop host (length (codes "a/../b") + 2) (codes "a") (codes "a/../b")
      ≡ some b)
    × (match_ancestor host (codes "a") (codes "a/../b") ≡ b)
match_ancestor-total_example = match_ancestor-total host (codes "a") (codes "a/../b")

abbrev elements : List Text
elements = codes "home" ∷ codes "u" ∷ codes "w" ∷ codes "sub" ∷ []

segment :
    (w : Text)
    → same w (codes ".") ≡ false
    → same w (codes "..") ≡ false
    → any (λ c. c == b'/') w ≡ false
    → w ≢ []
    → IsSegment w
segment w d e n h = record { nonempty = ground arith; no_slash = n; ne_dot = d; ne_dot_dot = e }

elements-IsSegment : All IsSegment elements
unfolding same
elements-IsSegment = (
  segment (codes "home") refl refl refl (ground arith),
  (
    segment (codes "u") refl refl refl (ground arith),
    (
      segment (codes "w") refl refl refl (ground arith),
      (segment (codes "sub") refl refl refl (ground arith), tt),
    ),
  ),
)

lookup-new_index_example :
    lookup_path host index x_path
    ≡ vars_where (is_exact host x_path) mappings ++ vars_where (is_globbed host x_path) mappings
lookup-new_index_example = lookup-new_index host mappings x_path

below : abs_or host (codes "sub") ≡ path_of elements
unfolding abs_or abs clean join_path path_of trim_right same expand_tilde
below = refl

lookup_cwd-ancestors_example :
    lookup_cwd host index (codes "sub") (codes "go")
    ≡ vars_where (is_wrapped_in host elements (codes "go")) mappings
lookup_cwd-ancestors_example =
    lookup_cwd-ancestors host mappings (codes "sub") (codes "go") elements elements-IsSegment below

mapped-anchors_example :
    (contains_text (anchors index).0 (codes "/opt/t/a")
      || any (reaches (codes "/opt/t/a")) (anchors index).1)
    ≡ true
mapped-anchors_example = mapped-anchors host small_laws index (codes "/opt/t/a") run_index.1
