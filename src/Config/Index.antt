-- ===== src/Config/Index.antt =====
-- internal/config/mapping.go: the index of mappings by path, glob and cwd_glob.
-- What the code asks of the operating system and of github.com/bmatcuk/doublestar is a `Host`.
-- ToSlash does nothing on Unix and is left out.
pub mod Ancestors
pub mod Lookups
pub mod Mapped
pub mod Commands
pub mod Anchors
mod Tests
use jitenv.Base.{
  ℕ, zero, suc, ◌+◌, Bool, true, false, not, ◌&&◌, ◌||◌, Option, none, some, List, [], ◌∷◌, ◌++◌,
  ltb, ◌==◌, if◌then◌else◌, Text, codes, same, contains_text, is_empty, length, drop, trim_right,
  has_prefix, Assoc, lookup, insert, sort,
}
use jitenv.Config.{VarRef, Mapping}
use jitenv.Paths.{is_slash, dir, join_path, abs}

pub record Host : Type 0 where
  -- os.UserHomeDir and os.Getwd; `none` is an error
  pub home : Option Text
  pub wd : Option Text
  -- doublestar.Match(pattern, name); `none` is an error
  pub glob_match : Text → Text → Option Bool

pub record GlobEntry : Type 0 where
  pub pattern : Text
  pub vars : List VarRef

pub record CwdGlobEntry : Type 0 where
  pub pattern : Text
  pub commands : List Text
  pub vars : List VarRef

pub record Index : Type 0 where
  pub exact : Assoc (List VarRef)
  pub globs : List GlobEntry
  pub cwd_globs : List CwdGlobEntry

-- `ok, err := …; err == nil && ok`
abbrev pub is_match : Option Bool → Bool
is_match none = false
is_match (some b) = b

abbrev or_text : Text → Option Text → Text
or_text p none = p
or_text p (some a) = a

abbrev pub or_nil : Option (List VarRef) → List VarRef
or_nil none = []
or_nil (some vs) = vs

-- `p` is what follows the tilde
abbrev expand_in : Text → Text → Text
expand_in [] p = codes "~" ++ p
expand_in (h ∷ hs) p =
    if is_empty p
    then h ∷ hs
    else if has_prefix p (codes "/")
    then join_path (h ∷ hs) (drop 1 p)
    else codes "~" ++ p

-- `os.UserHomeDir` failed, or gave ""
abbrev or_home : Option Text → Text
or_home none = []
or_home (some h) = h

-- the inner loop of CwdCommands; `out` holds what `seen` does
unfoldable pub add_commands : List Text → List Text → List Text
add_commands out [] = out
add_commands out (c ∷ cs) = add_commands (if contains_text out c then out else out ++ c ∷ []) cs

module _ (host : Host) where
  unfoldable pub expand_tilde : Text → Text
  expand_tilde [] = []
  expand_tilde (c ∷ p) = if c == b'~' then expand_in (or_home host.home) p else c ∷ p

  unfoldable pub normalise_pattern : Text → Text
  normalise_pattern p =
      let s = expand_tilde p in if ltb 1 (length s) then trim_right is_slash s else s

  -- filepath.Abs(expandTilde(p)), or p itself after an error
  unfoldable pub abs_or : Text → Text
  abs_or p = or_text p (abs host.wd (expand_tilde p))

  unfoldable pub add_mapping : Mapping → Index → Index
  add_mapping m idx =
      if not (is_empty m.path)
      then record idx {
        exact =
            insert (abs_or m.path) (or_nil (lookup (abs_or m.path) idx.exact) ++ m.vars) idx.exact;
      }
      else if not (is_empty m.glob)
      then record idx {
        globs = idx.globs ++ record { pattern = normalise_pattern m.glob; vars = m.vars } ∷ [];
      }
      else if not (is_empty m.cwd_glob)
      then record idx {
        cwd_globs =
            idx.cwd_globs
            ++ record {
              pattern = normalise_pattern m.cwd_glob;
              commands = m.commands;
              vars = m.vars;
            }
              ∷ [];
      }
      else idx

  unfoldable pub add_mappings : Index → List Mapping → Index
  add_mappings idx [] = idx
  add_mappings idx (m ∷ ms) = add_mappings (add_mapping m idx) ms

  unfoldable pub new_index : List Mapping → Index
  new_index ms = add_mappings (record { exact = []; globs = []; cwd_globs = [] }) ms

  unfoldable pub glob_vars : Text → List GlobEntry → List VarRef
  glob_vars p [] = []
  glob_vars p (g ∷ gs) =
      (if is_match (host.glob_match g.pattern p) then g.vars else []) ++ glob_vars p gs

  -- Index.Lookup
  unfoldable pub lookup_path : Index → Text → List VarRef
  lookup_path idx p = or_nil (lookup p idx.exact) ++ glob_vars p idx.globs

  unfoldable pub any_glob : Text → List GlobEntry → Bool
  any_glob p [] = false
  any_glob p (g ∷ gs) = is_match (host.glob_match g.pattern p) || any_glob p gs

  -- Index.Mapped
  unfoldable pub mapped : Index → Text → Bool
  mapped idx p = elim (lookup p idx.exact) [ some vs ↦ true | none ↦ any_glob p idx.globs ]

  -- The loop of matchAncestor from `cur`; `none` when the fuel runs out.
  unfoldable pub ancestor_loop : ℕ → Text → Text → Option Bool
  ancestor_loop zero pattern cur = none
  ancestor_loop (suc f) pattern cur =
      let up = ancestor_loop f pattern (dir cur) in
      if is_match (host.glob_match pattern cur)
      then some true
      else if same (dir cur) cur
      then some false
      else up

  -- `length p + 2` rounds are enough: see `match_ancestor-total`.
  unfoldable pub match_ancestor : Text → Text → Bool
  match_ancestor pattern p = is_match (ancestor_loop (length p + 2) pattern p)

  pub cwd_vars : Text → Text → List CwdGlobEntry → List VarRef
  cwd_vars p command [] = []
  cwd_vars p command (e ∷ es) =
      (if contains_text e.commands command && match_ancestor e.pattern p then e.vars else [])
      ++ cwd_vars p command es

  -- Index.LookupCwd
  unfoldable pub lookup_cwd : Index → Text → Text → List VarRef
  lookup_cwd idx pwd command = cwd_vars (abs_or pwd) command idx.cwd_globs

  unfoldable pub cwd_commands_loop : Text → List Text → List CwdGlobEntry → List Text
  cwd_commands_loop p out [] = out
  cwd_commands_loop p out (e ∷ es) =
      cwd_commands_loop p (if match_ancestor e.pattern p then add_commands out e.commands else out)
        es

  -- Index.CwdCommands
  unfoldable pub cwd_commands : Index → Text → List Text
  cwd_commands idx pwd = cwd_commands_loop (abs_or pwd) [] idx.cwd_globs

  -- Index.MappedCwd
  unfoldable pub mapped_cwd : Index → Text → Text → Bool
  mapped_cwd idx pwd command = not (is_empty (lookup_cwd idx pwd command))

-- the four characters at which a literal prefix ends
abbrev pub is_meta : ℕ → Bool
is_meta c = c == b'*' || c == b'?' || c == b'[' || c == b'{'

-- `literalPrefix`: the loop, whose builder is the result
pub literal_prefix : Text → Text
literal_prefix [] = []
literal_prefix (c ∷ []) = if is_meta c then [] else c ∷ []
literal_prefix (c ∷ d ∷ p) =
    let escaped = literal_prefix p in
    let plain = literal_prefix (d ∷ p) in
    if c == b'\\' then d ∷ escaped else if is_meta c then [] else c ∷ plain

pub keys : Assoc (List VarRef) → List Text
keys [] = []
keys ((k, vs) ∷ m) = k ∷ keys m

-- the loop over the globs; `out` holds what `seen` does
pub glob_prefixes : List Text → List GlobEntry → List Text
glob_prefixes out [] = out
glob_prefixes out (g ∷ gs) =
    let p = literal_prefix g.pattern in
    glob_prefixes (if contains_text out p then out else out ++ p ∷ []) gs

-- Index.Anchors
unfoldable pub anchors : Index → List Text × List Text
anchors idx = (sort (keys idx.exact), sort (glob_prefixes [] idx.globs))
