-- ===== src/Config/Validate/Spec.antt =====
-- The configurations that `Validate` accepts, described without it.
use jitenv.Base.{
  ℕ, ◌+◌, true, not, ◌||◌, none, List, [], ◌∷◌, ◌≡◌, ◌≢◌, ◌⊎◌, ◌↔◌, refl, arith, Text, codes,
  same_iff, is_empty, All, Assoc, lookup,
}
use jitenv.Config.{VarRef, Mapping, SourceConfig, Config}
use jitenv.Config.Validate.{
  schema_version, is_command_char, command_chars, is_valid_command_name, check_sources,
  check_commands, check_var, check_vars, check_cwd, check_mapping, check_mappings, is_defined,
  post_vars, post_mappings, validate,
}

abbrev pub IsSource : Text × SourceConfig → Type 0
IsSource p = (p.1.type ≢ []) × (p.1.type ≢ codes "github")

abbrev pub IsCommand : Text → Type 0
IsCommand c = (c ≢ []) × All (λ d. is_command_char d ≡ true) c

-- A named literal with nothing else, or a reference to a source of the configuration, which is
-- named if it picks a key.
abbrev pub IsVar : Assoc SourceConfig → VarRef → Type 0
IsVar sources v =
    ((v.value ≢ [])
      × (v.source ≡ [])
      × (v.ref ≡ [])
      × (v.key ≡ [])
      × (v.extra ≡ [])
      × (v.name ≢ []))
    ⊎ ((v.value ≡ [])
        × (v.source ≢ [])
        × ((v.name ≢ []) ⊎ (v.key ≡ []))
        × (is_defined (lookup v.source sources) ≡ true))

-- Only a path, only a glob, or only a cwd_glob; commands stand with a cwd_glob, and only there.
abbrev pub IsKind : Mapping → Type 0
IsKind m =
    ((m.path ≢ []) × (m.glob ≡ []) × (m.cwd_glob ≡ []) × (m.commands ≡ []))
    ⊎ ((m.path ≡ []) × (m.glob ≢ []) × (m.cwd_glob ≡ []) × (m.commands ≡ []))
    ⊎ ((m.path ≡ [])
        × (m.glob ≡ [])
        × (m.cwd_glob ≢ [])
        × (m.commands ≢ [])
        × All IsCommand m.commands)

abbrev pub IsMapping : Assoc SourceConfig → Mapping → Type 0
IsMapping sources m = IsKind m × (m.vars ≢ []) × All (IsVar sources) m.vars

pub record IsValid (c : Config) : Type 0 where
  pub version : c.version ≡ schema_version
  pub sources : All IsSource c.sources
  pub mappings : All (IsMapping c.sources) c.mappings

command_chars_iff : (s : Text) → (command_chars s ≡ true) ↔ All (λ d. is_command_char d ≡ true) s
unfolding command_chars
command_chars_iff [] = (λ _. tt, λ _. refl)
command_chars_iff (c ∷ s) =
    let ih = command_chars_iff s in
    (λ h. (ground arith, ih.0 (ground arith)), λ h. ground (arith, ih.1 h.1))

check_sources_iff : (ss : Assoc SourceConfig) → (check_sources ss ≡ none) ↔ All IsSource ss
unfolding check_sources
check_sources_iff [] = (λ _. tt, λ _. refl)
check_sources_iff ((n, s) ∷ ss) =
    ground (arith, same_iff s.type (codes "github"), check_sources_iff ss)

is_valid_command_name_iff : (s : Text) → (is_valid_command_name s ≡ true) ↔ IsCommand s
unfolding is_valid_command_name
is_valid_command_name_iff [] = (λ h. cc, λ h. absurd (h.0 refl))
is_valid_command_name_iff (c ∷ s) =
    let ih = command_chars_iff (c ∷ s) in (λ h. (λ e. cc, ih.0 h), λ h. ih.1 h.1)

check_commands_iff : (i j : ℕ) (cs : List Text) → (check_commands i j cs ≡ none) ↔ All IsCommand cs
unfolding check_commands
check_commands_iff i j [] = (λ _. tt, λ _. refl)
check_commands_iff i j (c ∷ cs) =
    let ih = check_commands_iff i (j + 1) cs in
    let one = is_valid_command_name_iff c in
    (λ h. (one.0 (ground arith), ih.0 (ground arith)), λ h. ground (arith, one.1 h.0, ih.1 h.1))

check_var_iff :
    (ss : Assoc SourceConfig) (i j : ℕ) (v : VarRef)
    → ((check_var i j v ≡ none)
        × ((not (is_empty v.value) || is_defined (lookup v.source ss)) ≡ true))
      ↔ IsVar ss v
unfolding check_var
check_var_iff ss i j v = ground arith

check_vars_iff :
    (ss : Assoc SourceConfig) (i j : ℕ) (vs : List VarRef)
    → ((check_vars i j vs ≡ none) × (post_vars ss i j vs ≡ none)) ↔ All (IsVar ss) vs
unfolding check_vars post_vars
check_vars_iff ss i j [] = (λ _. tt, λ _. (refl, refl))
check_vars_iff ss i j (v ∷ vs) =
    let ih = check_vars_iff ss i (j + 1) vs in
    let one = check_var_iff ss i j v in
    (
      λ h. (one.0 (ground arith), ih.0 (ground arith)),
      λ h. let a = one.1 h.0 in let b = ih.1 h.1 in (ground arith, ground arith),
    )

module _ (ss : Assoc SourceConfig) (i : ℕ) (m : Mapping) where
  -- what `check_mapping` leaves to the checks of the commands and the variables
  abbrev Checked : Type 0
  Checked = (check_mapping i m ≡ none) × (post_vars ss i 0 m.vars ≡ none)

  Checked-IsMapping : Checked → IsMapping ss m
  unfolding check_mapping check_cwd
  Checked-IsMapping h =
      let cs = (check_commands_iff i 0 m.commands).0 in
      let vs = (check_vars_iff ss i 0 m.vars).0 in
      (ground arith, ground arith, vs (ground arith, h.1))

  IsMapping-Checked : IsMapping ss m → Checked
  unfolding check_mapping check_cwd
  IsMapping-Checked h =
      let cs = (check_commands_iff i 0 m.commands).1 in
      let vs = (check_vars_iff ss i 0 m.vars).1 h.2 in (ground arith, vs.1)

check_mappings_iff :
    (ss : Assoc SourceConfig) (i : ℕ) (ms : List Mapping)
    → ((check_mappings i ms ≡ none) × (post_mappings ss i ms ≡ none)) ↔ All (IsMapping ss) ms
unfolding check_mappings post_mappings
check_mappings_iff ss i [] = (λ _. tt, λ _. (refl, refl))
check_mappings_iff ss i (m ∷ ms) =
    let ih = check_mappings_iff ss (i + 1) ms in
    (
      λ h. (
        Checked-IsMapping ss i m (ground arith, ground arith),
        ih.0 (ground arith, ground arith),
      ),
      λ h. let a = IsMapping-Checked ss i m h.0 in let b = ih.1 h.1 in (ground arith, ground arith),
    )

-- `Validate` gives no error exactly for the configurations of the schema's version in which every
-- source has a type that is not empty and not the one that was removed ("github"), and every mapping
-- is of one kind, has well-formed commands exactly if it has a cwd_glob, and has at least one
-- variable, each of them a literal or a reference to a defined source, as `IsValid` spells out.
pub validate_iff : (c : Config) → (validate c ≡ none) ↔ IsValid c
unfolding validate
validate_iff c =
    let ss = check_sources_iff c.sources in
    let ms = check_mappings_iff c.sources 0 c.mappings in
    (
      λ h. record {
        version = ground arith;
        sources = ss.0 (ground arith);
        mappings = ms.0 (ground arith, ground arith);
      },
      λ h. let a = ss.1 h.sources in let b = ms.1 h.mappings in ground arith,
    )
