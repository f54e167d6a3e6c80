-- ===== src/Config/Validate.antt =====
-- internal/config/config.go: `ValidateStructure`, `ValidatePost` and `Validate`. `none` is the nil
-- error; of an error the model keeps which check failed and where, not the message.
pub mod Spec
mod Tests
use jitenv.Base.{
  ℕ, ◌+◌, Bool, true, false, not, ◌&&◌, ◌||◌, Option, none, some, List, [], ◌∷◌, leb, ◌==◌,
  if◌then◌else◌, Text, codes, same, is_empty, Assoc, lookup,
}
use jitenv.Config.{VarRef, Mapping, SourceConfig, Config}

pub data Problem : Type 0 where
  wrong_version : ℕ → Problem
  missing_type removed_type : Text → Problem
  not_one_kind stray_commands no_commands no_vars : ℕ → Problem
  empty_command bad_command : ℕ → ℕ → Problem
  not_exclusive literal_name no_source key_name undefined_source : ℕ → ℕ → Problem

abbrev pub schema_version : ℕ
schema_version = 1

-- the first of two checks that fails
abbrev pub first : Option Problem → Option Problem → Option Problem
first none next = next
first (some e) next = some e

abbrev pub is_command_char : ℕ → Bool
is_command_char c =
    leb b'a' c && leb c b'z'
    || leb b'A' c && leb c b'Z'
    || leb b'0' c && leb c b'9'
    || (c == b'.' || c == b'_' || c == b'-' || c == b'+')

pub command_chars : Text → Bool
command_chars [] = true
command_chars (c ∷ cs) = is_command_char c && command_chars cs

pub is_valid_command_name : Text → Bool
is_valid_command_name s = not (is_empty s) && command_chars s

pub check_sources : Assoc SourceConfig → Option Problem
check_sources [] = none
check_sources ((name, s) ∷ rest) =
    if is_empty s.type
    then some (missing_type name)
    else if same s.type (codes "github")
    then some (removed_type name)
    else check_sources rest

pub check_commands : ℕ → ℕ → List Text → Option Problem
check_commands i j [] = none
check_commands i j (c ∷ cs) =
    if is_empty c
    then some (empty_command i j)
    else if not (is_valid_command_name c)
    then some (bad_command i j)
    else check_commands i (j + 1) cs

pub check_var : ℕ → ℕ → VarRef → Option Problem
check_var i j v =
    if not (is_empty v.value)
    then (if not (is_empty v.source)
          || not (is_empty v.ref)
          || not (is_empty v.key)
          || not (is_empty v.extra)
        then some (not_exclusive i j)
        else if is_empty v.name
        then some (literal_name i j)
        else none)
    else if is_empty v.source
    then some (no_source i j)
    else if is_empty v.name && not (is_empty v.key)
    then some (key_name i j)
    else none

pub check_vars : ℕ → ℕ → List VarRef → Option Problem
check_vars i j [] = none
check_vars i j (v ∷ vs) = first (check_var i j v) (check_vars i (j + 1) vs)

abbrev count_one : Text → ℕ
count_one s = if is_empty s then 0 else 1

pub check_cwd : ℕ → Mapping → Option Problem
check_cwd i m =
    if not (is_empty m.cwd_glob)
    then (if is_empty m.commands then some (no_commands i) else check_commands i 0 m.commands)
    else none

pub check_mapping : ℕ → Mapping → Option Problem
check_mapping i m =
    let set = count_one m.path + count_one m.glob + count_one m.cwd_glob in
    if not (set == 1)
    then some (not_one_kind i)
    else if is_empty m.cwd_glob && not (is_empty m.commands)
    then some (stray_commands i)
    else first (check_cwd i m) (if is_empty m.vars then some (no_vars i) else check_vars i 0 m.vars)

pub check_mappings : ℕ → List Mapping → Option Problem
check_mappings i [] = none
check_mappings i (m ∷ ms) = first (check_mapping i m) (check_mappings (i + 1) ms)

pub validate_structure : Config → Option Problem
validate_structure c =
    if not (c.version == schema_version)
    then some (wrong_version c.version)
    else first (check_sources c.sources) (check_mappings 0 c.mappings)

abbrev pub is_defined : Option SourceConfig → Bool
is_defined none = false
is_defined (some s) = true

pub post_vars : Assoc SourceConfig → ℕ → ℕ → List VarRef → Option Problem
post_vars sources i j [] = none
post_vars sources i j (v ∷ vs) =
    if not (is_empty v.value) || is_defined (lookup v.source sources)
    then post_vars sources i (j + 1) vs
    else some (undefined_source i j)

pub post_mappings : Assoc SourceConfig → ℕ → List Mapping → Option Problem
post_mappings sources i [] = none
post_mappings sources i (m ∷ ms) =
    first (post_vars sources i 0 m.vars) (post_mappings sources (i + 1) ms)

pub validate_post : Config → Option Problem
validate_post c = post_mappings c.sources 0 c.mappings

unfoldable pub validate : Config → Option Problem
unfolding validate_structure validate_post
validate c = first (validate_structure c) (validate_post c)
