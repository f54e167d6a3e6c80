-- ===== src/Config/Validate/Tests.antt =====
-- Runs of the checks, and the characterisation at a concrete configuration.
use jitenv.Base.{true, none, some, List, [], ◌∷◌, ◌≡◌, ◌↔◌, refl, Text, codes, same, lookup}
use jitenv.Config.{VarRef, Mapping, Config}
use jitenv.Config.Validate.{
  not_one_kind, no_commands, bad_command, key_name, undefined_source, command_chars,
  is_valid_command_name, check_sources, check_commands, check_var, check_vars, check_cwd,
  check_mapping, check_mappings, post_vars, post_mappings, validate,
}
use jitenv.Config.Validate.Spec.{IsValid, validate_iff}
use jitenv.Crypto.Values.{end}

abbrev var : Text → Text → VarRef
var name source = record {
  name = name;
  source = source;
  ref = [];
  key = codes "k";
  extra = [];
  value = [];
}

abbrev mapping : Text → Text → List Text → VarRef → Mapping
mapping path cwd cs v = record {
  path = path;
  glob = [];
  cwd_glob = cwd;
  commands = cs;
  vars = v ∷ [];
}

abbrev config : List Mapping → Config
config ms = record {
  version = 1;
  sources = (codes "bag", record { type = codes "local"; params = end }) ∷ [];
  mappings = ms;
  secrets = [];
}

abbrev good : VarRef
good = var (codes "TOKEN") (codes "bag")

validate_runs :
    (validate (config (mapping (codes "/x") [] [] good ∷ [])) ≡ none)
    × (validate (config (mapping (codes "/x") (codes "/y") [] good ∷ [])) ≡ some (not_one_kind 0))
    × (validate (config (mapping [] (codes "/y") [] good ∷ [])) ≡ some (no_commands 0))
    × (validate (config (mapping [] (codes "/y") (codes "npm" ∷ codes "a/b" ∷ []) good ∷ []))
        ≡ some (bad_command 0 1))
    × (validate (config (mapping (codes "/x") [] [] (var [] (codes "bag")) ∷ []))
        ≡ some (key_name 0 0))
    × (validate (config (mapping (codes "/x") [] [] (var (codes "A") (codes "b")) ∷ []))
        ≡ some (undefined_source 0 0))
unfolding validate check_sources check_mappings check_mapping check_cwd check_commands
    is_valid_command_name command_chars check_vars check_var post_mappings post_vars lookup same
validate_runs = (refl, refl, refl, refl, refl, refl)

-- the names of the directory itself and of the one above it
dots_run : (is_valid_command_name (codes ".") ≡ true) × (is_valid_command_name (codes "..") ≡ true)
unfolding is_valid_command_name command_chars
dots_run = (refl, refl)

validate_iff_example :
    (validate (config (mapping (codes "/x") [] [] good ∷ [])) ≡ none)
    ↔ IsValid (config (mapping (codes "/x") [] [] good ∷ []))
validate_iff_example = validate_iff (config (mapping (codes "/x") [] [] good ∷ []))
