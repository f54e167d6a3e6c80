-- ===== src/Agent/Tests.antt =====
-- Runs of the resolver over local bags, and the theorems at concrete inputs.
use jitenv.Base.{
  contains_text, false, if◌then◌else◌, none, some, List, [], ◌∷◌, ok, err, ◌≡◌, ◌≢◌, inl, inr,
  arith, refl, Text, codes, same, is_empty, Assoc, lookup, insert,
}
use jitenv.Crypto.Values.{end}
use jitenv.Config.{VarRef, Mapping, Config}
use jitenv.Paths.{abs}
use jitenv.Config.Index.{any_glob, cwd_commands_loop, cwd_commands, mapped, Host, new_index}
use jitenv.Config.Validate.Spec.{IsValid, validate_iff}
use jitenv.Agent.Source.{
  SecretRef, LocalSource, Source, set_bags, wipe, blanked, fetch, bags_cleared, fetch-wipe,
}
use jitenv.Agent.Resolver.Unmapped.{fetch_env-unmapped}
use jitenv.Agent.Resolver.{
  is_mapped, wrapped_commands, not_configured, not_one_entry, Resolver, Build, build_sources,
  build_resolver, fetch_var, pick_value, insert_all, fetch_vars, fetch_env, fetch_env_cwd,
}
use jitenv.Agent.Resolver.Values.{last_of, all_pairs, lookup-fetch_vars}
use jitenv.Agent.Resolver.Configured.{fetch_env-configured}

abbrev bags : Assoc (Assoc Text)
bags = (codes "b", (codes "K", codes "v") ∷ (codes "L", codes "w") ∷ []) ∷ []

abbrev local : Source
local = record { fetch = λ r. fetch (record { bags = some bags }) r }

abbrev sources : Assoc Source
sources = (codes "bag", local) ∷ []

abbrev var : Text → Text → Text → Text → VarRef
var name source key value = record {
  name = name;
  source = source;
  ref = if is_empty source then [] else codes "b";
  key = key;
  extra = [];
  value = value;
}

abbrev vars : List VarRef
vars =
    var (codes "A") [] [] (codes "1")
    ∷ var [] (codes "bag") [] []
    ∷ var (codes "K") (codes "bag") (codes "L") []
    ∷ []

abbrev env : Assoc Text
env = (codes "A", codes "1") ∷ (codes "K", codes "w") ∷ (codes "L", codes "w") ∷ []

fetch_runs :
    (fetch_vars sources [] vars ≡ ok env)
    × (fetch_vars sources [] (var (codes "A") (codes "bag") [] [] ∷ [])
        ≡ err (not_one_entry (codes "A")))
    × (fetch_vars [] [] vars ≡ err (not_configured [] (codes "bag")))
unfolding fetch_vars fetch_var pick_value insert_all fetch lookup insert same
fetch_runs = (refl, refl, refl)

lookup-fetch_vars_example : lookup (codes "K") env ≡ last_of (codes "K") (all_pairs sources vars)
lookup-fetch_vars_example = lookup-fetch_vars sources vars env fetch_runs.0 (codes "K")

abbrev cleared : LocalSource
cleared = record { bags = none }

abbrev ref : SecretRef
ref = record { id = codes "b"; key = codes "L"; extra = [] }

fetch-wipe_example :
    (fetch (wipe (set_bags (some bags) cleared)).0 ref ≡ err bags_cleared)
    × (fetch (set_bags (some (wipe (set_bags (some bags) cleared)).1) cleared) ref
        ≡ blanked (fetch (set_bags (some bags) cleared) ref))
fetch-wipe_example = fetch-wipe cleared cleared bags ref

abbrev host : Host
host = record { home = none; wd = some (codes "/w"); glob_match = λ p s. some (same p s) }

abbrev build : Build
build = λ type params b. some (record { fetch = λ r. fetch (record { bags = some b }) r })

abbrev mapping : Mapping
mapping = record { path = codes "/x"; glob = []; cwd_glob = []; commands = []; vars = vars }

abbrev config : Config
config = record {
  version = 1;
  sources = (codes "bag", record { type = codes "local"; params = end }) ∷ [];
  mappings = mapping ∷ [];
  secrets = bags;
}

config-IsValid : IsValid config
unfolding lookup same
config-IsValid = record {
  version = refl;
  sources = ((ground arith, ground arith), tt);
  mappings = (
    (
      inl (ground arith, refl, refl, refl),
      ground arith,
      (
        inl (ground arith, refl, refl, refl, refl, ground arith),
        (
          inr (refl, ground arith, inr refl, refl),
          (inr (refl, ground arith, inl (ground arith), refl), tt),
        ),
      ),
    ),
    tt,
  );
}

abbrev resolver : Resolver
resolver = record { index = new_index host config.mappings; sources = sources }

resolver_made : build_resolver host build config ≡ some resolver
unfolding build_resolver build_sources
resolver_made = refl

fetch_env-configured_example :
    (fetch_env host resolver (codes "/x") ≢ err (not_configured (codes "K") (codes "bag")))
    × (fetch_env_cwd host resolver (codes "/w") (codes "npm")
        ≢ err (not_configured (codes "K") (codes "bag")))
fetch_env-configured_example =
    fetch_env-configured host build config resolver ((validate_iff config).1 config-IsValid)
      resolver_made (codes "K") (codes "bag") (codes "/x") (codes "/w") (codes "npm")

abbrev small_resolver : Resolver
small_resolver = record {
  index = record { exact = (codes "/x", vars) ∷ []; globs = []; cwd_globs = [] };
  sources = sources;
}

unmapped_runs :
    (is_mapped host small_resolver (codes "/y") ≡ false)
    × (contains_text (wrapped_commands host small_resolver (codes "/w")) (codes "npm") ≡ false)
unfolding is_mapped wrapped_commands mapped any_glob lookup cwd_commands cwd_commands_loop
    contains_text abs same
unmapped_runs = (refl, refl)

fetch_env-unmapped_example :
    (fetch_env host small_resolver (codes "/y") ≡ ok [])
    × (fetch_env_cwd host small_resolver (codes "/w") (codes "npm") ≡ ok [])
fetch_env-unmapped_example =
    fetch_env-unmapped host small_resolver (codes "/y") (codes "/w") (codes "npm") unmapped_runs.0
      unmapped_runs.1
