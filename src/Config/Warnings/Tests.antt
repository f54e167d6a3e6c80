-- ===== src/Config/Warnings/Tests.antt =====
-- A run of the warnings, and the theorem at a concrete input.
use jitenv.Base.{false, [], ◌∷◌, ◌≡◌, refl, Text, codes, same, lookup, insert}
use jitenv.Config.{VarRef, Config}
use jitenv.Config.Warnings.{source, warnings, mapping_warnings, var_warnings}
use jitenv.Config.Warnings.First.{all_collisions, warnings-all_collisions}

abbrev var : Text → Text → VarRef
var name from = record { name = name; source = from; ref = []; key = []; extra = []; value = [] }

abbrev config : Config
config = record {
  version = 1;
  sources = [];
  mappings =
      record {
        path = codes "/x";
        glob = [];
        cwd_glob = [];
        commands = [];
        vars =
            var (codes "A") (codes "s")
            ∷ var (codes "B") (codes "s")
            ∷ var (codes "A") (codes "t")
            ∷ [];
      }
      ∷ [];
  secrets = [];
}

warnings_run :
    warnings config
    ≡ record {
      mapping_idx = 0;
      var_idx_a = 0;
      var_idx_b = 2;
      name = codes "A";
      effective_source = source (codes "t");
      shadowed_source = source (codes "s");
      duplicate = false;
    }
      ∷ []
unfolding warnings mapping_warnings var_warnings lookup insert same
warnings_run = refl

warnings-all_collisions_example : warnings config ≡ all_collisions 0 config.mappings
warnings-all_collisions_example = warnings-all_collisions config
