-- ===== src/Config/Warnings.antt =====
-- internal/config/warnings.go: names that a mapping sets twice.
pub mod First
mod Tests
use jitenv.Base.{
  ℕ, ◌+◌, Bool, true, false, not, ◌&&◌, Option, none, some, List, [], ◌∷◌, ◌++◌, if◌then◌else◌,
  Text, same, is_empty, Assoc, lookup, insert,
}
use jitenv.Config.{VarRef, Mapping, Config}

-- the literal value, or the source by its name
pub data Origin : Type 0 where
  literal : Origin
  source : Text → Origin

-- describeVarSource, less its words
abbrev pub describe_var_source : VarRef → Origin
describe_var_source v = if not (is_empty v.value) then literal else source v.source

-- sameOrigin
abbrev pub same_origin : VarRef → VarRef → Bool
same_origin a b =
    same a.source b.source && same a.ref b.ref && same a.key b.key && same a.value b.value

pub record Warning : Type 0 where
  pub mapping_idx : ℕ
  pub var_idx_a : ℕ
  pub var_idx_b : ℕ
  pub name : Text
  pub effective_source : Origin
  pub shadowed_source : Origin
  pub duplicate : Bool

-- the warning for variable `vi`, whose name variable `fi` declared first
abbrev pub warning : ℕ → ℕ → VarRef → ℕ → VarRef → Warning
warning mi fi f vi v = record {
  mapping_idx = mi;
  var_idx_a = fi;
  var_idx_b = vi;
  name = v.name;
  effective_source = describe_var_source v;
  shadowed_source = describe_var_source f;
  duplicate = same_origin f v;
}

-- the entries of `first`: the index of a variable, with the variable that m.Vars has there
abbrev pub Seen : Type 0
Seen = Assoc (ℕ × VarRef)

abbrev pub seen_with : ℕ → VarRef → Seen → Option (ℕ × VarRef) → Seen
seen_with vi v first none = insert v.name (vi, v) first
seen_with vi v first (some f) = first

abbrev pub warned : ℕ → ℕ → VarRef → Option (ℕ × VarRef) → List Warning
warned mi vi v none = []
warned mi vi v (some (fi, f)) = warning mi fi f vi v ∷ []

-- the loop over the variables of mapping `mi`, from variable `vi` on
unfoldable pub var_warnings : ℕ → ℕ → Seen → List VarRef → List Warning
unfolding lookup insert
var_warnings mi vi first [] = []
var_warnings mi vi first (v ∷ vs) =
    let skipped = var_warnings mi (vi + 1) first vs in
    let later = var_warnings mi (vi + 1) (seen_with vi v first (lookup v.name first)) vs in
    if is_empty v.name then skipped else warned mi vi v (lookup v.name first) ++ later

unfoldable pub mapping_warnings : ℕ → List Mapping → List Warning
unfolding var_warnings
mapping_warnings mi [] = []
mapping_warnings mi (m ∷ ms) = var_warnings mi 0 [] m.vars ++ mapping_warnings (mi + 1) ms

-- Warnings
unfoldable pub warnings : Config → List Warning
unfolding mapping_warnings
warnings c = mapping_warnings 0 c.mappings
