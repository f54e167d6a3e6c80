-- ===== src/Agent/Resolver.antt =====
-- internal/agent/resolver.go: BuildResolver and the fetching of variables. The registry's Build is a
-- function of the type, the parameters and the bags, which it is given by SetBags; `none` is an
-- error. A Go map is an association list without a repeated key.
pub mod Values
pub mod Configured
pub mod Unmapped
use jitenv.Base.{
  Bool, true, false, not, Option, none, some, List, [], ◌∷◌, if◌then◌else◌, Result, ok, err, ◌>>=◌,
  Text, is_empty, Assoc, lookup, insert,
}
use jitenv.Crypto.Values.{Fields}
use jitenv.Config.{VarRef, SourceConfig, Config}
use jitenv.Config.Index.{
  Host, Index, mapped, cwd_commands, new_index, lookup_path, lookup_cwd, abs_or,
}
use jitenv.Paths.{abs}
use jitenv.Agent.Source.{FetchError, SecretRef, Source}

pub data ResolveError : Type 0 where
  not_configured : Text → Text → ResolveError
  fetch_failed : Text → FetchError → ResolveError
  no_key not_one_entry : Text → ResolveError

pub record Resolver : Type 0 where
  pub index : Index
  pub sources : Assoc Source

abbrev pub Build : Type 0
Build = Text → Fields → Assoc (Assoc Text) → Option Source

abbrev pub built : Text → Option Source → Option (Assoc Source) → Option (Assoc Source)
built name (some s) (some rest) = some ((name, s) ∷ rest)
built name _ _ = none

unfoldable pub build_sources :
    Build → Assoc (Assoc Text) → Assoc SourceConfig → Option (Assoc Source)
build_sources build bags [] = some []
build_sources build bags ((name, sc) ∷ rest) =
    built name (build sc.type sc.params bags) (build_sources build bags rest)

abbrev pub with_index : Index → Option (Assoc Source) → Option Resolver
with_index idx none = none
with_index idx (some ss) = some (record { index = idx; sources = ss })

-- BuildResolver
unfoldable pub build_resolver : Host → Build → Config → Option Resolver
build_resolver host build cfg =
    with_index (new_index host cfg.mappings) (build_sources build cfg.secrets cfg.sources)

abbrev pub or_no_key : Text → Option Text → Result ResolveError Text
or_no_key name none = err (no_key name)
or_no_key name (some v) = ok v

abbrev pub only : Text → Assoc Text → Result ResolveError Text
only name ((k, v) ∷ []) = ok v
only name _ = err (not_one_entry name)

-- pickValue, for the variable of the name
unfoldable pub pick_value : Text → Assoc Text → Text → Result ResolveError Text
pick_value name m key = if not (is_empty key) then or_no_key name (lookup key m) else only name m

-- every pair of the first map is put in the second
unfoldable pub insert_all : Assoc Text → Assoc Text → Assoc Text
insert_all [] out = out
insert_all ((k, v) ∷ raw) out = insert_all raw (insert k v out)

abbrev pub assign : Assoc Text → VarRef → Assoc Text → Result ResolveError (Assoc Text)
assign out v raw =
    if is_empty v.name
    then ok (insert_all raw out)
    else do val ← pick_value v.name raw v.key; ok (insert v.name val out)

abbrev pub fetched :
    Assoc Text → VarRef → Result FetchError (Assoc Text) → Result ResolveError (Assoc Text)
fetched out v (err e) = err (fetch_failed v.name e)
fetched out v (ok raw) = assign out v raw

abbrev pub from_source : Assoc Text → VarRef → Option Source → Result ResolveError (Assoc Text)
from_source out v none = err (not_configured v.name v.source)
from_source out v (some s) =
    fetched out v (s.fetch (record { id = v.ref; key = v.key; extra = v.extra }))

-- the body of the loop of fetchVars
unfoldable pub fetch_var : Assoc Source → Assoc Text → VarRef → Result ResolveError (Assoc Text)
fetch_var sources out v =
    if not (is_empty v.value)
    then ok (insert v.name v.value out)
    else from_source out v (lookup v.source sources)

-- `fetchVars`, from `out` on
unfoldable pub fetch_vars :
    Assoc Source → Assoc Text → List VarRef → Result ResolveError (Assoc Text)
fetch_vars sources out [] = ok out
fetch_vars sources out (v ∷ vs) = do next ← fetch_var sources out v; fetch_vars sources next vs

abbrev pub or_path : Text → Option Text → Text
or_path p none = p
or_path p (some q) = q

-- FetchEnv
unfoldable pub fetch_env : Host → Resolver → Text → Result ResolveError (Assoc Text)
fetch_env host r p = fetch_vars r.sources [] (lookup_path host r.index (or_path p (abs host.wd p)))

-- FetchEnvCwd
pub fetch_env_cwd : Host → Resolver → Text → Text → Result ResolveError (Assoc Text)
fetch_env_cwd host r pwd command = fetch_vars r.sources [] (lookup_cwd host r.index pwd command)

-- IsMapped
unfoldable pub is_mapped : Host → Resolver → Text → Bool
is_mapped host r p = mapped host r.index (or_path p (abs host.wd p))

-- CwdCommands of the resolver
unfoldable pub wrapped_commands : Host → Resolver → Text → List Text
wrapped_commands host r pwd = cwd_commands host r.index pwd
