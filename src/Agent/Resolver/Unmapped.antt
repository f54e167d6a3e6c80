-- ===== src/Agent/Resolver/Unmapped.antt =====
-- What the agent answers where it says that nothing is mapped.
use jitenv.Base.{
  false, not, List, [], ok, ◌≡◌, arith, inl, inr, Text, is_empty, contains_text, Bool-cases, Assoc,
}
use jitenv.Config.{VarRef}
use jitenv.Config.Index.{Host, lookup_cwd, mapped_cwd, cwd_commands}
use jitenv.Config.Index.Mapped.{lookup-mapped}
use jitenv.Config.Index.Commands.{mapped_cwd-contains}
use jitenv.Agent.Source.{Source}
use jitenv.Agent.Resolver.{
  Resolver, fetch_vars, fetch_env, fetch_env_cwd, is_mapped, wrapped_commands,
}

fetch_vars_nothing : (ss : Assoc Source) (vs : List VarRef) → vs ≡ [] → fetch_vars ss [] vs ≡ ok []
unfolding fetch_vars
fetch_vars_nothing ss vs e = rw e

empty_of : (vs : List VarRef) → not (is_empty vs) ≡ false → vs ≡ []
empty_of vs e = ground arith

module _ (host : Host) (r : Resolver) where
  not_mapped_cwd :
      (pwd command : Text)
      → contains_text (cwd_commands host r.index pwd) command ≡ false
      → lookup_cwd host r.index pwd command ≡ []
  unfolding mapped_cwd
  not_mapped_cwd pwd command h = elim (Bool-cases (mapped_cwd host r.index pwd command)) [
    | inl e ↦ absurd (cc (h, mapped_cwd-contains host r.index pwd command e))
    | inr e ↦ empty_of _ e
  ]

  -- A path for which IsMapped says no, and a command that is not among the CwdCommands of the
  -- directory, get the empty environment without an error, whatever the sources.
  pub fetch_env-unmapped :
      (p pwd command : Text)
      → is_mapped host r p ≡ false
      → contains_text (wrapped_commands host r pwd) command ≡ false
      → (fetch_env host r p ≡ ok []) × (fetch_env_cwd host r pwd command ≡ ok [])
  unfolding is_mapped wrapped_commands fetch_env fetch_env_cwd
  fetch_env-unmapped p pwd command h k = (
    fetch_vars_nothing r.sources _ (lookup-mapped host r.index _ h),
    fetch_vars_nothing r.sources _ (not_mapped_cwd pwd command k),
  )
