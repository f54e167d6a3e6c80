-- ===== src/Config/Index/Mapped.antt =====
-- `Mapped` against a scan of the mappings, and against `Lookup`.
use jitenv.Base.{
  Bool, true, false, ◌||◌, Option, none, some, List, [], ◌∷◌, ◌++◌, ◌≡◌, ◌∙◌, inl, inr, refl, arith,
  Text, is_empty, Bool-cases, any, lookup, lookup-insert,
}
use jitenv.Config.{VarRef, Mapping}
use jitenv.Config.Index.{
  Host, Index, GlobEntry, add_mapping, add_mappings, new_index, glob_vars, lookup_path, any_glob,
  mapped,
}
use jitenv.Config.Index.Lookups.{is_exact, is_globbed}

abbrev pub is_there : Option (List VarRef) → Bool
is_there none = false
is_there (some vs) = true

module _ (host : Host) where
  any_glob-append :
      (p : Text) (gs hs : List GlobEntry)
      → any_glob host p (gs ++ hs) ≡ (any_glob host p gs || any_glob host p hs)
  unfolding any_glob
  any_glob-append p [] hs = refl
  any_glob-append p (g ∷ gs) hs = ground (arith, any_glob-append p gs hs)

  there-add :
      (p : Text) (m : Mapping) (idx : Index)
      → is_there (lookup p (add_mapping host m idx).exact)
        ≡ (is_there (lookup p idx.exact) || is_exact host p m)
  unfolding add_mapping
  there-add p m idx = elim (Bool-cases (is_empty m.path)) [
    | inr e ↦ rw e (rw lookup-insert (ground arith))
    | inl e ↦ rw e (ground arith)
  ]

  any_glob-add :
      (p : Text) (m : Mapping) (idx : Index)
      → any_glob host p (add_mapping host m idx).globs
        ≡ (any_glob host p idx.globs || is_globbed host p m)
  unfolding add_mapping
  any_glob-add p m idx = elim (Bool-cases (is_empty m.path)) [
    | inr e ↦ rw e (ground arith)
    | inl e ↦ rw e (elim (Bool-cases (is_empty m.glob)) [
      | inr d ↦ rw (d, any_glob-append p idx.globs _) (unfold any_glob in ground arith)
      | inl d ↦ rw d (ground arith)
    ])
  ]

  -- `m` maps the path.
  abbrev pub maps : Text → Mapping → Bool
  maps p m = is_exact host p m || is_globbed host p m

  pub mapped-or :
      (idx : Index) (p : Text)
      → mapped host idx p ≡ (is_there (lookup p idx.exact) || any_glob host p idx.globs)
  unfolding mapped
  mapped-or idx p = ground arith

  mapped-add :
      (p : Text) (m : Mapping) (idx : Index)
      → mapped host (add_mapping host m idx) p ≡ (mapped host idx p || maps p m)
  mapped-add p m idx =
      rw
        (
          mapped-or (add_mapping host m idx) p,
          mapped-or idx p,
          there-add p m idx,
          any_glob-add p m idx,
        )
        (ground arith)

  mapped-adds :
      (p : Text) (ms : List Mapping) (idx : Index)
      → mapped host (add_mappings host idx ms) p ≡ (mapped host idx p || any (maps p) ms)
  unfolding add_mappings
  mapped-adds p [] idx = ground arith
  mapped-adds p (m ∷ ms) idx =
      mapped-adds p ms (add_mapping host m idx) ∙ rw (mapped-add p m idx) (ground arith)

  -- A path is mapped exactly when some path mapping names it or some glob mapping matches it.
  pub mapped-new_index :
      (ms : List Mapping) (p : Text) → mapped host (new_index host ms) p ≡ any (maps p) ms
  unfolding new_index
  mapped-new_index ms p = mapped-adds p ms _ ∙ unfold mapped lookup any_glob in refl

  glob_vars-empty :
      (p : Text) (gs : List GlobEntry) → any_glob host p gs ≡ false → glob_vars host p gs ≡ []
  unfolding any_glob glob_vars
  glob_vars-empty p [] h = refl
  glob_vars-empty p (g ∷ gs) h = ground (arith, glob_vars-empty p gs)

  -- A path that is not mapped has no variables, whatever the index.
  pub lookup-mapped :
      (idx : Index) (p : Text) → mapped host idx p ≡ false → lookup_path host idx p ≡ []
  unfolding mapped lookup_path
  lookup-mapped idx p h = ground (arith, glob_vars-empty p idx.globs)
