-- ===== src/Config/Index/Lookups.antt =====
-- The index answers as a scan of the list of mappings would.
use jitenv.Base.{
  Bool, not, ◌&&◌, List, [], ◌∷◌, ◌++◌, if◌then◌else◌, ◌≡◌, ◌∙◌, inl, inr, refl, sym, ap, arith,
  Text, same, contains_text, is_empty, Bool-cases, append_assoc, append-nil, lookup, lookup-insert,
  same_iff, any, All,
}
use jitenv.Paths.Segments.{IsSegment, path_of}
use jitenv.Config.{VarRef, Mapping}
use jitenv.Config.Index.{
  Host, Index, GlobEntry, CwdGlobEntry, is_match, or_nil, abs_or, normalise_pattern, add_mapping,
  add_mappings, new_index, glob_vars, lookup_path, match_ancestor, cwd_vars, lookup_cwd,
}
use jitenv.Config.Index.Ancestors.{inits, match_ancestor-any}

-- The variables of the mappings for which the test holds, in the order of the mappings.
abbrev pub vars_where : (Mapping → Bool) → List Mapping → List VarRef
vars_where test [] = []
vars_where test (m ∷ ms) = (if test m then m.vars else []) ++ vars_where test ms

module _ (host : Host) where
  -- `m` is a path mapping for `p`; a glob mapping that matches `p`; a cwd_glob mapping that
  -- wraps the command at `p` or below.
  abbrev pub is_exact : Text → Mapping → Bool
  is_exact p m = not (is_empty m.path) && same (abs_or host m.path) p

  abbrev pub is_globbed : Text → Mapping → Bool
  is_globbed p m =
      is_empty m.path
      && (not (is_empty m.glob) && is_match (host.glob_match (normalise_pattern host m.glob) p))

  abbrev pub is_wrapped : Text → Text → Mapping → Bool
  is_wrapped p command m =
      (is_empty m.path && (is_empty m.glob && not (is_empty m.cwd_glob)))
      && (contains_text m.commands command
          && match_ancestor host (normalise_pattern host m.cwd_glob) p)

  glob_vars-append :
      (p : Text) (gs hs : List GlobEntry)
      → glob_vars host p (gs ++ hs) ≡ glob_vars host p gs ++ glob_vars host p hs
  unfolding glob_vars
  glob_vars-append p [] hs = refl
  glob_vars-append p (g ∷ gs) hs =
      rw (glob_vars-append p gs hs)
        (sym (append_assoc _ (glob_vars host p gs) (glob_vars host p hs)))

  cwd_vars-append :
      (p c : Text) (gs hs : List CwdGlobEntry)
      → cwd_vars host p c (gs ++ hs) ≡ cwd_vars host p c gs ++ cwd_vars host p c hs
  unfolding cwd_vars
  cwd_vars-append p c [] hs = refl
  cwd_vars-append p c (g ∷ gs) hs =
      rw (cwd_vars-append p c gs hs)
        (sym (append_assoc _ (cwd_vars host p c gs) (cwd_vars host p c hs)))

  -- One mapping adds its variables behind those of the mappings before it.
  exact-add :
      (p : Text) (m : Mapping) (idx : Index)
      → or_nil (lookup p (add_mapping host m idx).exact)
        ≡ or_nil (lookup p idx.exact) ++ (if is_exact p m then m.vars else [])
  unfolding add_mapping
  exact-add p m idx = elim (Bool-cases (is_empty m.path)) [
    | inr e ↦ rw e (
        rw lookup-insert (
          ground
            (arith, same_iff (abs_or host m.path) p, append-nil (or_nil (lookup p idx.exact)))))
    | inl e ↦ rw e (ground (arith, append-nil (or_nil (lookup p idx.exact))))
  ]

  globs-add :
      (p : Text) (m : Mapping) (idx : Index)
      → glob_vars host p (add_mapping host m idx).globs
        ≡ glob_vars host p idx.globs ++ (if is_globbed p m then m.vars else [])
  unfolding add_mapping
  globs-add p m idx = elim (Bool-cases (is_empty m.path)) [
    | inr e ↦ rw e (sym (append-nil _))
    | inl e ↦ rw e (elim (Bool-cases (is_empty m.glob)) [
      | inr d ↦
          rw (d, glob_vars-append p idx.globs _)
            (unfold glob_vars in ap (λ t. glob_vars host p idx.globs ++ t) (append-nil _))
      | inl d ↦ rw d (ground (arith, append-nil (glob_vars host p idx.globs)))
    ])
  ]

  cwd-add :
      (p c : Text) (m : Mapping) (idx : Index)
      → cwd_vars host p c (add_mapping host m idx).cwd_globs
        ≡ cwd_vars host p c idx.cwd_globs ++ (if is_wrapped p c m then m.vars else [])
  unfolding add_mapping
  cwd-add p c m idx = elim (Bool-cases (is_empty m.path)) [
    | inr e ↦ rw e (sym (append-nil _))
    | inl e ↦ rw e (elim (Bool-cases (is_empty m.glob)) [
      | inr d ↦ rw d (sym (append-nil _))
      | inl d ↦ rw d (elim (Bool-cases (is_empty m.cwd_glob)) [
        | inl b ↦ rw b (sym (append-nil _))
        | inr b ↦
            rw (b, cwd_vars-append p c idx.cwd_globs _)
              (unfold cwd_vars in ap (λ t. cwd_vars host p c idx.cwd_globs ++ t) (append-nil _))
      ])
    ])
  ]

  cwd-adds :
      (p c : Text) (ms : List Mapping) (idx : Index)
      → cwd_vars host p c (add_mappings host idx ms).cwd_globs
        ≡ cwd_vars host p c idx.cwd_globs ++ vars_where (is_wrapped p c) ms
  unfolding add_mappings
  cwd-adds p c [] idx = sym (append-nil _)
  cwd-adds p c (m ∷ ms) idx =
      cwd-adds p c ms (add_mapping host m idx)
      ∙ rw (cwd-add p c m idx) (append_assoc (cwd_vars host p c idx.cwd_globs) _ _)

  pub lookup_cwd-new_index :
      (ms : List Mapping) (pwd command : Text)
      → lookup_cwd host (new_index host ms) pwd command
        ≡ vars_where (is_wrapped (abs_or host pwd) command) ms
  unfolding lookup_cwd new_index
  lookup_cwd-new_index ms pwd command =
      rw (cwd-adds (abs_or host pwd) command ms _) (unfold cwd_vars in refl)

  -- `m` is a cwd_glob mapping that lists the command and matches the directory with these elements or
  -- a directory above it.
  abbrev pub is_wrapped_in : List Text → Text → Mapping → Bool
  is_wrapped_in ws command m =
      (is_empty m.path && (is_empty m.glob && not (is_empty m.cwd_glob)))
      && (contains_text m.commands command
          && any (λ us. is_match (host.glob_match (normalise_pattern host m.cwd_glob) (path_of us)))
              (inits ws))

  wrapped_vars :
      (ms : List Mapping) (ws : List Text) (command : Text)
      → All IsSegment ws
      → vars_where (is_wrapped (path_of ws) command) ms ≡ vars_where (is_wrapped_in ws command) ms
  wrapped_vars [] ws command h = refl
  wrapped_vars (m ∷ ms) ws command h = rw (
    match_ancestor-any host (normalise_pattern host m.cwd_glob) ws h,
    wrapped_vars ms ws command h,
  )

  -- In a directory whose absolute path is canonical, `LookupCwd` gives the variables of the cwd_glob
  -- mappings that list the command and whose pattern matches that directory or one of its
  -- ancestors up to the root, in the order of the mappings.
  pub lookup_cwd-ancestors :
      (ms : List Mapping) (pwd command : Text) (ws : List Text)
      → All IsSegment ws
      → abs_or host pwd ≡ path_of ws
      → lookup_cwd host (new_index host ms) pwd command ≡ vars_where (is_wrapped_in ws command) ms
  lookup_cwd-ancestors ms pwd command ws h at =
      lookup_cwd-new_index ms pwd command
      ∙ ap (λ p. vars_where (is_wrapped p command) ms) at
      ∙ wrapped_vars ms ws command h

  exact-adds :
      (p : Text) (ms : List Mapping) (idx : Index)
      → or_nil (lookup p (add_mappings host idx ms).exact)
        ≡ or_nil (lookup p idx.exact) ++ vars_where (is_exact p) ms
  unfolding add_mappings
  exact-adds p [] idx = sym (append-nil _)
  exact-adds p (m ∷ ms) idx =
      exact-adds p ms (add_mapping host m idx)
      ∙ rw (exact-add p m idx) (append_assoc (or_nil (lookup p idx.exact)) _ _)

  globs-adds :
      (p : Text) (ms : List Mapping) (idx : Index)
      → glob_vars host p (add_mappings host idx ms).globs
        ≡ glob_vars host p idx.globs ++ vars_where (is_globbed p) ms
  unfolding add_mappings
  globs-adds p [] idx = sym (append-nil _)
  globs-adds p (m ∷ ms) idx =
      globs-adds p ms (add_mapping host m idx)
      ∙ rw (globs-add p m idx) (append_assoc (glob_vars host p idx.globs) _ _)

  -- `Lookup` gives the variables of the path mappings for the path, in their order, then those of
  -- the glob mappings that match it, in theirs.
  pub lookup-new_index :
      (ms : List Mapping) (p : Text)
      → lookup_path host (new_index host ms) p
        ≡ vars_where (is_exact p) ms ++ vars_where (is_globbed p) ms
  unfolding lookup_path new_index
  lookup-new_index ms p =
      rw (exact-adds p ms _, globs-adds p ms _) (unfold lookup glob_vars in refl)
