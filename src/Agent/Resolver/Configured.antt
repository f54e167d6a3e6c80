-- ===== src/Agent/Resolver/Configured.antt =====
-- The resolver of a configuration that Validate accepts has every source that it asks for.
use jitenv.Base.{
  Bool, true, Option, none, some, List, [], ◌∷◌, Result, ok, err, ◌>>=◌, ◌≡◌, ◌≢◌, ◌⊎◌, inl, inr,
  refl, sym, ap, arith, Text, same, is_empty, Assoc, lookup, insert, All, All-append, Bool-cases,
  Option-cases,
}
use jitenv.Config.{VarRef, Mapping, SourceConfig, Config}
use jitenv.Config.Index.{Host, Index, new_index}
use jitenv.Config.Index.Lookups.{vars_where, lookup-new_index, lookup_cwd-new_index}
use jitenv.Config.Validate.{is_defined, validate}
use jitenv.Config.Validate.Spec.{IsVar, IsMapping, validate_iff}
use jitenv.Paths.{abs}
use jitenv.Agent.Source.{FetchError, Source}
use jitenv.Agent.Resolver.{
  or_path, ResolveError, not_configured, Resolver, Build, built, build_sources, with_index,
  build_resolver, pick_value, only, assign, fetched, fetch_var, fetch_vars, fetch_env,
  fetch_env_cwd,
}

-- a literal, or a source that is there
abbrev Resolved : Assoc Source → VarRef → Type 0
Resolved ss v = (v.value ≢ []) ⊎ ((s : Source) × (lookup v.source ss ≡ some s))

built-some :
    (name : Text) (o : Option Source) (rest : Option (Assoc Source)) (ss : Assoc Source)
    → built name o rest ≡ some ss
    → (s : Source) × (ts : Assoc Source) × (rest ≡ some ts) × (ss ≡ (name, s) ∷ ts)
built-some name (some s) (some ts) ss h = (s, ts, refl, cc)
built-some name (some s) none ss h = absurd cc
built-some name none (some ts) ss h = absurd cc
built-some name none none ss h = absurd cc

build_sources-defined :
    (build : Build) (bags : Assoc (Assoc Text)) (cs : Assoc SourceConfig) (ss : Assoc Source)
    (name : Text)
    → build_sources build bags cs ≡ some ss
    → is_defined (lookup name cs) ≡ true
    → (s : Source) × (lookup name ss ≡ some s)
unfolding build_sources lookup
build_sources-defined build bags [] ss name e d = absurd cc
build_sources-defined build bags ((n, sc) ∷ cs) ss name e d =
    let (s, ts, r, same_list) =
      built-some n (build sc.type sc.params bags) (build_sources build bags cs) ss e in
    elim (Bool-cases (same n name)) [
      | inl y ↦ (s, rw (same_list, y))
      | inr y ↦
          let (x, f) = build_sources-defined build bags cs ts name r (rw y at d) in
          (x, rw (same_list, y) f)
    ]

module _ (ss : Assoc Source) (a b : Text) where
  only-configured : (n : Text) (raw : Assoc Text) → only n raw ≢ err (not_configured a b)
  only-configured n [] e = cc
  only-configured n ((k, v) ∷ []) e = cc
  only-configured n (p ∷ q ∷ raw) e = cc

  pick_value-configured :
      (n : Text) (raw : Assoc Text) (key : Text) → pick_value n raw key ≢ err (not_configured a b)
  unfolding pick_value
  pick_value-configured n raw [] e = only-configured n raw e
  pick_value-configured n raw (c ∷ key) e = elim (Option-cases (lookup (c ∷ key) raw)) [
    | inl y ↦ cc (rw y at e)
    | inr (x, y) ↦ cc (rw y at e)
  ]

  named-configured :
      (out : Assoc Text) (n : Text) (r : Result ResolveError Text)
      → r ≢ err (not_configured a b)
      → (r >>= λ val. ok (insert n val out)) ≢ err (not_configured a b)
  named-configured out n (ok val) h e = cc
  named-configured out n (err x) h e = h cc

  assign-configured :
      (out : Assoc Text) (v : VarRef) (raw : Assoc Text)
      → assign out v raw ≢ err (not_configured a b)
  assign-configured out v raw e = elim (Bool-cases (is_empty v.name)) [
    | inl y ↦ cc (rw y at e)
    | inr y ↦ named-configured out v.name _ (pick_value-configured v.name raw v.key) (rw y at e)
  ]

  fetched-configured :
      (out : Assoc Text) (v : VarRef) (r : Result FetchError (Assoc Text))
      → fetched out v r ≢ err (not_configured a b)
  fetched-configured out v (err x) e = cc
  fetched-configured out v (ok raw) e = assign-configured out v raw e

  fetch_var-configured :
      (out : Assoc Text) (v : VarRef)
      → Resolved ss v
      → fetch_var ss out v ≢ err (not_configured a b)
  unfolding fetch_var
  fetch_var-configured out v (inl n) e = ground arith
  fetch_var-configured out v (inr (s, f)) e = elim (Bool-cases (is_empty v.value)) [
    | inl y ↦ fetched-configured out v _ (rw (y, f) at e)
    | inr y ↦ cc (rw y at e)
  ]

  then-configured :
      (vs : List VarRef) (r : Result ResolveError (Assoc Text))
      → r ≢ err (not_configured a b)
      → ((next : Assoc Text) → fetch_vars ss next vs ≢ err (not_configured a b))
      → (r >>= λ next. fetch_vars ss next vs) ≢ err (not_configured a b)
  then-configured vs (ok next) n h e = h next e
  then-configured vs (err x) n h e = n (cc)

  fetch_vars-configured :
      (out : Assoc Text) (vs : List VarRef)
      → All (Resolved ss) vs
      → fetch_vars ss out vs ≢ err (not_configured a b)
  unfolding fetch_vars
  fetch_vars-configured out [] h e = cc
  fetch_vars-configured out (v ∷ vs) h e =
      then-configured vs (fetch_var ss out v) (fetch_var-configured out v h.0)
        (λ next. fetch_vars-configured next vs h.1) e

Resolved-IsVar :
    (build : Build) (cfg : Config) (ss : Assoc Source)
    → build_sources build cfg.secrets cfg.sources ≡ some ss
    → (vs : List VarRef) → All (IsVar cfg.sources) vs
    → All (Resolved ss) vs
Resolved-IsVar build cfg ss e [] h = tt
Resolved-IsVar build cfg ss e (v ∷ vs) (inl x, rest) =
    (inl x.0, Resolved-IsVar build cfg ss e vs rest)
Resolved-IsVar build cfg ss e (v ∷ vs) (inr x, rest) = (
  inr (build_sources-defined build cfg.secrets cfg.sources ss v.source e x.3),
  Resolved-IsVar build cfg ss e vs rest,
)

Resolved-vars_where :
    (build : Build) (cfg : Config) (ss : Assoc Source)
    → build_sources build cfg.secrets cfg.sources ≡ some ss
    → (test : Mapping → Bool) (ms : List Mapping) → All (IsMapping cfg.sources) ms
    → All (Resolved ss) (vars_where test ms)
Resolved-vars_where build cfg ss e test [] h = tt
Resolved-vars_where build cfg ss e test (m ∷ ms) (h, rest) =
    let later = Resolved-vars_where build cfg ss e test ms rest in
    elim (Bool-cases (test m)) [
      | inl y ↦ rw y (
          All-append (Resolved ss) m.vars (vars_where test ms)
            (Resolved-IsVar build cfg ss e m.vars h.2) later)
      | inr y ↦ rw y later
    ]

with_index-some :
    (idx : Index) (o : Option (Assoc Source)) (r : Resolver)
    → with_index idx o ≡ some r
    → (o ≡ some r.sources) × (r.index ≡ idx)
with_index-some idx none r e = absurd cc
with_index-some idx (some ss) r e =
    let made : record { index = idx; sources = ss } ≡ r = cc in
    (ap (λ (x : Resolver). some x.sources) made, sym (ap (λ (x : Resolver). x.index) made))

build_resolver-some :
    (host : Host) (build : Build) (cfg : Config) (r : Resolver)
    → build_resolver host build cfg ≡ some r
    → (build_sources build cfg.secrets cfg.sources ≡ some r.sources)
      × (r.index ≡ new_index host cfg.mappings)
unfolding build_resolver
build_resolver-some host build cfg r e = with_index-some _ _ r e

module _ (host : Host) (build : Build) (cfg : Config) (r : Resolver) (valid : validate cfg ≡ none)
    (made : build_resolver host build cfg ≡ some r) where
  -- The resolver that is built of a configuration that Validate accepts never answers, for a path
  -- or for a command in a directory, that a source is not configured.
  pub fetch_env-configured :
      (name source p pwd command : Text)
      → (fetch_env host r p ≢ err (not_configured name source))
        × (fetch_env_cwd host r pwd command ≢ err (not_configured name source))
  unfolding fetch_env fetch_env_cwd
  fetch_env-configured name source p pwd command =
      let (ss, idx) = build_resolver-some host build cfg r made in
      let ok_mappings = ((validate_iff cfg).0 valid).mappings in
      let scan = λ (test : Mapping → Bool).
        Resolved-vars_where build cfg r.sources ss test cfg.mappings ok_mappings in
      (
        fetch_vars-configured r.sources name source [] _ (
            rw (idx, lookup-new_index host cfg.mappings (or_path p (abs host.wd p)))
              (All-append (Resolved r.sources) _ _ (scan _) (scan _))),
        fetch_vars-configured r.sources name source [] _
            (rw (idx, lookup_cwd-new_index host cfg.mappings pwd command) (scan _)),
      )
