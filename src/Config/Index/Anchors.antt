-- ===== src/Config/Index/Anchors.antt =====
-- The anchors that the shell hook filters by, against `Mapped`.
use jitenv.Base.{
  ℕ, Bool, true, false, ◌||◌, List, [], ◌∷◌, ◌++◌, ◌==◌, ==_iff, ◌≡◌, ◌≢◌, ◌⊎◌, ◌∙◌, inl, inr, refl,
  arith, Text, has_prefix, contains_text, Bool-cases, any, Assoc, lookup, IsSorted, sort-IsSorted,
  contains-sort, any-sort, any-contains, any-append,
}
use jitenv.Config.{VarRef}
use jitenv.Config.Index.Mapped.{is_there, mapped-or}
use jitenv.Config.Index.{
  Host, Index, GlobEntry, is_match, any_glob, mapped, is_meta, literal_prefix, keys, glob_prefixes,
  anchors,
}

-- What a pattern that starts with a literal `c` matches: a name that starts with `c`, or, where `c`
-- is a slash, nothing (doublestar reads "/**" at the end as zero or more elements).
abbrev StartsWith : Host → ℕ → Text → Text → Type 0
StartsWith host c p s =
    ((r : Text) × (s ≡ c ∷ r) × (is_match (host.glob_match p r) ≡ true)) ⊎ ((c ≡ b'/') × (s ≡ []))

-- The pattern language of doublestar: a character that is no metacharacter stands for itself, a
-- backslash makes any character stand for itself, and a backslash at the end is an error.
pub record LiteralLaws (host : Host) : Type 0 where
  pub literal :
      (c : ℕ) (p s : Text)
      → is_meta c ≡ false
      → c ≢ b'\\'
      → is_match (host.glob_match (c ∷ p) s) ≡ true
      → StartsWith host c p s
  pub escaped :
      (c : ℕ) (p s : Text)
      → is_match (host.glob_match (b'\\' ∷ c ∷ p) s) ≡ true
      → StartsWith host c p s
  pub dangling : (s : Text) → is_match (host.glob_match (b'\\' ∷ []) s) ≡ false

-- `q` is a prefix of the path, or the path is the directory at a slash of `q`.
abbrev pub reaches : Text → Text → Bool
reaches s q = has_prefix s q || has_prefix q (s ++ b'/' ∷ [])

reaches-cons : (c : ℕ) (s q : Text) → reaches (c ∷ s) (c ∷ q) ≡ reaches s q
unfolding has_prefix
reaches-cons c s q = ground arith

reaches_nil : (s : Text) → reaches s [] ≡ true
unfolding has_prefix
reaches_nil s = refl

reaches_slash : (q : Text) → reaches [] (b'/' ∷ q) ≡ true
unfolding has_prefix
reaches_slash q = refl

ne_of : (c : ℕ) → (c == b'\\') ≡ false → c ≢ b'\\'
ne_of c h e = ground arith

contains-keys :
    (s : Text) (m : Assoc (List VarRef)) → contains_text (keys m) s ≡ is_there (lookup s m)
unfolding lookup keys contains_text
contains-keys s [] = refl
contains-keys s ((k, vs) ∷ m) = ground (arith, contains-keys s m)

module _ (host : Host) (laws : LiteralLaws host) where
  -- one literal character of the pattern, with the claim for the rest of it
  reaches-StartsWith :
      (c : ℕ) (p s q : Text)
      → StartsWith host c p s
      → ((r : Text) → is_match (host.glob_match p r) ≡ true → reaches r q ≡ true)
      → reaches s (c ∷ q) ≡ true
  reaches-StartsWith c p s q (inl (r, e, m)) rest = rw e (reaches-cons c r q ∙ rest r m)
  reaches-StartsWith c p s q (inr (e, d)) rest = rw (e, d) (reaches_slash q)

  reaches-literal_prefix :
      (p s : Text) → is_match (host.glob_match p s) ≡ true → reaches s (literal_prefix p) ≡ true
  unfolding literal_prefix
  reaches-literal_prefix [] s m = reaches_nil s
  reaches-literal_prefix (c ∷ []) s m = elim (Bool-cases (is_meta c)) [
    | inl e ↦ rw e (reaches_nil s)
    | inr e ↦ elim (Bool-cases (c == b'\\')) [
      | inl b ↦ let e : c ≡ b'\\' = (==_iff c b'\\').0 b in absurd (cc (laws.dangling s, rw e at m))
      | inr b ↦ rw e (
          reaches-StartsWith c [] s [] (laws.literal c [] s e (ne_of c b) m) (λ r _. reaches_nil r))
    ]
  ]
  reaches-literal_prefix (c ∷ d ∷ p) s m = elim (Bool-cases (c == b'\\')) [
    | inl b ↦
        let e : c ≡ b'\\' = (==_iff c b'\\').0 b in
        rw b (
          reaches-StartsWith d p s (literal_prefix p) (laws.escaped d p s (rw e at m))
            (λ r n. reaches-literal_prefix p r n))
    | inr b ↦ rw b (elim (Bool-cases (is_meta c)) [
      | inl e ↦ rw e (reaches_nil s)
      | inr e ↦ rw e (
          reaches-StartsWith c (d ∷ p) s (literal_prefix (d ∷ p))
            (laws.literal c (d ∷ p) s e (ne_of c b) m) (λ r n. reaches-literal_prefix (d ∷ p) r n))
    ])
  ]

  prefix_in :
      (s : Text) (out : List Text) (g : GlobEntry) (b : Bool)
      → contains_text out (literal_prefix g.pattern) ≡ true
      → (any (reaches s) out || (is_match (host.glob_match g.pattern s) || b)) ≡ true
      → (any (reaches s) out || b) ≡ true
  prefix_in s out g b k h = elim (Bool-cases (is_match (host.glob_match g.pattern s))) [
    | inl m ↦ rw (
        any-contains (reaches s) out (literal_prefix g.pattern) k
          (reaches-literal_prefix g.pattern s m))
    | inr m ↦ rw m at h
  ]

  prefix_new :
      (s : Text) (out : List Text) (g : GlobEntry) (b : Bool)
      → (any (reaches s) out || (is_match (host.glob_match g.pattern s) || b)) ≡ true
      → (any (reaches s) (out ++ literal_prefix g.pattern ∷ []) || b) ≡ true
  prefix_new s out g b h = elim (Bool-cases (is_match (host.glob_match g.pattern s))) [
    | inl m ↦
        rw
          (
            any-append (reaches s) out (literal_prefix g.pattern ∷ []),
            reaches-literal_prefix g.pattern s m,
          )
          (ground arith)
    | inr m ↦
        let h' : (any (reaches s) out || b) ≡ true = rw m at h in
        rw (any-append (reaches s) out (literal_prefix g.pattern ∷ [])) (ground arith)
  ]

  any-glob_prefixes :
      (s : Text) (out : List Text) (gs : List GlobEntry)
      → (any (reaches s) out || any_glob host s gs) ≡ true
      → any (reaches s) (glob_prefixes out gs) ≡ true
  unfolding any_glob glob_prefixes
  any-glob_prefixes s out [] h = ground arith
  any-glob_prefixes s out (g ∷ gs) h =
      elim (Bool-cases (contains_text out (literal_prefix g.pattern))) [
        | inl k ↦ rw k (any-glob_prefixes s out gs (prefix_in s out g (any_glob host s gs) k h))
        | inr k ↦ rw k (
            any-glob_prefixes s (out ++ literal_prefix g.pattern ∷ []) gs
              (prefix_new s out g (any_glob host s gs) h))
      ]

  -- With a matcher whose literal characters match themselves, a mapped path is an exact anchor, or
  -- it starts with one of the prefixes, or it followed by a slash starts one of them.
  pub mapped-anchors :
      (idx : Index) (s : Text)
      → mapped host idx s ≡ true
      → (contains_text (anchors idx).0 s || any (reaches s) (anchors idx).1) ≡ true
  unfolding anchors
  mapped-anchors idx s h =
      let h' = rw (mapped-or host idx s) at h in
      rw
        (
          contains-sort (keys idx.exact) s,
          any-sort (reaches s) (glob_prefixes [] idx.globs),
          contains-keys s idx.exact,
        )
        (elim (Bool-cases (is_there (lookup s idx.exact))) [
          | inl e ↦ rw e
          | inr e ↦ rw e (any-glob_prefixes s [] idx.globs (rw e at h'))
        ])

-- Both lists of anchors are sorted.
pub anchors-IsSorted : (idx : Index) → IsSorted (anchors idx).0 × IsSorted (anchors idx).1
unfolding anchors
anchors-IsSorted idx = (sort-IsSorted _, sort-IsSorted _)
