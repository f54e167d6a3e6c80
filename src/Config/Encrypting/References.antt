-- ===== src/Config/Encrypting/References.antt =====
-- The variables of a configuration whose references resolve: their names come back from the identifiers
-- that EncryptInPlace puts in, which it seals like any other text.
use jitenv.Base.{
  Bool, true, false, some, List, [], ◌∷◌, ◌≡◌, ◌⊎◌, subst, ◌∙◌, inl, inr, Bool-cases, Text, same,
  same_iff, Assoc, lookup, contains_text, All,
}
use jitenv.Config.{VarRef, SourceConfig, Config}
use jitenv.Config.Sealing.RoundTrip.{VarIsPlain, IsPlain}
use jitenv.Config.Renaming.{keys_in, is_local, is_name, key_to_id, names_to_ids}
use jitenv.Config.Renaming.Inverse.{IsKeyOf, Refers, named_source}
use jitenv.Config.Renaming.Equal.{lookup-contains}
use jitenv.Config.Assigning.{Assigned, AssignedBags, keys_of}
use jitenv.Config.Assigning.Bags.{Covered}
use jitenv.Config.Encrypting.{to_ids}
use jitenv.Config.Encrypting.Dictionary.{Assigns}

abbrev pub HasKey : Assoc Text → Text → Type 0
HasKey ids k = (id : Text) × (lookup k ids ≡ some id)

-- A key that is empty, or one of the bag.
abbrev pub IsKeyIn : Assoc Text → Text → Type 0
IsKeyIn kv k = (k ≡ []) ⊎ ((is_name k ≡ true) × (v : Text) × (lookup k kv ≡ some v))

abbrev pub is_local_type : SourceConfig → Bool
is_local_type sc = is_local (some sc)

-- The variable has a value of its own, or it names a source of the configuration; if that is a local
-- one, it names a bag, and no key or one of that bag.
abbrev pub Resolves : Config → VarRef → Type 0
Resolves c v =
    (v.source ≡ [])
    ⊎ ((is_name v.source ≡ true)
        × (sc : SourceConfig) × (lookup v.source c.sources ≡ some sc)
        × ((is_local_type sc ≡ false)
            ⊎ ((is_local_type sc ≡ true)
                × (is_name v.ref ≡ true)
                × (kv : Assoc Text) × (lookup v.ref c.secrets ≡ some kv)
                × IsKeyIn kv v.key)))

pub contains-All :
    (Q : Text → Type 0) (ks : List Text) (k : Text) → All Q ks → contains_text ks k ≡ true → Q k
unfolding contains_text
contains-All Q [] k a h = absurd cc
contains-All Q (j ∷ ks) k a h = elim (Bool-cases (same j k)) [
  | inl s ↦ let one : j ≡ k = (same_iff j k).0 s in rw (← one) a.0
  | inr s ↦ contains-All Q ks k a.1 (rw s at h)
]

pub lookup-All :
    {V : Type 0} (Q : Text × V → Type 0) (m : Assoc V) (k : Text) (v : V)
    → All Q m
    → lookup k m ≡ some v
    → Q (k, v)
unfolding lookup
lookup-All Q [] k v a h = absurd cc
lookup-All Q ((j, w) ∷ m) k v a h = elim (Bool-cases (same j k)) [
  | inl s ↦
      let one : j ≡ k = (same_iff j k).0 s in
      let found : some w ≡ some v = rw s at h in let same_value : w ≡ v = cc in subst Q (cc) a.0
  | inr s ↦ lookup-All Q m k v a.1 (rw s at h)
]

-- The sources that are keyed by identifiers have the types of those that are keyed by names.
abbrev pub HasTypes : Config → Assigned → Assoc SourceConfig → Type 0
HasTypes c ss sources =
    (name : Text) (sc : SourceConfig) (id : Text)
    → lookup name c.sources ≡ some sc
    → lookup name ss.ids ≡ some id
    → is_local (lookup id sources) ≡ is_local_type sc

module _ (c : Config) (ss : Assigned) (bs : AssignedBags)
    (assigns : Assigns c.secrets (keys_of c.sources) ss bs) where
  key-IsKeyOf :
      (kv : Assoc Text) (ids : Assoc Text) (k : Text)
      → All (λ k. (j : Text) × (lookup k ids ≡ some j)) (keys_of kv)
      → IsKeyIn kv k
      → IsKeyOf ids k
  key-IsKeyOf kv ids k a (inl e) = inl e
  key-IsKeyOf kv ids k a (inr (n, v, at)) =
      let (j, at_j) = contains-All (HasKey ids) (keys_of kv) k a (lookup-contains k v kv at) in
      inr (n, j, at_j)

  pub Resolves-Refers :
      (sources : Assoc SourceConfig) (v : VarRef)
      → HasTypes c ss sources
      → Resolves c v
      → (v.source ≡ []) ⊎ Refers sources (to_ids ss bs) v
  Resolves-Refers sources v t (inl e) = inl e
  Resolves-Refers sources v t (inr (n, sc, at, inl remote)) =
      let (id, at_id) =
        contains-All (HasKey ss.ids) (keys_of c.sources) v.source assigns.sources
          (lookup-contains v.source sc c.sources at) in
      inr (n, id, at_id, inl (t v.source sc id at at_id ∙ remote))
  Resolves-Refers sources v t (inr (n, sc, at, inr (loc, r, kv, at_kv, k))) =
      let (id, at_id) =
        contains-All (HasKey ss.ids) (keys_of c.sources) v.source assigns.sources
          (lookup-contains v.source sc c.sources at) in
      let (bag, at_bag, all) = lookup-All (Covered bs) c.secrets v.ref kv assigns.bags at_kv in
      inr (
        n,
        id,
        at_id,
        inr (
          t v.source sc id at at_id ∙ loc,
          r,
          bag,
          at_bag,
          key-IsKeyOf kv (keys_in bag bs.key_ids) v.key all k,
        ),
      )

  key-IsPlain :
      (bag k : Text)
      → IsPlain k
      → IsKeyOf (keys_in bag bs.key_ids) k
      → IsPlain (key_to_id (keys_in bag bs.key_ids) k)
  unfolding key_to_id
  key-IsPlain bag k p (inl e) = rw e (rw e at p)
  key-IsPlain bag k p (inr (n, id, at)) = rw (n, at) (assigns.key_ids bag k id at).1

  pub names_to_ids-VarIsPlain :
      (sources : Assoc SourceConfig) (v : VarRef)
      → (v.source ≡ []) ⊎ Refers sources (to_ids ss bs) v
      → VarIsPlain v
      → VarIsPlain (names_to_ids sources (to_ids ss bs) v)
  unfolding names_to_ids
  names_to_ids-VarIsPlain sources v (inl e) p = rw e (simp e at p)
  names_to_ids-VarIsPlain sources v (inr (s, id, at_id, inl remote)) p =
      rw (named_source v.source s, at_id, remote)
        (p.0, (assigns.source_ids v.source id at_id).1, p.2, p.3, p.4, p.5)
  names_to_ids-VarIsPlain sources v (inr (s, id, at_id, inr (loc, r, bag, at_bag, k))) p =
      rw (named_source v.source s, at_id, loc, r, at_bag)
        (
          p.0,
          (assigns.source_ids v.source id at_id).1,
          (assigns.bag_ids v.ref bag at_bag).1,
          key-IsPlain bag v.key p.3 k,
          p.4,
          p.5,
        )
