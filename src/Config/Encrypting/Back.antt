-- ===== src/Config/Encrypting/Back.antt =====
-- The names that DecryptInPlace puts back for the identifiers of EncryptInPlace.
use jitenv.Base.{
  true, false, some, List, [], ◌∷◌, Result, ok, ◌≡◌, ◌⊎◌, ◌∙◌, refl, sym, ap, arith, inl, inr,
  Bool-cases, Option-cases, Text, same, same_iff, is_empty, Assoc, lookup, All,
}
use jitenv.Crypto.Aead.{Cipher}
use jitenv.Config.{VarRef, SourceConfig}
use jitenv.Config.Ids.{NameMap}
use jitenv.Config.Sealing.{SealError}
use jitenv.Config.Sealing.RoundTrip.{chained}
use jitenv.Config.Renaming.{is_local, ToIds, name_of, names_to_ids, ids_to_names, named_sources}
use jitenv.Config.Renaming.Inverse.{Inverts, Refers, ids_to_names-names_to_ids}
use jitenv.Config.Renaming.Equal.{Agrees}
use jitenv.Config.Rekeyed.{open_all}
use jitenv.Config.Rekeyed.Back.{IsDistinct, mapped, IsBack, rekey-mapped}
use jitenv.Config.Assigning.{keys_of}
use jitenv.Config.Encrypting.{id_in, opened_params, open_source}
use jitenv.Config.Encrypting.References.{HasKey}

pub Agrees-Inverts :
    (nm nm' : NameMap) (ids : ToIds) → Agrees nm' nm → Inverts nm ids → Inverts nm' ids
Agrees-Inverts nm nm' ids a h = record {
  sources = λ n id e. let (back, full) = h.sources n id e in (a.sources id ∙ back, full);
  bags = λ n id e. a.bags id ∙ h.bags n id e;
  keys = λ bag n id e. let (back, full) = h.keys bag n id e in (a.keys bag id ∙ back, full);
}

-- Each name is the one of its identifier.
abbrev pub Names : Assoc Text → Assoc Text → List Text → Type 0
Names ids names ks = All (λ k. name_of names (id_in ids k) ≡ k) ks

pub HasKey-Names :
    (ids names : Assoc Text) (ks : List Text)
    → ((n id : Text) → lookup n ids ≡ some id → lookup id names ≡ some n)
    → All (HasKey ids) ks
    → Names ids names ks
HasKey-Names ids names [] h a = tt
HasKey-Names ids names (k ∷ ks) h ((id, at), a) =
    (rw (at, h k id at), HasKey-Names ids names ks h a)

pub Names-IsBack :
    {V : Type 0} (ids names : Assoc Text) (m : Assoc V)
    → Names ids names (keys_of m)
    → All (IsBack (id_in ids) (λ i v. v) (name_of names) (λ i v. v)) m
Names-IsBack ids names [] h = tt
Names-IsBack ids names ((k, v) ∷ m) h = ((h.0, refl), Names-IsBack ids names m h.1)

-- a source that has a name makes the dictionary one with names
full : (names : Assoc Text) (id n : Text) → lookup id names ≡ some n → is_empty names ≡ false
unfolding lookup
full [] id n e = absurd cc
full (p ∷ names) id n e = refl

pub named_sources-mapped :
    (ids names : Assoc Text) (sources : Assoc SourceConfig)
    → IsDistinct (keys_of sources)
    → ((n id : Text) → lookup n ids ≡ some id → lookup id names ≡ some n)
    → All (HasKey ids) (keys_of sources)
    → named_sources names (mapped (id_in ids) (λ i s. s) sources) ≡ sources
unfolding named_sources
named_sources-mapped ids names [] d h a = ground arith
named_sources-mapped ids names ((k, v) ∷ sources) d h a =
    let (id, at) = a.0 in
    rw (full names id k (h k id at)) (
      rekey-mapped (id_in ids) (name_of names) (λ i s. s) (λ i s. s) [] ((k, v) ∷ sources) d
        (Names-IsBack ids names ((k, v) ∷ sources)
          (HasKey-Names ids names (k ∷ keys_of sources) h a)))

pub lookup-mapped :
    {V W : Type 0} (f f' : Text → Text) (h : Text → V → W) (m : Assoc V) (n : Text) (v : V)
    → All (λ k. f' (f k) ≡ k) (keys_of m)
    → f' (f n) ≡ n
    → lookup n m ≡ some v
    → lookup (f n) (mapped f h m) ≡ some (h (f n) v)
unfolding lookup
lookup-mapped f f' h [] n v a b e = absurd cc
lookup-mapped f f' h ((j, w) ∷ m) n v a b e = elim (Bool-cases (same j n)) [
  | inl s ↦
      let one : j ≡ n = (same_iff j n).0 s in
      let t : same (f j) (f n) ≡ true = (same_iff (f j) (f n)).1 (ap f one) in
      let found : some w ≡ some v = rw s at e in
      let same_value : w ≡ v = cc in
      rw t (ap (λ x. some x) (ap (λ k. h (f k) w) one ∙ ap (h (f n)) same_value))
  | inr s ↦ elim (Bool-cases (same (f j) (f n))) [
    | inl t ↦
        let one : j ≡ n = sym a.0 ∙ ap f' ((same_iff (f j) (f n)).0 t) ∙ b in
        let no : same j n ≡ true = (same_iff j n).1 one in absurd (ground arith)
    | inr t ↦ rw t (lookup-mapped f f' h m n v a.1 b (rw s at e))
  ]
]

module _ (c : Cipher) (key : Text) where
  -- opening leaves the keys and the types
  pub open_all-is_local :
      (l r : Assoc SourceConfig) (id : Text)
      → open_all (open_source c key) l ≡ ok r
      → is_local (lookup id l) ≡ is_local (lookup id r)
  unfolding open_all open_source lookup
  open_all-is_local [] r id e =
      let one : ◌≡◌ {A = Result SealError (Assoc SourceConfig)} (ok []) (ok r) = e in
      let same_list : [] ≡ r = cc in rw (← same_list)
  open_all-is_local ((k, sc) ∷ l) r id e =
      let (sc', e1, e2) = chained (open_source c key k sc) _ e in
      let (l', e3, e4) = chained (open_all (open_source c key) l) _ e2 in
      let (params, e5, e6) = chained (opened_params c key k sc.params) _ e1 in
      let same_sc : record sc { params = params } ≡ sc' = cc in
      let same_list : (k, sc') ∷ l' ≡ r = cc in
      rw (← same_list, ← same_sc)
        (elim (Bool-cases (same k id)) [
          | inl s ↦ rw s
          | inr s ↦ rw s (open_all-is_local l l' id e3)
        ])

pub names_to_ids-types :
    (a b : Assoc SourceConfig) (ids : ToIds) (v : VarRef)
    → ((id : Text) → is_local (lookup id a) ≡ is_local (lookup id b))
    → names_to_ids a ids v ≡ names_to_ids b ids v
unfolding names_to_ids
names_to_ids-types a b ids v h = elim (Option-cases (lookup v.source ids.sources)) [
  | inl e ↦ rw e
  | inr (id, e) ↦ rw (e, h id)
]

pub variable_back :
    (sources : Assoc SourceConfig) (nm : NameMap) (ids : ToIds) (v : VarRef)
    → Inverts nm ids
    → (v.source ≡ []) ⊎ Refers sources ids v
    → ids_to_names sources nm (names_to_ids sources ids v) ≡ v
unfolding names_to_ids ids_to_names
variable_back sources nm ids v inv (inl e) = simp e
variable_back sources nm ids v inv (inr r) = ids_to_names-names_to_ids sources nm ids v inv r
