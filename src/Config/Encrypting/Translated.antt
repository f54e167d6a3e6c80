-- ===== src/Config/Encrypting/Translated.antt =====
-- A configuration under its names, and what the translation to identifiers and back makes of it.
use jitenv.Base.{some, List, [], ◌∷◌, map, ◌≡◌, ◌∙◌, refl, ap, Text, Assoc, lookup, All}
use jitenv.Config.{VarRef, Mapping, SourceConfig, Config}
use jitenv.Config.Ids.{NameMap}
use jitenv.Config.Sealing.RoundTrip.{IsPlain, VarIsPlain}
use jitenv.Config.Renaming.{
  keys_in, is_local, name_of, names_to_ids, ids_to_names, over_vars, named_keys, named_bags,
  translate_ids_to_names,
}
use jitenv.Config.Renaming.Inverse.{Inverts}
use jitenv.Config.Rekeyed.Back.{IsDistinct, mapped, rekey-mapped}
use jitenv.Config.Assigning.{Assigned, AssignedBags, keys_of}
use jitenv.Config.Encrypting.{id_in, to_ids}
use jitenv.Config.Encrypting.Secrets.{with_ids, bags-IsBack}
use jitenv.Config.Encrypting.Dictionary.{Assigns}
use jitenv.Config.Encrypting.Params.{FieldsIsPlain}
use jitenv.Config.Encrypting.References.{
  HasTypes, Resolves, Resolves-Refers, names_to_ids-VarIsPlain,
}
use jitenv.Config.Encrypting.Back.{
  Names, HasKey-Names, named_sources-mapped, lookup-mapped, names_to_ids-types, variable_back,
}

-- A configuration under its names: its maps have no key twice, none of its texts is an envelope, and
-- the references of its variables resolve.
pub record IsNamed (c : Config) : Type 0 where
  pub sources : IsDistinct (keys_of c.sources)
  pub bags : IsDistinct (keys_of c.secrets)
  pub keys : All (λ p. IsDistinct (keys_of p.1)) c.secrets
  pub params : All (λ p. FieldsIsPlain p.1.params) c.sources
  pub values : All (λ p. All (λ q. IsPlain q.1) p.1) c.secrets
  pub vars : All (λ m. All VarIsPlain m.vars) c.mappings
  pub references : All (λ m. All (Resolves c) m.vars) c.mappings

config_eq :
    (c : Config) (x : Assoc SourceConfig) (y : Assoc (Assoc Text)) (z : List Mapping)
    → x ≡ c.sources
    → y ≡ c.secrets
    → z ≡ c.mappings
    → record c { sources = x; secrets = y; mappings = z } ≡ c
config_eq c x y z e f g = rw (e, f, g)

module _ (c : Config) (ss : Assigned) (bs : AssignedBags)
    (assigns : Assigns c.secrets (keys_of c.sources) ss bs) (nm : NameMap)
    (inv : Inverts nm (to_ids ss bs)) where
  pub source-Names : Names ss.ids nm.sources (keys_of c.sources)
  source-Names =
      HasKey-Names ss.ids nm.sources (keys_of c.sources) (λ n id e. (inv.sources n id e).0)
        assigns.sources

  -- the sources under their identifiers
  abbrev pub by_id : Assoc SourceConfig
  by_id = mapped (id_in ss.ids) (λ i s. s) c.sources

  pub by_id-HasTypes : HasTypes c ss by_id
  by_id-HasTypes name sc id at at_id =
      let found =
        lookup-mapped (id_in ss.ids) (name_of nm.sources) (λ i s. s) c.sources name sc source-Names
          (name_back name id at_id) at in
      rw (rw at_id at found)
    where
      name_back :
          (name id : Text)
          → lookup name ss.ids ≡ some id
          → name_of nm.sources (id_in ss.ids name) ≡ name
      name_back name id e = rw (e, (inv.sources name id e).0)

  vars_back :
      (l : Assoc SourceConfig) (vs : List VarRef)
      → ((id : Text) → is_local (lookup id l) ≡ is_local (lookup id by_id))
      → All (Resolves c) vs
      → map (ids_to_names by_id nm) (map (names_to_ids l (to_ids ss bs)) vs) ≡ vs
  vars_back l [] t a = refl
  vars_back l (v ∷ vs) t a =
      let one =
        ap (ids_to_names by_id nm) (names_to_ids-types l by_id (to_ids ss bs) v t)
        ∙ variable_back by_id nm (to_ids ss bs) v inv
            (Resolves-Refers c ss bs assigns by_id v by_id-HasTypes a.0) in
      rw (one, vars_back l vs t a.1)

  mappings_back :
      (l : Assoc SourceConfig) (ms : List Mapping)
      → ((id : Text) → is_local (lookup id l) ≡ is_local (lookup id by_id))
      → All (λ m. All (Resolves c) m.vars) ms
      → over_vars (ids_to_names by_id nm) (over_vars (names_to_ids l (to_ids ss bs)) ms) ≡ ms
  mappings_back l [] t a = refl
  mappings_back l (m ∷ ms) t a = rw (vars_back l m.vars t a.0, mappings_back l ms t a.1)

  pub translate_back :
      (l : Assoc SourceConfig)
      → IsNamed c
      → ((id : Text) → is_local (lookup id l) ≡ is_local (lookup id by_id))
      → translate_ids_to_names nm (record c {
        sources = by_id;
        secrets = mapped (id_in bs.bags.ids) (with_ids bs.key_ids) c.secrets;
        mappings = over_vars (names_to_ids l (to_ids ss bs)) c.mappings;
      })
        ≡ c
  unfolding translate_ids_to_names named_bags
  translate_back l h t =
      config_eq c _ _ _
        (named_sources-mapped ss.ids nm.sources c.sources h.sources
          (λ n id e. (inv.sources n id e).0) assigns.sources)
        (rekey-mapped (id_in bs.bags.ids) (name_of nm.bags) (with_ids bs.key_ids)
          (λ id m. named_keys (keys_in id nm.keys) m) [] c.secrets h.bags
          (bags-IsBack bs nm (λ bag n id e. (inv.keys bag n id e).0) inv.bags c.secrets h.keys
            assigns.bags))
        (mappings_back l c.mappings t h.references)

  -- the variables that are sealed
  vars_plain :
      (l : Assoc SourceConfig) (vs : List VarRef)
      → HasTypes c ss l
      → All (Resolves c) vs
      → All VarIsPlain vs
      → All VarIsPlain (map (names_to_ids l (to_ids ss bs)) vs)
  vars_plain l [] t a p = tt
  vars_plain l (v ∷ vs) t a p = (
    names_to_ids-VarIsPlain c ss bs assigns l v (Resolves-Refers c ss bs assigns l v t a.0) p.0,
    vars_plain l vs t a.1 p.1,
  )

  pub mappings_plain :
      (l : Assoc SourceConfig) (ms : List Mapping)
      → HasTypes c ss l
      → All (λ m. All (Resolves c) m.vars) ms
      → All (λ m. All VarIsPlain m.vars) ms
      → All (λ m. All VarIsPlain m.vars) (over_vars (names_to_ids l (to_ids ss bs)) ms)
  mappings_plain l [] t a p = tt
  mappings_plain l (m ∷ ms) t a p = (vars_plain l m.vars t a.0 p.0, mappings_plain l ms t a.1 p.1)
