-- ===== src/Config/Renaming/Inverse.antt =====
-- The names of a variable come back from its identifiers.
use jitenv.Base.{
  true, false, ◌||◌, some, [], ◌≡◌, ◌⊎◌, arith, inl, inr, Text, is_empty, Assoc, lookup,
}
use jitenv.Crypto.Envelope.{is_envelope}
use jitenv.Config.{VarRef, SourceConfig}
use jitenv.Config.Ids.{NameMap}
use jitenv.Config.Renaming.{
  keys_in, is_local, ToIds, is_name, key_to_id, key_to_name, names_to_ids, ids_to_names,
}

-- The dictionary gives the name of each identifier that the reverse maps give for a name.
pub record Inverts (nm : NameMap) (ids : ToIds) : Type 0 where
  pub sources :
      (name id : Text)
      → lookup name ids.sources ≡ some id
      → (lookup id nm.sources ≡ some name) × (is_empty id ≡ false)
  pub bags : (name id : Text) → lookup name ids.bags ≡ some id → lookup id nm.bags ≡ some name
  pub keys :
      (bag name id : Text)
      → lookup name (keys_in bag ids.keys) ≡ some id
      → (lookup id (keys_in bag nm.keys) ≡ some name) × (is_empty id ≡ false)

-- A key that is empty, or a name of the bag.
abbrev pub IsKeyOf : Assoc Text → Text → Type 0
IsKeyOf ids k = (k ≡ []) ⊎ ((is_name k ≡ true) × (id : Text) × (lookup k ids ≡ some id))

key_back :
    (nm : NameMap) (ids : ToIds) (inv : Inverts nm ids) (bag k : Text)
    → IsKeyOf (keys_in bag ids.keys) k
    → key_to_name (keys_in bag nm.keys) (key_to_id (keys_in bag ids.keys) k) ≡ k
unfolding key_to_id
key_back nm ids inv bag k (inl e) = rw e
key_back nm ids inv bag k (inr (n, id, e)) =
    let (back, full) = inv.keys bag k id e in rw (n, e, full, back)

-- The variable names a source; if that is a local one, it names a bag, and no key or one of the bag.
abbrev pub Refers : Assoc SourceConfig → ToIds → VarRef → Type 0
Refers sources ids v =
    (is_name v.source ≡ true)
    × (id : Text) × (lookup v.source ids.sources ≡ some id)
    × ((is_local (lookup id sources) ≡ false)
        ⊎ ((is_local (lookup id sources) ≡ true)
            × (is_name v.ref ≡ true)
            × (bag : Text) × (lookup v.ref ids.bags ≡ some bag)
            × IsKeyOf (keys_in bag ids.keys) v.key))

pub named_source : (t : Text) → is_name t ≡ true → (is_empty t || is_envelope t) ≡ false
named_source t h = ground arith

-- For a dictionary that inverts the maps of EncryptInPlace, a variable whose references resolve has
-- its names again after translateVarNamesToIDs and then translateIDsToNames.
pub ids_to_names-names_to_ids :
    (sources : Assoc SourceConfig) (nm : NameMap) (ids : ToIds) (v : VarRef)
    → Inverts nm ids
    → Refers sources ids v
    → ids_to_names sources nm (names_to_ids sources ids v) ≡ v
unfolding names_to_ids ids_to_names
ids_to_names-names_to_ids sources nm ids v inv (s, id, at_id, inl remote) =
    let (back, full) = inv.sources v.source id at_id in
    rw (named_source v.source s, at_id, remote, full, remote, back)
ids_to_names-names_to_ids sources nm ids v inv (s, id, at_id, inr (loc, r, bag, at_bag, k)) =
    let (back, full) = inv.sources v.source id at_id in
    rw (
      named_source v.source s,
      at_id,
      loc,
      r,
      at_bag,
      full,
      loc,
      back,
      inv.bags v.ref bag at_bag,
      key_back nm ids inv bag v.key k,
    )
