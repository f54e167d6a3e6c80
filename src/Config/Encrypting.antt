-- ===== src/Config/Encrypting.antt =====
-- internal/config/encrypt.go and decrypt.go: EncryptInPlace and DecryptInPlace, from the names in memory to
-- the identifiers and envelopes on disk and back, with the dictionary that internal/config/nameid.go
-- seals. Its JSON is a `Codec`. What rand.Read gives for identifiers and for nonces are two lists.
-- After an error the caller gives the configuration up, so the model keeps the error only.
pub mod Dictionary
pub mod Params
pub mod Coding
mod Tests
pub mod Translated
pub mod Secrets
pub mod Parts
pub mod RoundTrip
pub mod Closed
pub mod Back
pub mod References
pub mod Names
use jitenv.Base.{
  Bool, true, false, not, ◌||◌, Option, none, some, [], ◌∷◌, if◌then◌else◌, Result, ok, err, ◌>>=◌,
  Text, codes, is_empty, Assoc, lookup,
}
use jitenv.Crypto.Values.{Fields, end}
use jitenv.Crypto.Aead.{Cipher, CryptoError}
use jitenv.Crypto.Envelope.{encrypt_field, decrypt_field}
use jitenv.Agent.Protocol.{Codec}
use jitenv.Config.{SourceConfig, Config}
use jitenv.Config.Ids.{NameMap, MintError}
use jitenv.Config.Sealing.{
  SealError, Randoms, drawn, undrawn, with_rest, secret_aad, seal_value, seal_params, open_params,
  seal_mappings, open_mappings, open_bag,
}
use jitenv.Config.Assigning.{Draws, Assigned, AssignedBags, keys_of, assign_sources, assign_bags}
use jitenv.Config.Renaming.{
  ToIds, keys_in, over_vars, names_to_ids, translate_ids_to_names, name_map_equal,
}
use jitenv.Config.Rekeyed.{seal_rekeyed, open_all}

-- Config with Meta.NameMap and IDMap, which is nil before the first DecryptInPlace
pub record Stored : Type 0 where
  pub config : Config
  pub name_map : Text
  pub id_map : Option NameMap

pub data EncryptError : Type 0 where
  not_sealed : SealError → EncryptError
  not_minted : MintError → EncryptError
  not_opened : CryptoError → EncryptError
  not_marshalled not_parsed : EncryptError

abbrev pub sealing : {A : Type 0} → Result SealError A → Result EncryptError A
sealing (ok a) = ok a
sealing (err e) = err (not_sealed e)

abbrev pub minting : {A : Type 0} → Result MintError A → Result EncryptError A
minting (ok a) = ok a
minting (err e) = err (not_minted e)

abbrev pub name_map_aad : Text
name_map_aad = codes "meta.name_map"

abbrev pub no_names : NameMap
no_names = record { sources = []; bags = []; keys = [] }

-- the zero value of a missing entry
abbrev pub or_no_id : Option Text → Text
or_no_id none = []
or_no_id (some t) = t

abbrev pub id_in : Assoc Text → Text → Text
id_in ids name = or_no_id (lookup name ids)

-- the dictionary of the new identifiers, and the maps to them
abbrev pub dictionary : Assigned → AssignedBags → NameMap
dictionary ss bs = record { sources = ss.names; bags = bs.bags.names; keys = bs.keys }

abbrev pub to_ids : Assigned → AssignedBags → ToIds
to_ids ss bs = record { sources = ss.ids; bags = bs.bags.ids; keys = bs.key_ids }

module _ (c : Cipher) (key : Text) where
  -- a source, under its identifier
  unfoldable pub seal_source :
      Text → SourceConfig → Randoms → Result SealError (SourceConfig × Randoms)
  seal_source id sc rs = do
    (params, left) ← seal_params c key id sc.params rs
    ok (record sc { params = params }, left)

  -- a bag, under its identifier, with the identifiers of its keys
  unfoldable pub seal_secrets :
      Assoc (Assoc Text) → Text → Assoc Text → Randoms → Result SealError (Assoc Text × Randoms)
  unfolding seal_rekeyed
  seal_secrets key_ids bag kv rs =
      seal_rekeyed (id_in (keys_in bag key_ids)) (λ k v r. seal_value c key (secret_aad bag k) v r)
        [] kv rs

  -- a source with its parameters opened, if it has any
  abbrev pub opened_params : Text → Fields → Result SealError Fields
  opened_params id end = ok end
  opened_params id fs = open_params c key id fs

  unfoldable pub open_source : Text → SourceConfig → Result SealError SourceConfig
  open_source id sc = do params ← opened_params id sc.params; ok (record sc { params = params })

module _ (codec : Codec NameMap) (c : Cipher) (key : Text) where
  abbrev pub parsed_names : Option NameMap → Result EncryptError NameMap
  parsed_names none = err not_parsed
  parsed_names (some nm) = ok nm

  abbrev pub names_in : Result CryptoError Text → Result EncryptError NameMap
  names_in (err e) = err (not_opened e)
  names_in (ok p) = parsed_names (codec.unmarshal p)

  -- openNameMap
  unfoldable pub open_name_map : Text → Result EncryptError NameMap
  open_name_map env =
      if is_empty env then ok no_names else names_in (decrypt_field c key env name_map_aad)

  abbrev pub sealed_names : Option Text → Randoms → Result EncryptError Text
  sealed_names none rs = err not_marshalled
  sealed_names (some b) rs = do
    (env, left) ← sealing (with_rest (undrawn rs) (encrypt_field c (drawn rs) key b name_map_aad))
    ok env

  -- sealNameMap
  unfoldable pub seal_name_map : NameMap → Randoms → Result EncryptError Text
  seal_name_map nm rs = sealed_names (codec.marshal nm) rs

  -- the dictionary whose identifiers are used again
  abbrev pub prior : Text → Option NameMap → Result EncryptError NameMap
  prior env none = open_name_map env
  prior env (some nm) = ok nm

  -- the envelope of the dictionary, which stays if its content does
  unfoldable pub resealed : Text → NameMap → NameMap → Randoms → Result EncryptError Text
  resealed env last nm rs =
      let new = seal_name_map nm rs in
      if is_empty env || not (name_map_equal last nm) then new else ok env

  -- Steps 2 to 4. The translation of a variable reads nothing that is sealed, so that it is a pass
  -- before the sealing of them all.
  unfoldable pub sealed_as :
      Stored → NameMap → Assigned → AssignedBags → Randoms → Result EncryptError Stored
  sealed_as st last ss bs rs = do
    (sources, r1) ←
        sealing (seal_rekeyed (id_in ss.ids) (seal_source c key) [] st.config.sources rs)
    (secrets, r2) ←
        sealing
          (seal_rekeyed (id_in bs.bags.ids) (seal_secrets c key bs.key_ids) [] st.config.secrets r1)
    (mappings, r3) ← sealing (
        seal_mappings c key 0 (over_vars (names_to_ids sources (to_ids ss bs)) st.config.mappings)
          r2)
    env ← resealed st.name_map last (dictionary ss bs) r3
    ok (record {
      config = record st.config { sources = sources; secrets = secrets; mappings = mappings };
      name_map = env;
      id_map = some (dictionary ss bs);
    })

  -- EncryptInPlace
  unfoldable pub encrypt_in_place : Stored → Draws → Randoms → Result EncryptError Stored
  encrypt_in_place st draws rs = do
    prev ← prior st.name_map st.id_map
    last ← open_name_map st.name_map
    ss ← minting (assign_sources prev (keys_of st.config.sources) draws)
    bs ← minting (assign_bags prev st.config.secrets ss)
    sealed_as st last ss bs rs

  -- DecryptInPlace
  unfoldable pub decrypt_in_place : Stored → Result EncryptError Stored
  decrypt_in_place st = do
    nm ← open_name_map st.name_map
    sources ← sealing (open_all (open_source c key) st.config.sources)
    secrets ← sealing (open_all (open_bag c key) st.config.secrets)
    mappings ← sealing (open_mappings c key 0 st.config.mappings)
    ok (record st {
      config =
          translate_ids_to_names nm
            (record st.config { sources = sources; secrets = secrets; mappings = mappings });
      id_map = some nm;
    })
