-- ===== src/Config/Encrypting/RoundTrip.antt =====
-- What EncryptInPlace wrote, DecryptInPlace reads as the configuration that it was.
use jitenv.Base.{
  some, List, Result, ok, err, ◌≡◌, ◌∙◌, sym, ap, subst, Text, Assoc, lookup, All, length,
}
use jitenv.Crypto.Aead.{Cipher, CipherLaws, key_len}
use jitenv.Agent.Protocol.{Codec}
use jitenv.Config.{Mapping, SourceConfig, Config}
use jitenv.Config.Ids.{NameMap, MintError}
use jitenv.Config.Sealing.{Randoms}
use jitenv.Config.Sealing.RoundTrip.{chained, IsDraw, seal_mappings-open}
use jitenv.Config.Renaming.{is_local, names_to_ids, over_vars, translate_ids_to_names}
use jitenv.Config.Rekeyed.Back.{mapped}
use jitenv.Config.Assigning.{Draws, Assigned, AssignedBags, keys_of, assign_sources, assign_bags}
use jitenv.Config.Assigning.Prior.{IsDictionary}
use jitenv.Config.Encrypting.{
  Stored, EncryptError, minting, id_in, dictionary, to_ids, open_name_map, prior, encrypt_in_place,
  decrypt_in_place,
}
use jitenv.Config.Encrypting.Translated.{IsNamed, by_id-HasTypes, translate_back, mappings_plain}
use jitenv.Config.Encrypting.Dictionary.{Assigns, assigned}
use jitenv.Config.Encrypting.Names.{NameCodecLaws, resealed-open}
use jitenv.Config.Encrypting.References.{HasTypes}
use jitenv.Config.Encrypting.Back.{Agrees-Inverts, open_all-is_local}
use jitenv.Config.Encrypting.Parts.{
  decrypt_steps, Parts, sealed_as-Parts, sources_part, secrets_part,
}

version_eq :
    (a b : Config) (x : Assoc SourceConfig) (y : Assoc (Assoc Text)) (z : List Mapping)
    → a.version ≡ b.version
    → record a { sources = x; secrets = y; mappings = z }
      ≡ record b { sources = x; secrets = y; mappings = z }
version_eq a b x y z e =
    ap
      (λ v.
        let cfg : Config = record { version = v; sources = x; mappings = z; secrets = y } in cfg)
      e

ok_minting : {A : Type 0} (r : Result MintError A) (a : A) → minting r ≡ ok a → r ≡ ok a
ok_minting (err e) a h = absurd cc
ok_minting {A} (ok b) a h =
    let one : ◌≡◌ {A = Result EncryptError A} (ok b) (ok a) = h in let same : b ≡ a = cc in rw same

ok_names : (a b : NameMap) → ◌≡◌ {A = Result EncryptError NameMap} (ok a) (ok b) → a ≡ b
ok_names a b h = cc

abbrev ok_with : Stored → NameMap → Config → Result EncryptError Stored
ok_with st nm cfg = ok (record { config = cfg; name_map = st.name_map; id_map = some nm })

sealed-HasTypes :
    (st st' : Stored) (ss : Assigned) (bs : AssignedBags)
    (assigns : Assigns st.config.secrets (keys_of st.config.sources) ss bs)
    → ((id : Text)
        → is_local (lookup id st'.config.sources)
          ≡ is_local (lookup id (mapped (id_in ss.ids) (λ i s. s) st.config.sources)))
    → HasTypes st.config ss st'.config.sources
sealed-HasTypes st st' ss bs assigns h name sc id at at_id =
    h id
    ∙ by_id-HasTypes st.config ss bs assigns (dictionary ss bs) assigns.inverts name sc id at at_id

module _ (codec : Codec NameMap) (codec_laws : NameCodecLaws codec) (c : Cipher)
    (laws : CipherLaws c) (key : Text) (size : length key ≡ key_len) where
  -- steps 2 to 4, once the identifiers are given
  sealed_as-back :
      (st : Stored) (last : NameMap) (ss : Assigned) (bs : AssignedBags) (rs : Randoms)
      (st' : Stored)
      → IsNamed st.config
      → Assigns st.config.secrets (keys_of st.config.sources) ss bs
      → open_name_map codec c key st.name_map ≡ ok last
      → All IsDraw rs
      → Parts codec c key st last ss bs rs st'
      → (nm : NameMap) × (decrypt_in_place codec c key st'
          ≡ ok (record { config = st.config; name_map = st'.name_map; id_map = some nm }))
  sealed_as-back st last ss bs rs st' named assigns opened draws p =
      let (o1, h1) =
        sources_part c laws key size st.config ss bs named assigns rs st'.config.sources p.r1 draws
          p.sources in
      let (o2, h2) =
        secrets_part c laws key size st.config ss bs named assigns p.r1 st'.config.secrets p.r2 h1
          p.secrets in
      let types : (id : Text)
          → is_local (lookup id st'.config.sources)
            ≡ is_local (lookup id (mapped (id_in ss.ids) (λ i s. s) st.config.sources)) =
        λ id. open_all-is_local c key st'.config.sources _ id o1 in
      let has_types = sealed-HasTypes st st' ss bs assigns types in
      let (o3, h3) =
        seal_mappings-open c laws key size 0
          (over_vars (names_to_ids st'.config.sources (to_ids ss bs)) st.config.mappings) p.r2
          st'.config.mappings p.r3
          (mappings_plain st.config ss bs assigns (dictionary ss bs) assigns.inverts
            st'.config.sources st.config.mappings has_types named.references named.vars)
          h2 p.mappings in
      let (nm, o4, agrees) =
        resealed-open codec codec_laws c laws key size st.name_map last (dictionary ss bs) p.r3
          st'.name_map h3 opened p.env in
      let inv = Agrees-Inverts (dictionary ss bs) nm (to_ids ss bs) agrees assigns.inverts in
      (
        nm,
        decrypt_steps codec c key st' nm _ _ _ o4 o1 o2 o3
            ∙ ap (ok_with st' nm) (
                ap (translate_ids_to_names nm) (version_eq st'.config st.config _ _ _ p.version)
                ∙ translate_back st.config ss bs assigns nm inv st'.config.sources named types),
      )

  -- With a cipher and a JSON coding that meet their laws, a key of 32 bytes and nonces from rand.Read,
  -- if EncryptInPlace succeeds on a configuration under its names, then DecryptInPlace on the result
  -- gives the same configuration, whether the dictionary was sealed again or kept. The prior
  -- dictionary has identifiers with the prefix of their kind, no text of the configuration is an
  -- envelope, and the references of its variables resolve.
  pub decrypt_in_place-encrypt_in_place :
      (st : Stored) (prev : NameMap) (draws : Draws) (rs : Randoms) (st' : Stored)
      → IsNamed st.config
      → prior codec c key st.name_map st.id_map ≡ ok prev
      → IsDictionary prev
      → All IsDraw rs
      → encrypt_in_place codec c key st draws rs ≡ ok st'
      → (nm : NameMap) × (decrypt_in_place codec c key st'
          ≡ ok (record { config = st.config; name_map = st'.name_map; id_map = some nm }))
  unfolding encrypt_in_place
  decrypt_in_place-encrypt_in_place st prev draws rs st' named p dict r e =
      let (prev', e1, f1) = chained (prior codec c key st.name_map st.id_map) _ e in
      let (last, e2, f2) = chained (open_name_map codec c key st.name_map) _ f1 in
      let (ss, e3, f3) =
        chained (minting (assign_sources prev' (keys_of st.config.sources) draws)) _ f2 in
      let (bs, e4, f4) = chained (minting (assign_bags prev' st.config.secrets ss)) _ f3 in
      let assigns =
        assigned prev' (keys_of st.config.sources) st.config.secrets draws ss bs
          (subst IsDictionary (ok_names prev prev' (sym p ∙ e1)) dict) named.bags
          (ok_minting _ _ e3) (ok_minting _ _ e4) in
      sealed_as-back st last ss bs rs st' named assigns e2 r
        (sealed_as-Parts codec c key st last ss bs rs st' f4)
