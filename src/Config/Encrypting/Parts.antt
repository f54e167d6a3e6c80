-- ===== src/Config/Encrypting/Parts.antt =====
-- The steps of EncryptInPlace one by one, and what DecryptInPlace makes of each.
use jitenv.Base.{
  false, some, List, [], ◌∷◌, Result, ok, ◌≡◌, refl, subst, Text, is_empty, Assoc, lookup, All,
  length,
}
use jitenv.Crypto.Aead.{Cipher, CipherLaws, key_len}
use jitenv.Agent.Protocol.{Codec}
use jitenv.Config.{Mapping, SourceConfig, Config}
use jitenv.Config.Ids.{NameMap}
use jitenv.Config.Sealing.{Randoms, seal_mappings, open_mappings, open_bag}
use jitenv.Config.Sealing.RoundTrip.{chained, IsDraw}
use jitenv.Config.Renaming.{keys_in, name_of, names_to_ids, over_vars, translate_ids_to_names}
use jitenv.Config.Rekeyed.{seal_rekeyed, open_all}
use jitenv.Config.Rekeyed.Back.{Opens, mapped, mapped-IsDistinct, seal_rekeyed-open_all}
use jitenv.Config.Assigning.{Assigned, AssignedBags, keys_of}
use jitenv.Config.Encrypting.{
  Stored, EncryptError, sealing, id_in, dictionary, to_ids, open_name_map, resealed, seal_source,
  seal_secrets, sealed_as, open_source, decrypt_in_place,
}
use jitenv.Config.Encrypting.Secrets.{with_ids, Covered-Names, bags-Opens}
use jitenv.Config.Encrypting.Translated.{IsNamed, source-Names}
use jitenv.Config.Encrypting.Dictionary.{Assigns}
use jitenv.Config.Encrypting.Params.{FieldsIsPlain, seal_source-Opens}
use jitenv.Config.Encrypting.Names.{ok_sealing}
use jitenv.Config.Encrypting.References.{HasKey}

module _ (codec : Codec NameMap) (c : Cipher) (key : Text) where
  -- DecryptInPlace, from what its steps give
  pub decrypt_steps :
      (st : Stored) (nm : NameMap) (x : Assoc SourceConfig) (y : Assoc (Assoc Text))
      (z : List Mapping)
      → open_name_map codec c key st.name_map ≡ ok nm
      → open_all (open_source c key) st.config.sources ≡ ok x
      → open_all (open_bag c key) st.config.secrets ≡ ok y
      → open_mappings c key 0 st.config.mappings ≡ ok z
      → decrypt_in_place codec c key st
        ≡ ok (record st {
          config =
              translate_ids_to_names nm
                (record st.config { sources = x; secrets = y; mappings = z });
          id_map = some nm;
        })
  unfolding decrypt_in_place
  decrypt_steps st nm x y z a b d e = rw (a, b, d, e)

-- The sources can be sealed and opened.
sources-Opens :
    (c : Cipher) (laws : CipherLaws c) (key : Text) (size : length key ≡ key_len) (ids : Assoc Text)
    (m : Assoc SourceConfig)
    → ((n id : Text) → lookup n ids ≡ some id → is_empty id ≡ false)
    → All (HasKey ids) (keys_of m)
    → All (λ p. FieldsIsPlain p.1.params) m
    → All (λ p. Opens (seal_source c key) (open_source c key) (λ i s. s) (id_in ids p.0) p.1) m
sources-Opens c laws key size ids [] n a p = tt
sources-Opens c laws key size ids ((name, sc) ∷ m) n ((id, at), a) p = (
  rw at (seal_source-Opens c laws key size id sc (n name id at) p.0),
  sources-Opens c laws key size ids m n a p.1,
)

-- What the steps 2 to 4 gave.
pub record Parts (codec : Codec NameMap) (c : Cipher) (key : Text) (st : Stored) (last : NameMap)
    (ss : Assigned) (bs : AssignedBags) (rs : Randoms) (st' : Stored) : Type 0 where
  pub r1 : Randoms
  pub r2 : Randoms
  pub r3 : Randoms
  pub sources :
      seal_rekeyed (id_in ss.ids) (seal_source c key) [] st.config.sources rs
      ≡ ok (st'.config.sources, r1)
  pub secrets :
      seal_rekeyed (id_in bs.bags.ids) (seal_secrets c key bs.key_ids) [] st.config.secrets r1
      ≡ ok (st'.config.secrets, r2)
  pub mappings :
      seal_mappings c key 0
        (over_vars (names_to_ids st'.config.sources (to_ids ss bs)) st.config.mappings)
        r2
      ≡ ok (st'.config.mappings, r3)
  pub env : resealed codec c key st.name_map last (dictionary ss bs) r3 ≡ ok st'.name_map
  pub version : st'.config.version ≡ st.config.version

ok_stored : (a b : Stored) → ◌≡◌ {A = Result EncryptError Stored} (ok a) (ok b) → a ≡ b
ok_stored a b h = cc

pub sealed_as-Parts :
    (codec : Codec NameMap) (c : Cipher) (key : Text) (st : Stored) (last : NameMap) (ss : Assigned)
    (bs : AssignedBags) (rs : Randoms) (st' : Stored)
    → sealed_as codec c key st last ss bs rs ≡ ok st'
    → Parts codec c key st last ss bs rs st'
unfolding sealed_as
sealed_as-Parts codec c key st last ss bs rs st' e =
    let ((sources, r1), e1, f1) =
      chained (sealing (seal_rekeyed (id_in ss.ids) (seal_source c key) [] st.config.sources rs)) _
        e in
    let ((secrets, r2), e2, f2) =
      chained
        (sealing (
          seal_rekeyed (id_in bs.bags.ids) (seal_secrets c key bs.key_ids) [] st.config.secrets r1))
        _ f1 in
    let ((mappings, r3), e3, f3) =
      chained
        (sealing (
          seal_mappings c key 0 (over_vars (names_to_ids sources (to_ids ss bs)) st.config.mappings)
            r2))
        _ f2 in
    let (env, e4, f4) =
      chained (resealed codec c key st.name_map last (dictionary ss bs) r3) _ f3 in
    subst (λ x. Parts codec c key st last ss bs rs x) (ok_stored _ st' f4)
      (record {
        r1 = r1;
        r2 = r2;
        r3 = r3;
        sources = ok_sealing _ _ e1;
        secrets = ok_sealing _ _ e2;
        mappings = ok_sealing _ _ e3;
        env = e4;
        version = refl;
      })

module _ (c : Cipher) (laws : CipherLaws c) (key : Text) (size : length key ≡ key_len)
    (cfg : Config) (ss : Assigned) (bs : AssignedBags) (named : IsNamed cfg)
    (assigns : Assigns cfg.secrets (keys_of cfg.sources) ss bs) where
  pub sources_part :
      (rs : Randoms) (sources : Assoc SourceConfig) (left : Randoms)
      → All IsDraw rs
      → seal_rekeyed (id_in ss.ids) (seal_source c key) [] cfg.sources rs ≡ ok (sources, left)
      → (open_all (open_source c key) sources ≡ ok (mapped (id_in ss.ids) (λ i s. s) cfg.sources))
        × All IsDraw left
  sources_part rs sources left r e =
      let names = source-Names cfg ss bs assigns (dictionary ss bs) assigns.inverts in
      let (l, made, opens, rest) =
        seal_rekeyed-open_all (id_in ss.ids) (seal_source c key) (open_source c key) (λ i s. s) []
          cfg.sources rs sources left
          (mapped-IsDistinct (id_in ss.ids) (name_of ss.names) (λ i s. s) cfg.sources named.sources
            names)
          (sources-Opens c laws key size ss.ids cfg.sources
            (λ n id t. (assigns.source_ids n id t).0) assigns.sources named.params)
          r e in
      (rw (made, opens), rest)

  pub secrets_part :
      (rs : Randoms) (secrets : Assoc (Assoc Text)) (left : Randoms)
      → All IsDraw rs
      → seal_rekeyed (id_in bs.bags.ids) (seal_secrets c key bs.key_ids) [] cfg.secrets rs
        ≡ ok (secrets, left)
      → (open_all (open_bag c key) secrets
          ≡ ok (mapped (id_in bs.bags.ids) (with_ids bs.key_ids) cfg.secrets))
        × All IsDraw left
  secrets_part rs secrets left r e =
      let inv = assigns.inverts in
      let inverse : (bag n id : Text)
          → lookup n (keys_in bag bs.key_ids) ≡ some id
          → lookup id (keys_in bag bs.keys) ≡ some n =
        λ bag n id t. (inv.keys bag n id t).0 in
      let (l, made, opens, rest) =
        seal_rekeyed-open_all (id_in bs.bags.ids) (seal_secrets c key bs.key_ids) (open_bag c key)
          (with_ids bs.key_ids) [] cfg.secrets rs secrets left
          (mapped-IsDistinct (id_in bs.bags.ids) (name_of bs.bags.names) (with_ids bs.key_ids)
            cfg.secrets named.bags
            (Covered-Names bs (dictionary ss bs) inverse inv.bags cfg.secrets assigns.bags))
          (bags-Opens bs (dictionary ss bs) inverse inv.bags c laws key size cfg.secrets named.keys
            named.values assigns.bags)
          r e in
      (rw (made, opens), rest)
