-- ===== src/Config/Migrating/Kept.antt =====
-- A migration that succeeds keeps the configuration.
use jitenv.Base.{
  true, false, none, some, [], ◌==◌, ok, ◌≡◌, ◌∙◌, ap, sym, Result, Text, same_refl, lookup, insert,
  lookup-insert, contains_text, All, length,
}
use jitenv.Crypto.Aead.{Cipher, CipherLaws, key_len}
use jitenv.Agent.Protocol.{Codec}
use jitenv.Config.Ids.{NameMap}
use jitenv.Config.Sealing.{Randoms}
use jitenv.Config.Sealing.RoundTrip.{IsDraw}
use jitenv.Config.Assigning.{Draws}
use jitenv.Config.Assigning.Prior.{IsDictionary}
use jitenv.Config.Encrypting.{
  Stored, EncryptError, no_names, prior, encrypt_in_place, decrypt_in_place,
}
use jitenv.Config.Encrypting.Names.{NameCodecLaws}
use jitenv.Config.Encrypting.Translated.{IsNamed}
use jitenv.Config.Encrypting.RoundTrip.{decrypt_in_place-encrypt_in_place}
use jitenv.Config.Retention.{backup_glob, sweep_backups}
use jitenv.Config.Migrating.{Files, Document, System, load, after_encrypt, migrate_locked}
use jitenv.Config.Migrating.Same.{SameDocument}
use jitenv.Config.Migrating.Steps.{
  sweep_backups-lookup, legacy-id_map, load_reads, load-version, versioned, legacy_other,
  decrypt_in_place-version, encrypt_in_place-version, decrypt_in_place-id_map, after_load_ok,
  after_encrypt_ok,
}

-- a document as it is written: the id map is not
abbrev pub unmapped : Document → Document
unmapped d = record d { stored = record d.stored { id_map = none } }

-- What the system promises: TOML reads what it wrote, less the id map, and the entries of a map in any
-- order; and Glob gives other files than the configuration, whose path is not that of a backup.
pub record SystemLaws (s : System) (path : Text) : Type 0 where
  pub decode-encode :
      (d : Document) (b : Text)
      → s.encode d ≡ some b
      → (d' : Document) × (s.decode b ≡ some d') × SameDocument (unmapped d) d'
  pub glob-others : (fs : Files) → contains_text (s.glob (backup_glob path) fs) path ≡ false

no_names-IsDictionary : IsDictionary no_names
no_names-IsDictionary = record {
  maps = record { sources = tt; bags = tt; key_bags = tt; keys = tt };
  sources = tt;
  bags = tt;
  keys = tt;
}

module _ (s : System) (codec : Codec NameMap) (codec_laws : NameCodecLaws codec) (c : Cipher)
    (laws : CipherLaws c) (key : Text) (size : length key ≡ key_len) where
  -- the file that was written is read as what was encrypted, up to the order of the maps
  written_read :
      (path : Text) (fs fs1 fs' : Files) (d : Document) (st : Stored) (b : Text)
      → SystemLaws s path
      → load s path fs ≡ ok d
      → (st.config.version == 0) ≡ false
      → s.encode (record { stored = st; migrated_at = s.now }) ≡ some b
      → fs'
        ≡ sweep_backups s.removes s.retention
            (s.age s.now)
            path
            (s.glob (backup_glob path) (insert path b fs1))
            (insert path b fs1)
      → (d' : Document) × (load s path fs' ≡ ok d')
        × SameDocument (unmapped (record { stored = st; migrated_at = s.now })) d'
  written_read path fs fs1 fs' d st b system e v made at =
      let (doc, decoded, alike) = system.decode-encode _ b made in
      let there : lookup path fs' ≡ some b =
        ap (λ f. lookup path f) at
        ∙ sweep_backups-lookup s.removes s.retention (s.age s.now) path
            (s.glob (backup_glob path) (insert path b fs1)) (insert path b fs1)
            (system.glob-others (insert path b fs1)) (legacy_other path)
        ∙ lookup-insert path path b fs1
        ∙ rw (same_refl path) in
      (
        doc,
        load_reads s path fs fs' d doc b e there decoded
            ∙ ap (λ x. ok x) (versioned doc (ap (λ n. n == 0) alike.version ∙ v)),
        alike,
      )

  -- With a cipher and codings that meet their laws, a key of 32 bytes and nonces from rand.Read: let a
  -- configuration without a dictionary be loaded and opened, and let what it is opened to have no key
  -- twice in a map, no text that is an envelope, and variables whose references resolve. If the
  -- migration of it reports success, then the file that is there afterwards is loaded as a document
  -- that is, up to the order of the entries of its maps, one that DecryptInPlace opens to that
  -- configuration, by names.
  pub migrate_locked-kept :
      (draws : Draws) (rs : Randoms) (path : Text) (fs fs' : Files) (d : Document) (before : Stored)
      → SystemLaws s path
      → All IsDraw rs
      → load s path fs ≡ ok d
      → d.stored.name_map ≡ []
      → decrypt_in_place codec c key d.stored ≡ ok before
      → IsNamed before.config
      → migrate_locked s codec c key draws rs path fs ≡ (fs', ok true)
      → (d' sealed : Document) × (load s path fs' ≡ ok d')
        × SameDocument sealed d'
        × (nm : NameMap) × (decrypt_in_place codec c key sealed.stored
            ≡ ok (record {
              config = before.config;
              name_map = d'.stored.name_map;
              id_map = some nm;
            }))
  unfolding migrate_locked
  migrate_locked-kept draws rs path fs fs' d before system r e legacy opened named h =
      let (fs1, h1) = after_load_ok s codec c key draws rs path fs fs' d (rw e at h) in
      let (st, after_encrypt, b, made, at) =
        after_encrypt_ok s codec c key draws rs path fs1 fs'
          (encrypt_in_place codec c key before draws rs) (rw opened at h1) in
      let no_prior : prior codec c key before.name_map before.id_map ≡ ok no_names =
        rw (legacy-id_map codec c key d.stored before legacy opened) in
      let (nm, back) =
        decrypt_in_place-encrypt_in_place codec codec_laws c laws key size before no_names draws rs
          st named no_prior no_names-IsDictionary r after_encrypt in
      let version =
        encrypt_in_place-version codec c key before st draws rs after_encrypt
        ∙ decrypt_in_place-version codec c key d.stored before opened in
      let (d', loaded, alike) =
        written_read path fs fs1 fs' d st b system e
          (ap (λ v. v == 0) version ∙ load-version s path fs d e) made at in
      (
        d',
        unmapped (record { stored = st; migrated_at = s.now }),
        loaded,
        alike,
        nm,
        decrypt_in_place-id_map codec c key st
            ∙ back
            ∙ ap
                (λ t.
                  let st' : Stored = record {
                    config = before.config;
                    name_map = t;
                    id_map = some nm;
                  } in
                  let r : Result EncryptError Stored = ok st' in r)
                (sym alike.name_map),
      )
