-- ===== src/Config/Migrating/Steps.antt =====
-- What a migration did step by step, if it succeeded.
use jitenv.Base.{
  ℕ, Bool, true, false, Option, none, some, List, [], ◌∷◌, ◌==◌, Result, ok, err, ◌≡◌, ◌≢◌, ◌∙◌,
  refl, sym, ap, subst, arith, inl, inr, Bool-cases, Text, codes, same_of_ne, lookup, insert,
  contains_text,
}
use jitenv.Crypto.Aead.{Cipher}
use jitenv.Agent.Protocol.{Codec}
use jitenv.Config.{Config}
use jitenv.Config.Ids.{NameMap, needs_id_migration}
use jitenv.Config.Sealing.{Randoms, open_mappings, open_bag}
use jitenv.Config.Sealing.RoundTrip.{chained}
use jitenv.Config.Assigning.{Draws, keys_of, assign_sources, assign_bags}
use jitenv.Config.Renaming.{translate_ids_to_names}
use jitenv.Config.Rekeyed.{open_all}
use jitenv.Config.Encrypting.{
  Stored, EncryptError, sealing, minting, no_names, open_name_map, prior, open_source,
  encrypt_in_place, decrypt_in_place,
}
use jitenv.Config.Encrypting.Parts.{sealed_as-Parts}
use jitenv.Config.Retention.{
  is_expired, migration_backup_retention, try_erase, erase_all, legacy_backup, backup_glob,
  sweep_backups,
}
use jitenv.Config.Migrating.{
  Files, not_saved, not_read, reading, saving, Document, System, MigrateError, backup_path,
  with_version, parsed, decoded, load, write_verbatim_backup, after_encode, atomic_save, finished,
  after_encrypt, decrypted, backed_up, after_load,
}
use jitenv.Config.Migrating.Untouched.{longer, try_erase-lookup}

version_of :
    (v : ℕ) (st' : Stored) {x : Config} {t : Text} {o : Option NameMap}
    → ◌≡◌ {A = Result EncryptError Stored}
        (ok (record { config = x; name_map = t; id_map = o }))
        (ok st')
    → x.version ≡ v
    → st'.config.version ≡ v
version_of v st' e h = cc

module _ (codec : Codec NameMap) (c : Cipher) (key : Text) where
  pub decrypt_in_place-version :
      (st st' : Stored)
      → decrypt_in_place codec c key st ≡ ok st'
      → st'.config.version ≡ st.config.version
  unfolding decrypt_in_place translate_ids_to_names
  decrypt_in_place-version st st' e =
      let (nm, e1, f1) = chained (open_name_map codec c key st.name_map) _ e in
      let (x, e2, f2) = chained (sealing (open_all (open_source c key) st.config.sources)) _ f1 in
      let (y, e3, f3) = chained (sealing (open_all (open_bag c key) st.config.secrets)) _ f2 in
      let (z, e4, f4) = chained (sealing (open_mappings c key 0 st.config.mappings)) _ f3 in
      version_of st.config.version st' f4 refl

  pub encrypt_in_place-version :
      (st st' : Stored) (draws : Draws) (rs : Randoms)
      → encrypt_in_place codec c key st draws rs ≡ ok st'
      → st'.config.version ≡ st.config.version
  unfolding encrypt_in_place
  encrypt_in_place-version st st' draws rs e =
      let (prev, e1, f1) = chained (prior codec c key st.name_map st.id_map) _ e in
      let (last, e2, f2) = chained (open_name_map codec c key st.name_map) _ f1 in
      let (ss, e3, f3) =
        chained (minting (assign_sources prev (keys_of st.config.sources) draws)) _ f2 in
      let (bs, e4, f4) = chained (minting (assign_bags prev st.config.secrets ss)) _ f3 in
      (sealed_as-Parts codec c key st last ss bs rs st' f4).version

  -- the id map is not read
  pub decrypt_in_place-id_map :
      (st : Stored)
      → decrypt_in_place codec c key (record st { id_map = none }) ≡ decrypt_in_place codec c key st
  unfolding decrypt_in_place
  decrypt_in_place-id_map st = refl

has_version : (d : Document) → ((with_version d).stored.config.version == 0) ≡ false
has_version d = elim (Bool-cases (d.stored.config.version == 0)) [
  | inl e ↦ rw e
  | inr e ↦ rw (e, e)
]

pub versioned : (d : Document) → (d.stored.config.version == 0) ≡ false → with_version d ≡ d
versioned d e = rw e

-- what is left of a file that is not removed
erase_all-lookup :
    (removes : Text → Bool) (ks : List Text) (q : Text) (fs : Files)
    → contains_text ks q ≡ false
    → lookup q (erase_all removes ks fs) ≡ lookup q fs
unfolding erase_all contains_text
erase_all-lookup removes [] q fs h = refl
erase_all-lookup removes (k ∷ ks) q fs h =
    erase_all-lookup removes ks q (try_erase removes k fs) (ground arith)
    ∙ try_erase-lookup removes k q fs (ground arith)

pub sweep_backups-lookup :
    (removes : Text → Bool) (raw : Option Text) (since : Option ℕ) (path : Text)
    (matches : List Text) (fs : Files)
    → contains_text matches path ≡ false
    → legacy_backup path ≢ path
    → lookup path (sweep_backups removes raw since path matches fs) ≡ lookup path fs
unfolding sweep_backups
sweep_backups-lookup removes raw since path matches fs h n =
    elim (Bool-cases (is_expired (migration_backup_retention raw) since)) [
      | inl e ↦ rw e (
          try_erase-lookup removes (legacy_backup path) path (erase_all removes matches fs)
            (same_of_ne _ _ n)
          ∙ erase_all-lookup removes matches path fs h)
      | inr e ↦ rw e
    ]

names_of :
    (nm : NameMap) (st' : Stored) {x : Config} {t : Text}
    → ◌≡◌ {A = Result EncryptError Stored}
        (ok (record { config = x; name_map = t; id_map = some nm }))
        (ok st')
    → st'.id_map ≡ some nm
names_of nm st' e = cc

-- a configuration without a dictionary has none after it was opened
pub legacy-id_map :
    (codec : Codec NameMap) (c : Cipher) (key : Text) (st st' : Stored)
    → st.name_map ≡ []
    → decrypt_in_place codec c key st ≡ ok st'
    → st'.id_map ≡ some no_names
unfolding decrypt_in_place open_name_map
legacy-id_map codec c key st st' l e =
    let (nm, e1, f1) = chained (open_name_map codec c key st.name_map) _ e in
    let (x, e2, f2) = chained (sealing (open_all (open_source c key) st.config.sources)) _ f1 in
    let (y, e3, f3) = chained (sealing (open_all (open_bag c key) st.config.secrets)) _ f2 in
    let (z, e4, f4) = chained (sealing (open_mappings c key 0 st.config.mappings)) _ f3 in
    let is_none : ◌≡◌ {A = Result EncryptError NameMap} (ok no_names) (ok nm) = rw l at e1 in
    let same_names : no_names ≡ nm = cc in names_of nm st' f4 ∙ ap (λ n. some n) (sym same_names)

module _ (s : System) (codec : Codec NameMap) (c : Cipher) (key : Text) (draws : Draws)
    (rs : Randoms) where
  backed_up_ok :
      (path : Text) (d : Document) (p : Files × Option MigrateError) (fs' : Files)
      → backed_up s codec c key draws rs path d p ≡ (fs', ok true)
      → decrypted s codec c key draws rs path p.0 (decrypt_in_place codec c key d.stored)
        ≡ (fs', ok true)
  backed_up_ok path d (fs, some e) fs' h = absurd cc
  backed_up_ok path d (fs, none) fs' h = h

  pub after_load_ok :
      (path : Text) (fs fs' : Files) (d : Document)
      → after_load s codec c key draws rs path fs (ok d) ≡ (fs', ok true)
      → (fs1 : Files) × (decrypted s codec c key draws rs path fs1
            (decrypt_in_place codec c key d.stored)
          ≡ (fs', ok true))
  after_load_ok path fs fs' d h = elim (Bool-cases (needs_id_migration d.stored.config)) [
    | inr e ↦
        let no : ◌≡◌ {A = Files × Result MigrateError Bool} (fs, ok false) (fs', ok true) =
          rw e at h in
        absurd cc
    | inl e ↦
        let p = write_verbatim_backup s path (backup_path path s.stamp) fs in
        (p.0, backed_up_ok path d p fs' (rw e at h))
  ]

  -- what was written, if the file was
  after_encode_ok :
      (path : Text) (d : Document) (fs fs' : Files) (o : Option Text)
      → finished s codec c key draws rs (after_encode s path d fs o) ≡ (fs', ok true)
      → (b : Text) × (o ≡ some b)
        × (fs'
            ≡ sweep_backups s.removes s.retention
                (s.age d.migrated_at)
                path
                (s.glob (backup_glob path) (insert path b fs))
                (insert path b fs))
  after_encode_ok path d fs fs' none h = absurd cc
  after_encode_ok path d fs fs' (some b) h = elim (Bool-cases (s.fails saving)) [
    | inl e ↦
        let no : ◌≡◌ {A = Files × Result MigrateError Bool} (fs, err not_saved) (fs', ok true) =
          rw e at h in
        absurd cc
    | inr e ↦ (b, refl, sym (ap (λ p. p.0) (rw e at h)))
  ]

  pub after_encrypt_ok :
      (path : Text) (fs fs' : Files) (r : Result EncryptError Stored)
      → after_encrypt s codec c key draws rs path fs r ≡ (fs', ok true)
      → (st : Stored) × (r ≡ ok st)
        × (b : Text) × (s.encode (record { stored = st; migrated_at = s.now }) ≡ some b)
        × (fs'
            ≡ sweep_backups s.removes s.retention
                (s.age s.now)
                path
                (s.glob (backup_glob path) (insert path b fs))
                (insert path b fs))
  unfolding atomic_save
  after_encrypt_ok path fs fs' (err e) h = absurd cc
  after_encrypt_ok path fs fs' (ok st) h =
      let (b, at, made) =
        after_encode_ok path (record { stored = st; migrated_at = s.now }) fs fs' (s.encode _) h in
      (st, refl, b, at, made)

pub legacy_other : (path : Text) → legacy_backup path ≢ path
legacy_other path = longer path b'.' (codes "pre-id-migration.bak")

pub load_reads :
    (s : System) (path : Text) (fs fs' : Files) (d d' : Document) (b : Text)
    → load s path fs ≡ ok d
    → lookup path fs' ≡ some b
    → s.decode b ≡ some d'
    → load s path fs' ≡ ok (with_version d')
unfolding load
load_reads s path fs fs' d d' b e at f = elim (Bool-cases (s.fails reading)) [
  | inl r ↦
      let no : ◌≡◌ {A = Result MigrateError Document} (err not_read) (ok d) = rw r at e in absurd cc
  | inr r ↦ rw (r, at, f)
]

pub load-version :
    (s : System) (path : Text) (fs : Files) (d : Document)
    → load s path fs ≡ ok d
    → (d.stored.config.version == 0) ≡ false
unfolding load
load-version s path fs d e = elim (Bool-cases (s.fails reading)) [
  | inl r ↦
      let no : ◌≡◌ {A = Result MigrateError Document} (err not_read) (ok d) = rw r at e in absurd cc
  | inr r ↦ of_text (lookup path fs) (rw r at e)
]
  where
    of_document : (o : Option Document) → parsed s o ≡ ok d → (d.stored.config.version == 0) ≡ false
    of_document none t = absurd cc
    of_document (some x) t =
        let one : with_version x ≡ d = cc in
        subst (λ y. (y.stored.config.version == 0) ≡ false) one (has_version x)

    of_text : (o : Option Text) → decoded s o ≡ ok d → (d.stored.config.version == 0) ≡ false
    of_text none t = absurd cc
    of_text (some b) t = of_document (s.decode b) t
