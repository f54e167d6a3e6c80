-- ===== src/Config/Migrating/Untouched.antt =====
-- A migration that does not succeed leaves every file as it was, but for the backup.
use jitenv.Base.{
  ℕ, Bool, true, false, Option, none, some, [], ◌∷◌, ◌++◌, Result, ok, err, ◌≡◌, ◌≢◌, ◌∙◌, refl, ap,
  arith, inl, inr, Bool-cases, Text, codes, same, same_iff, same_of_ne, lookup, insert,
  lookup-insert,
}
use jitenv.Crypto.Aead.{Cipher}
use jitenv.Agent.Protocol.{Codec}
use jitenv.Config.Ids.{NameMap, needs_id_migration}
use jitenv.Config.Sealing.{Randoms}
use jitenv.Config.Assigning.{Draws}
use jitenv.Config.Encrypting.{Stored, EncryptError}
use jitenv.Config.Retention.{erase, try_erase}
use jitenv.Config.Migrating.{
  Files, creating, opening, saving, Document, System, MigrateError, backup_path, load, copied,
  created, after_open, write_verbatim_backup, after_encode, atomic_save, finished, as_document,
  after_encrypt, decrypted, backed_up, after_load, migrate_locked,
}

pub lookup-erase : (k q : Text) (m : Files) → same k q ≡ false → lookup q (erase k m) ≡ lookup q m
unfolding erase lookup
lookup-erase k q [] h = refl
lookup-erase k q ((j, v) ∷ m) h =
    ground (arith, lookup-erase k q m, same_iff j k, same_iff j q, same_iff k q)

pub try_erase-lookup :
    (removes : Text → Bool) (k q : Text) (fs : Files)
    → same k q ≡ false
    → lookup q (try_erase removes k fs) ≡ lookup q fs
unfolding try_erase
try_erase-lookup removes k q fs h = ground (arith, lookup-erase k q fs h)

pub lookup-insert_other :
    (k q v : Text) (m : Files) → same k q ≡ false → lookup q (insert k v m) ≡ lookup q m
lookup-insert_other k q v m h = lookup-insert k q v m ∙ rw h

pub longer : (s : Text) (x : ℕ) (t : Text) → s ++ (x ∷ t) ≢ s
longer [] x t e = absurd cc
longer (y ∷ s) x t e = longer s x t (cc)

pub backup_path-ne : (path stamp : Text) → backup_path path stamp ≢ path
backup_path-ne path stamp = longer path b'.' (codes "pre-id-migration." ++ (stamp ++ codes ".bak"))

module _ (s : System) where
  copied_other :
      (b dst q : Text) (fs : Files)
      → same dst q ≡ false
      → lookup q (copied s b dst fs).0 ≡ lookup q fs
  copied_other b dst q fs h = ground (
    arith,
    try_erase-lookup s.removes dst q (insert dst [] fs) h,
    try_erase-lookup s.removes dst q (insert dst b fs) h,
    lookup-insert_other dst q [] fs h,
    lookup-insert_other dst q b fs h,
  )

  created_other :
      (b dst q : Text) (fs : Files) (o : Option Text)
      → same dst q ≡ false
      → lookup q (created s b dst fs o).0 ≡ lookup q fs
  created_other b dst q fs (some there) h = refl
  created_other b dst q fs none h = elim (Bool-cases (s.fails creating)) [
    | inl e ↦ rw e
    | inr e ↦ rw e (copied_other b dst q fs h)
  ]

  after_open_other :
      (dst q : Text) (fs : Files) (o : Option Text)
      → same dst q ≡ false
      → lookup q (after_open s dst fs o).0 ≡ lookup q fs
  after_open_other dst q fs none h = refl
  after_open_other dst q fs (some b) h = created_other b dst q fs (lookup dst fs) h

  -- a backup, made or not, changes no other file
  pub write_verbatim_backup_other :
      (src dst q : Text) (fs : Files)
      → same dst q ≡ false
      → lookup q (write_verbatim_backup s src dst fs).0 ≡ lookup q fs
  unfolding write_verbatim_backup
  write_verbatim_backup_other src dst q fs h = elim (Bool-cases (s.fails opening)) [
    | inl e ↦ rw e
    | inr e ↦ rw e (after_open_other dst q fs (lookup src fs) h)
  ]

  module _ (codec : Codec NameMap) (c : Cipher) (key : Text) (draws : Draws) (rs : Randoms) where
    after_encode_same :
        (path : Text) (d : Document) (fs : Files) (o : Option Text)
        → (finished s codec c key draws rs (after_encode s path d fs o)).1 ≢ ok true
        → (finished s codec c key draws rs (after_encode s path d fs o)).0 ≡ fs
    after_encode_same path d fs none h = refl
    after_encode_same path d fs (some b) h = elim (Bool-cases (s.fails saving)) [
      | inl e ↦ rw e
      | inr e ↦ absurd (h (rw e))
    ]

    after_encrypt_same :
        (path : Text) (fs : Files) (r : Result EncryptError Stored)
        → (after_encrypt s codec c key draws rs path fs r).1 ≢ ok true
        → (after_encrypt s codec c key draws rs path fs r).0 ≡ fs
    unfolding atomic_save
    after_encrypt_same path fs (err e) h = refl
    after_encrypt_same path fs (ok st) h =
        after_encode_same path (as_document s codec c key draws rs st) fs
          (s.encode (as_document s codec c key draws rs st)) h

    decrypted_same :
        (path : Text) (fs : Files) (r : Result EncryptError Stored)
        → (decrypted s codec c key draws rs path fs r).1 ≢ ok true
        → (decrypted s codec c key draws rs path fs r).0 ≡ fs
    decrypted_same path fs (err e) h = refl
    decrypted_same path fs (ok st) h = after_encrypt_same path fs _ h

    backed_up_same :
        (path : Text) (d : Document) (p : Files × Option MigrateError)
        → (backed_up s codec c key draws rs path d p).1 ≢ ok true
        → (backed_up s codec c key draws rs path d p).0 ≡ p.0
    backed_up_same path d (fs, some e) h = refl
    backed_up_same path d (fs, none) h = decrypted_same path fs _ h

    after_load_other :
        (path q : Text) (fs : Files) (r : Result MigrateError Document)
        → same (backup_path path s.stamp) q ≡ false
        → (after_load s codec c key draws rs path fs r).1 ≢ ok true
        → lookup q (after_load s codec c key draws rs path fs r).0 ≡ lookup q fs
    after_load_other path q fs (err e) n h = refl
    after_load_other path q fs (ok d) n h = elim (Bool-cases (needs_id_migration d.stored.config)) [
      | inr e ↦ rw e
      | inl e ↦
          let bak = backup_path path s.stamp in
          rw e (
            ap (λ f. lookup q f)
              (backed_up_same path d (write_verbatim_backup s path bak fs) (rw e at h))
            ∙ write_verbatim_backup_other path bak q fs n)
    ]

    -- If the migration does not report that it migrated, by an error or because there was nothing to
    -- do, then the configuration is as it was, and so is every other file but the backup of this
    -- run.
    pub migrate_locked_untouched :
        (path q : Text) (fs : Files)
        → backup_path path s.stamp ≢ q
        → (migrate_locked s codec c key draws rs path fs).1 ≢ ok true
        → (lookup path (migrate_locked s codec c key draws rs path fs).0 ≡ lookup path fs)
          × (lookup q (migrate_locked s codec c key draws rs path fs).0 ≡ lookup q fs)
    unfolding migrate_locked
    migrate_locked_untouched path q fs n h = (
      after_load_other path path fs (load s path fs) (same_of_ne _ _ (backup_path-ne path s.stamp))
          h,
      after_load_other path q fs (load s path fs) (same_of_ne _ _ n) h,
    )
