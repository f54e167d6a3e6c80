-- ===== src/Config/Migrating.antt =====
-- internal/config/migrate.go: the migration of a configuration to opaque identifiers, with Load of
-- config.go and atomicSave of edit.go. The state is the files by their paths. TOML is a coding of
-- documents; which calls of the system fail is a function.
pub mod Untouched
pub mod Steps
pub mod Same
pub mod Kept
mod Tests
use jitenv.Base.{
  ℕ, Bool, true, false, not, Option, none, some, List, [], ◌∷◌, ◌++◌, if◌then◌else◌, ◌==◌, Result,
  ok, err, Text, codes, Assoc, lookup, insert,
}
use jitenv.Crypto.Aead.{Cipher}
use jitenv.Agent.Protocol.{Codec}
use jitenv.Config.{Config}
use jitenv.Config.Ids.{NameMap, needs_id_migration}
use jitenv.Config.Validate.{schema_version}
use jitenv.Config.Sealing.{Randoms}
use jitenv.Config.Assigning.{Draws}
use jitenv.Config.Encrypting.{Stored, EncryptError, encrypt_in_place, decrypt_in_place}
use jitenv.Config.Retention.{try_erase, sweep_backups, backup_glob}

abbrev pub Files : Type 0
Files = Assoc Text

-- a call that may fail for another reason than what the files are
pub data Call : Type 0 where
  reading locking opening creating copying closing saving : Call

-- A configuration with Meta.MigratedAt.
pub record Document : Type 0 where
  pub stored : Stored
  pub migrated_at : Text

-- What the system gives to one run: TOML, filepath.Glob, which calls fail, the times, and the environment
-- variable of the retention. `age` is the time since a time of MigratedAt, as an int64, and `removes`
-- says which backups os.Remove can remove.
pub record System : Type 0 where
  pub decode : Text → Option Document
  pub encode : Document → Option Text
  pub glob : Text → Files → List Text
  pub fails : Call → Bool
  pub now : Text
  pub stamp : Text
  pub age : Text → Option ℕ
  pub removes : Text → Bool
  pub retention : Option Text

pub data MigrateError : Type 0 where
  not_read not_parsed not_locked not_backed_up backup_exists not_saved : MigrateError
  not_decrypted not_encrypted : EncryptError → MigrateError

-- backupPath, with the formatted time
abbrev pub backup_path : Text → Text → Text
backup_path path stamp = path ++ (codes ".pre-id-migration." ++ (stamp ++ codes ".bak"))

abbrev pub with_version : Document → Document
with_version d = record d {
  stored = record d.stored {
    config = record d.stored.config {
      version = if d.stored.config.version == 0 then schema_version else d.stored.config.version;
    };
  };
}

module _ (s : System) where
  abbrev pub parsed : Option Document → Result MigrateError Document
  parsed none = err not_parsed
  parsed (some d) = ok (with_version d)

  abbrev pub decoded : Option Text → Result MigrateError Document
  decoded none = err not_read
  decoded (some b) = parsed (s.decode b)

  -- Load
  unfoldable pub load : Text → Files → Result MigrateError Document
  load path fs = if s.fails reading then err not_read else decoded (lookup path fs)

  -- the copy, into a file that is made for it; a failure removes it again, if it can be
  abbrev pub copied : Text → Text → Files → Files × Option MigrateError
  copied b dst fs =
      if s.fails copying
      then (try_erase s.removes dst (insert dst [] fs), some not_backed_up)
      else if s.fails closing
      then (try_erase s.removes dst (insert dst b fs), some not_backed_up)
      else (insert dst b fs, none)

  -- O_EXCL refuses a file that is there
  abbrev pub created : Text → Text → Files → Option Text → Files × Option MigrateError
  created b dst fs (some there) = (fs, some backup_exists)
  created b dst fs none = if s.fails creating then (fs, some not_backed_up) else copied b dst fs

  abbrev pub after_open : Text → Files → Option Text → Files × Option MigrateError
  after_open dst fs none = (fs, some not_backed_up)
  after_open dst fs (some b) = created b dst fs (lookup dst fs)

  -- writeVerbatimBackup
  unfoldable pub write_verbatim_backup : Text → Text → Files → Files × Option MigrateError
  write_verbatim_backup src dst fs =
      if s.fails opening then (fs, some not_backed_up) else after_open dst fs (lookup src fs)

  abbrev pub after_encode : Text → Document → Files → Option Text → Files × Option MigrateError
  after_encode path d fs none = (fs, some not_saved)
  after_encode path d fs (some b) = if s.fails saving then (fs, some not_saved) else (
    sweep_backups s.removes s.retention (s.age d.migrated_at) path
        (s.glob (backup_glob path) (insert path b fs)) (insert path b fs),
    none,
  )

  -- atomicSave: the file is replaced whole or not at all
  unfoldable pub atomic_save : Text → Document → Files → Files × Option MigrateError
  atomic_save path d fs = after_encode path d fs (s.encode d)

  module _ (codec : Codec NameMap) (c : Cipher) (key : Text) (draws : Draws) (rs : Randoms) where
    abbrev pub finished : Files × Option MigrateError → Files × Result MigrateError Bool
    finished (fs, some e) = (fs, err e)
    finished (fs, none) = (fs, ok true)

    abbrev pub as_document : Stored → Document
    as_document st = record { stored = st; migrated_at = s.now }

    abbrev pub after_encrypt :
        Text → Files → Result EncryptError Stored → Files × Result MigrateError Bool
    after_encrypt path fs (err e) = (fs, err (not_encrypted e))
    after_encrypt path fs (ok st) = finished (atomic_save path (as_document st) fs)

    abbrev pub decrypted :
        Text → Files → Result EncryptError Stored → Files × Result MigrateError Bool
    decrypted path fs (err e) = (fs, err (not_decrypted e))
    decrypted path fs (ok st) = after_encrypt path fs (encrypt_in_place codec c key st draws rs)

    abbrev pub backed_up :
        Text → Document → Files × Option MigrateError → Files × Result MigrateError Bool
    backed_up path d (fs, some e) = (fs, err e)
    backed_up path d (fs, none) = decrypted path fs (decrypt_in_place codec c key d.stored)

    abbrev pub after_load :
        Text → Files → Result MigrateError Document → Files × Result MigrateError Bool
    after_load path fs (err e) = (fs, err e)
    after_load path fs (ok d) =
        if not (needs_id_migration d.stored.config)
        then (fs, ok false)
        else backed_up path d (write_verbatim_backup path (backup_path path s.stamp) fs)

    -- MigrateToOpaqueIDsLocked
    unfoldable pub migrate_locked : Text → Files → Files × Result MigrateError Bool
    migrate_locked path fs = after_load path fs (load path fs)

    abbrev pub probed :
        Text
        → (Files → Files)
        → Files
        → Result MigrateError Document
        → Files × Result MigrateError Bool
    probed path meanwhile fs (err e) = (fs, err e)
    probed path meanwhile fs (ok d) =
        if not (needs_id_migration d.stored.config)
        then (fs, ok false)
        else if s.fails locking
        then (fs, err not_locked)
        else migrate_locked path (meanwhile fs)

    -- MigrateToOpaqueIDs. What others did to the files before the lock was taken is a function.
    unfoldable pub migrate : Text → (Files → Files) → Files → Files × Result MigrateError Bool
    migrate path meanwhile fs = probed path meanwhile fs (load path fs)
