-- ===== src/Config/Retention.antt =====
-- internal/config/migrate.go: how long the backup of a migration is kept. A time.Duration is an int64 in
-- nanoseconds, kept as a word of 64 bits; the times are in nanoseconds.
pub mod Window
mod Tests
use jitenv.Base.{
  ℕ, ◌+◌, ◌-◌, ◌*◌, ◌%◌, ◌^◌, Bool, true, false, not, ◌&&◌, ◌||◌, Option, none, some, List, [], ◌∷◌,
  ◌++◌, if◌then◌else◌, ltb, leb, Text, codes, same, is_empty, Assoc, Parsed, number, too_large,
  no_number, atoi,
}

-- 24 * time.Hour
abbrev pub nanos_per_day : ℕ
nanos_per_day = 86400000000000

-- DefaultMigrationBackupRetention
abbrev pub default_retention : ℕ
default_retention = 30 * nanos_per_day

-- the int64 of a sign and a size
abbrev pub word : Bool → ℕ → ℕ
word negative n = if negative then (2 ^ 64 - n) % 2 ^ 64 else n

abbrev pub days : Parsed → ℕ
days (number negative n) = word negative n * nanos_per_day % 2 ^ 64
days (too_large negative) = default_retention
days no_number = default_retention

-- migrationBackupRetention, from the value of the environment variable
unfoldable pub migration_backup_retention : Option Text → ℕ
unfolding atoi
migration_backup_retention none = default_retention
migration_backup_retention (some raw) = if is_empty raw then default_retention else days (atoi raw)

abbrev pub is_negative : ℕ → Bool
is_negative w = leb (2 ^ 63) w

-- `<` of two int64
abbrev pub signed_lt : ℕ → ℕ → Bool
signed_lt a b =
    if is_negative a then not (is_negative b) || ltb a b else not (is_negative b) && ltb a b

-- The tests of sweepMigrationBackupIfExpired: the retention, and the time since MigratedAt, which is
-- below zero for a time to come, and `none` where that is empty or no time.
unfoldable pub is_expired : ℕ → Option ℕ → Bool
is_expired retention none = false
is_expired retention (some since) =
    if is_negative retention then false else not (signed_lt since retention)

-- os.Remove
unfoldable pub erase : Text → Assoc Text → Assoc Text
erase k [] = []
erase k ((j, v) ∷ m) = let rest = erase k m in if same j k then rest else (j, v) ∷ rest

-- os.Remove where its error is dropped: what cannot be removed stays
unfoldable pub try_erase : (Text → Bool) → Text → Assoc Text → Assoc Text
unfolding erase
try_erase removes k fs = if removes k then erase k fs else fs

unfoldable pub erase_all : (Text → Bool) → List Text → Assoc Text → Assoc Text
unfolding try_erase
erase_all removes [] fs = fs
erase_all removes (k ∷ ks) fs = erase_all removes ks (try_erase removes k fs)

-- legacyMigrationBackupPath and migrationBackupGlob, for the kind "id"
abbrev pub legacy_backup : Text → Text
legacy_backup path = path ++ codes ".pre-id-migration.bak"

abbrev pub backup_glob : Text → Text
backup_glob path = path ++ codes ".pre-id-migration.*.bak"

-- sweepMigrationBackupIfExpired, with the files that filepath.Glob gives, and those that can be removed
unfoldable pub sweep_backups :
    (Text → Bool) → Option Text → Option ℕ → Text → List Text → Assoc Text → Assoc Text
unfolding migration_backup_retention is_expired erase_all
sweep_backups removes raw since path matches fs =
    if is_expired (migration_backup_retention raw) since
    then try_erase removes (legacy_backup path) (erase_all removes matches fs)
    else fs
