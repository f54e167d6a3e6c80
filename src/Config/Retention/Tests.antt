-- ===== src/Config/Retention/Tests.antt =====
-- Runs of the retention, one past the range of an int64, and the theorem at a concrete input.
use jitenv.Base.{ℕ, ◌-◌, ◌^◌, true, false, some, [], ◌∷◌, ◌≡◌, refl, Text, codes, Assoc, atoi}
use jitenv.Config.Retention.{migration_backup_retention, is_expired}

abbrev hour : ℕ
hour = 3600000000000

default_run : is_expired (migration_backup_retention (some (codes "x"))) (some hour) ≡ false
unfolding is_expired migration_backup_retention atoi
default_run = refl

never_run : is_expired (migration_backup_retention (some (codes "-1"))) (some hour) ≡ false
unfolding is_expired migration_backup_retention atoi
never_run = refl

-- 213504 days wrap around to less than half an hour.
wrapped_run : is_expired (migration_backup_retention (some (codes "213504"))) (some hour) ≡ true
unfolding is_expired migration_backup_retention atoi
wrapped_run = refl

-- a time to come
future_run : is_expired (migration_backup_retention (some (codes "0"))) (some (2 ^ 64 - 1)) ≡ false
unfolding is_expired migration_backup_retention atoi
future_run = refl

abbrev backup : Text
backup = codes "/c.pre-id-migration.1.bak"

abbrev files : Assoc Text
files = (codes "/c", codes "new") ∷ (backup, codes "old") ∷ []
