-- ===== src/Config/Retention/Window.antt =====
-- The window is that of the variable, as long as its nanoseconds fit, and what a sweep removes.
use jitenv.Base.{
  ℕ, ◌*◌, ◌==◌, leb, Bool, false, not, ◌&&◌, ◌||◌, Option, none, some, List, Text, same,
  contains_text,
}
use jitenv.Config.Retention.{nanos_per_day, is_negative, legacy_backup}

-- A number of days that is not below zero has passed: `none` is a time that is not known.
abbrev pub is_due : Bool → ℕ → Option ℕ → Bool
is_due negative n none = false
is_due negative n (some since) =
    (not negative || n == 0) && (not (is_negative since) && leb (n * nanos_per_day) since)

-- a backup, dated or with the name of an older program
abbrev pub is_backup : Text → List Text → Text → Bool
is_backup path matches q = contains_text matches q || same (legacy_backup path) q
