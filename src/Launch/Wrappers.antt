-- ===== src/Launch/Wrappers.antt =====
-- internal/chpwd/chpwd.go and reconcile_unix.go: the wrappers of one shell, as the entries of its
-- directory. A directory is an association list; the calls of package os behave as they do on Unix.
pub mod Exact
pub mod Settled
use jitenv.Base.{
  ℕ, length, leb, ◌==◌, ◌&&◌, ◌||◌, any, codes, Bool, true, false, not, Option, none, some, List,
  [], ◌∷◌, ◌++◌, if◌then◌else◌, Text, same, is_empty, contains_text, Assoc, lookup, insert, Result,
  ok, err, ◌>>=◌,
}
use jitenv.Config.Index.{Index, anchors}

-- a symbolic link with its target, a file, or what os.Remove cannot remove: a directory that is not empty
pub data Entry : Type 0 where
  link : Text → Entry
  file stuck : Entry

abbrev pub Dir : Type 0
Dir = Assoc Entry

-- The names under which filepath.Join gives a path of an entry of the directory: no other file of the
-- system, not the directory itself, and no path that is refused.
unfoldable pub is_entry_name : Text → Bool
unfolding same
is_entry_name name =
    not (is_empty name || same name (codes ".") || same name (codes ".."))
    && not (any (λ c. c == b'/' || c == 0) name)
    && leb (length name) 255

-- What the calls of package os do to the directory, joined with any other name.
pub record Beyond : Type 0 where
  pub remove_at : Text → Dir → Option Dir
  pub symlink_at : Text → Text → Dir → Option Dir
  pub links_to : Text → Text → Dir → Bool

unfoldable pub without : Text → Dir → Dir
without name [] = []
without name ((n, e) ∷ d) = let rest = without name d in if same n name then rest else (n, e) ∷ rest

abbrev pub removed_as : Text → Dir → Option Entry → Option Dir
removed_as name d none = none
removed_as name d (some stuck) = none
removed_as name d (some e) = some (without name d)

-- os.Remove of an entry; `none` is an error
unfoldable pub remove : Text → Dir → Option Dir
unfolding lookup
remove name d = removed_as name d (lookup name d)

abbrev pub linked_as : Text → Text → Dir → Option Entry → Option Dir
linked_as target name d none = some (insert name (link target) d)
linked_as target name d (some e) = none

abbrev pub or_same : Dir → Option Dir → Dir
or_same d none = d
or_same d (some d') = d'

abbrev pub is_link_to : Text → Option Entry → Bool
is_link_to exe (some (link target)) = same target exe
is_link_to exe _ = false

module _ (b : Beyond) where
  -- os.Remove of the directory joined with a name
  unfoldable pub remove_joined : Text → Dir → Option Dir
  unfolding remove is_entry_name
  remove_joined name d = if is_entry_name name then remove name d else b.remove_at name d

  -- os.Symlink; `none` is an error, as when the name is taken
  unfoldable pub symlink : Text → Text → Dir → Option Dir
  unfolding lookup is_entry_name
  symlink target name d =
      if is_entry_name name
      then linked_as target name d (lookup name d)
      else b.symlink_at target name d

  -- createWrapper
  unfoldable pub create_wrapper : Text → Text → Dir → Option Dir
  unfolding remove_joined symlink
  create_wrapper exe name d = symlink exe name (or_same d (remove_joined name d))

  -- isOurs, with false for its error
  unfoldable pub is_ours : Text → Text → Dir → Bool
  unfolding lookup is_entry_name
  is_ours exe name d =
      if is_entry_name name then is_link_to exe (lookup name d) else b.links_to exe name d

-- the directory and whether it was changed
pub record State : Type 0 where
  pub dir : Dir
  pub changed : Bool

abbrev pub after_remove : State → Option Dir → State
after_remove s none = s
after_remove s (some d) = record { dir = d; changed = true }

-- one entry of the sweep, under a name that ReadDir gave
unfoldable pub sweep_step : List Text → Text → State → State
unfolding remove contains_text
sweep_step wanted name s =
    if contains_text wanted name then s else after_remove s (remove name s.dir)

unfoldable pub sweep : List Text → List Text → State → State
unfolding sweep_step
sweep wanted [] s = s
sweep wanted (name ∷ names) s = sweep wanted names (sweep_step wanted name s)

abbrev pub after_create : State → Option Dir → Result State State
after_create s none = err s
after_create s (some d) = ok (record { dir = d; changed = true })

-- one wanted command: what an error leaves is its value
unfoldable pub add_step : Beyond → Text → Text → State → Result State State
unfolding create_wrapper is_ours
add_step b exe name s =
    if is_ours b exe name s.dir then ok s else after_create s (create_wrapper b exe name s.dir)

unfoldable pub add_missing : Beyond → Text → List Text → State → Result State State
unfolding add_step
add_missing b exe [] s = ok s
add_missing b exe (name ∷ names) s = do s' ← add_step b exe name s; add_missing b exe names s'

abbrev pub names : Dir → List Text
names [] = []
names ((n, e) ∷ d) = n ∷ names d

pub data ReconcileError : Type 0 where
  no_read no_directory no_executable : ReconcileError
  no_wrapper : State → ReconcileError

abbrev pub or_no_wrapper : Result State State → Result ReconcileError State
or_no_wrapper (ok s) = ok s
or_no_wrapper (err s) = err (no_wrapper s)

-- what the disk and the process give: whether ReadDir and MkdirAll succeed, os.Executable, and what
-- a name that is no entry leads to
pub record Disk : Type 0 where
  pub can_read : Bool
  pub can_make : Bool
  pub executable : Option Text
  pub beyond : Beyond

abbrev pub unchanged : Dir → State
unchanged d = record { dir = d; changed = false }

-- the case of no wanted command, for a directory that may not be there
abbrev pub emptied : Disk → Option Dir → Result ReconcileError (Option State)
emptied disk none = ok none
emptied disk (some d) =
    if disk.can_read then ok (some (sweep [] (names d) (unchanged d))) else err no_read

abbrev pub or_empty_dir : Option Dir → Dir
or_empty_dir none = []
or_empty_dir (some d) = d

abbrev pub filled : Disk → List Text → Dir → Option Text → Result ReconcileError State
filled disk wanted d none = err no_executable
filled disk wanted d (some exe) =
    if disk.can_read
    then or_no_wrapper (add_missing disk.beyond exe wanted (sweep wanted (names d) (unchanged d)))
    else err no_read

abbrev pub some_state : Result ReconcileError State → Result ReconcileError (Option State)
some_state (ok s) = ok (some s)
some_state (err e) = err e

-- reconcile: the directory afterwards, if there is one
unfoldable pub reconcile : Disk → Option Dir → List Text → Result ReconcileError (Option State)
unfolding sweep add_missing
reconcile disk d wanted =
    if is_empty wanted
    then emptied disk d
    else if not disk.can_make
    then err no_directory
    else some_state (filled disk wanted (or_empty_dir d) disk.executable)
