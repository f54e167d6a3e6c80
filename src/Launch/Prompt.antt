-- ===== src/Launch/Prompt.antt =====
-- internal/chpwd/chpwd.go: what runs at every prompt of a shell, over the files that belong to the shell.
-- A time is a number, zero for a file that is missing or not read.
pub mod Follows
mod Tests
use jitenv.Base.{
  ℕ, Bool, true, false, not, ◌&&◌, Option, none, some, List, [], ◌∷◌, ◌++◌, ◌==◌, if◌then◌else◌,
  Text, same, is_empty, Result, ok, err, Parsed, atoi,
}
use jitenv.Config.{Mapping}
use jitenv.Config.Index.{Host, Index, new_index, cwd_commands, anchors}
use jitenv.Launch.Environment.{positive}
use jitenv.Launch.Wrappers.{Dir, State, ReconcileError, no_wrapper, Disk, reconcile}

-- What one prompt meets: whether agent.DefaultPaths and config.Resolve succeed, the time of the
-- configuration's file, its mappings (`none` is an error of config.Load), the disk, whether the marker
-- can be removed, and whether the sidecars are written.
pub record Prompt : Type 0 where
  pub host : Host
  pub has_paths : Bool
  pub resolved : Bool
  pub mtime : ℕ
  pub loaded : Option (List Mapping)
  pub disk : Disk
  pub can_unmark : Bool
  pub can_write : Bool

-- the files of the shell: the marker of the wrappers, the two sidecars, and the directory of the wrappers
pub record Shell : Type 0 where
  pub marker : Bool
  pub last_mtime : ℕ
  pub match_anchors : Option Text
  pub dir : Option Dir

-- the records of the anchors, with their letter
pub framed : ℕ → List Text → Text
framed letter [] = []
framed letter (p ∷ ps) = letter ∷ 0 ∷ (p ++ (0 ∷ framed letter ps))

abbrev pub anchor_bytes : List Text × List Text → Text
anchor_bytes (exact, prefixes) = framed b'E' exact ++ framed b'P' prefixes

abbrev pub bytes_of : Option Index → Text
bytes_of none = []
bytes_of (some idx) = anchor_bytes (anchors idx)

-- writeAnchors
unfoldable pub write_anchors : Prompt → Option Index → Shell → Shell
unfolding framed
write_anchors p idx s = if p.can_write then record s { match_anchors = some (bytes_of idx) } else s

unfoldable pub write_last_mtime : Prompt → Shell → Shell
write_last_mtime p s = if p.can_write then record s { last_mtime = p.mtime } else s

abbrev pub commands_of : Host → List Mapping → Text → List Text
commands_of host ms pwd = if is_empty ms then [] else cwd_commands host (new_index host ms) pwd

-- desiredCommandsFor: the commands and the index
unfoldable pub desired_commands_for : Prompt → Text → Option (List Text × Index)
desired_commands_for p pwd = if p.resolved then of_loaded p.loaded else none
  where
    of_loaded : Option (List Mapping) → Option (List Text × Index)
    of_loaded none = none
    of_loaded (some ms) = some (commands_of p.host ms pwd, new_index p.host ms)

pub data PromptError : Type 0 where
  usage bad_pid no_paths : PromptError
  not_reconciled : ReconcileError → PromptError

-- the directory that an error of `reconcile` leaves
abbrev pub left_by : ReconcileError → Option Dir → Option Dir
left_by (no_wrapper s) d = some s.dir
left_by _ d = d

abbrev pub settled_by : Option State → Option Dir → Option Dir
settled_by none d = d
settled_by (some s) d = some s.dir

abbrev pub is_changed : Option State → Bool
is_changed none = false
is_changed (some s) = s.changed

abbrev pub reconciled :
    Prompt → Shell → Result ReconcileError (Option State) → Shell × Result PromptError Bool
reconciled p s (err e) = (record s { dir = left_by e s.dir }, err (not_reconciled e))
reconciled p s (ok r) =
    (write_last_mtime p (record s { dir = settled_by r s.dir }), ok (is_changed r))

abbrev pub refreshed : Prompt → Shell → Option (List Text × Index) → Shell × Result PromptError Bool
refreshed p s none = (write_anchors p none s, ok false)
refreshed p s (some (wanted, idx)) =
    let s' = write_anchors p (some idx) s in reconciled p s' (reconcile p.disk s'.dir wanted)

-- the marker is removed if it can be: an error of os.Remove is only logged
abbrev pub unmarked : Prompt → Shell → Shell
unmarked p s = record s { marker = if p.can_unmark then false else s.marker }

-- the part of Run behind its arguments and the removal of the marker
abbrev pub prompted : Prompt → Shell → Text → Text → Shell × Result PromptError Bool
prompted p s old_pwd new_pwd =
    if p.resolved && same old_pwd new_pwd && not (s.last_mtime == 0) && p.mtime == s.last_mtime
    then (s, ok false)
    else refreshed p s (desired_commands_for p new_pwd)

abbrev pub at_pid : Prompt → Shell → Text → Text → Option ℕ → Shell × Result PromptError Bool
at_pid p s old_pwd new_pwd none = (s, err bad_pid)
at_pid p s old_pwd new_pwd (some pid) =
    if not p.has_paths then (s, err no_paths) else prompted p (unmarked p s) old_pwd new_pwd

-- Run, on the files of the shell that the first argument names
unfoldable pub run_prompt : Prompt → Shell → List Text → Shell × Result PromptError Bool
unfolding write_anchors write_last_mtime desired_commands_for reconcile
run_prompt p s (pid ∷ old_pwd ∷ new_pwd ∷ args) = at_pid p s old_pwd new_pwd (positive (atoi pid))
run_prompt p s _ = (s, err usage)
