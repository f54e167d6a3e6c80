-- ===== src/Launch/Prompt/Follows.antt =====
-- The wrappers of a shell follow the configuration and its directory.
use jitenv.Base.{true, false, some, List, ◌≡◌, Text}
use jitenv.Config.{Mapping}
use jitenv.Config.Index.{Index, new_index, anchors}
use jitenv.Launch.Wrappers.{Dir}
use jitenv.Launch.Prompt.{Prompt, Shell, anchor_bytes, bytes_of}

-- The prompt can read the configuration and its files, and change them.
pub record CanFollow (p : Prompt) (ms : List Mapping) (exe : Text) : Type 0 where
  pub has_paths : p.has_paths ≡ true
  pub resolved : p.resolved ≡ true
  pub loaded : p.loaded ≡ some ms
  pub can_read : p.disk.can_read ≡ true
  pub can_make : p.disk.can_make ≡ true
  pub executable : p.disk.executable ≡ some exe
  pub can_unmark : p.can_unmark ≡ true
  pub can_write : p.can_write ≡ true

abbrev pub followed : Prompt → List Mapping → Dir → Shell
followed p ms d = record {
  marker = false;
  last_mtime = p.mtime;
  match_anchors = some (anchor_bytes (anchors (new_index p.host ms)));
  dir = some d;
}

-- the shell before the time is noted
abbrev followed_but : Prompt → List Mapping → Dir → Shell → Shell
followed_but p ms d s = record s {
  match_anchors = some (bytes_of (some (new_index p.host ms)));
  dir = some d;
}
