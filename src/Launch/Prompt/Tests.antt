-- ===== src/Launch/Prompt/Tests.antt =====
-- Runs of the reconciliation and of a prompt, and the theorems at concrete inputs.
use jitenv.Base.{
  true, false, none, some, List, [], ◌∷◌, ok, ◌≡◌, refl, Text, codes, same, lookup, insert,
  contains_text,
}
use jitenv.Config.{Mapping}
use jitenv.Launch.Wrappers.{
  link, file, Dir, Beyond, is_entry_name, without, remove_joined, is_ours, remove, symlink,
  create_wrapper, sweep_step, sweep, add_step, add_missing, Disk, reconcile,
}
use jitenv.Launch.Prompt.{Prompt, Shell}

abbrev exe : Text
exe = codes "/u/jitenv"

-- no other name is met
abbrev beyond : Beyond
beyond = record {
  remove_at = λ name d. none;
  symlink_at = λ target name d. none;
  links_to = λ target name d. false;
}

abbrev disk : Disk
disk = record { can_read = true; can_make = true; executable = some exe; beyond = beyond }

-- a file in the way of a wrapper, and a wrapper that is not wanted
abbrev dir : Dir
dir = (codes "npm", file) ∷ (codes "old", link exe) ∷ []

abbrev wanted : List Text
wanted = codes "npm" ∷ []

reconcile_runs :
    (reconcile disk (some dir) wanted
      ≡ ok (some (record { dir = (codes "npm", link exe) ∷ []; changed = true })))
    × (reconcile disk (some ((codes "npm", link exe) ∷ [])) wanted
        ≡ ok (some (record { dir = (codes "npm", link exe) ∷ []; changed = false })))
    × (reconcile disk none [] ≡ ok none)
unfolding reconcile sweep sweep_step add_missing add_step create_wrapper remove_joined remove
    symlink is_ours is_entry_name without lookup insert same contains_text
reconcile_runs = (refl, refl, refl)

abbrev mapping : Mapping
mapping = record { path = []; glob = []; cwd_glob = codes "/w"; commands = wanted; vars = [] }

abbrev prompt : Prompt
prompt = record {
  host = record { home = none; wd = some (codes "/w"); glob_match = λ p s. some (same p s) };
  has_paths = true;
  resolved = true;
  mtime = 5;
  loaded = some (mapping ∷ []);
  disk = disk;
  can_unmark = true;
  can_write = true;
}

abbrev shell : Shell
shell = record { marker = true; last_mtime = 5; match_anchors = none; dir = some dir }
