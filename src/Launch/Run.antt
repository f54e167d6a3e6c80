-- ===== src/Launch/Run.antt =====
-- internal/run/run.go: `jitenv run`, up to the call of replaceProcess.
use jitenv.Base.{
  not, Option, none, some, List, ◌∷◌, if◌then◌else◌, Text, codes, Assoc, Result, ok, err, ◌>>=◌,
}
use jitenv.Paths.{abs}
use jitenv.Launch.Environment.{Env, getenv, injection_already_applied, injected}
use jitenv.Launch.WrapDir.{Files}
use jitenv.Launch.Warning.{Action, proceed, abort, unlock, Terminal, warn_and_wait}

-- What the program meets: `none` is an error of agent.DefaultPaths, of FetchEnv, of unlock.Spawn.
pub record Setting : Type 0 where
  pub files : Files
  pub env : Env
  pub socket : Option Text
  pub call : Text → Option (Assoc Text)
  pub terminal : Terminal
  pub spawned : Option (Text → Option (Assoc Text))
  pub fresh : Text

pub data RunError : Type 0 where
  no_path no_file no_runtime aborted : RunError

pub record Replaced : Type 0 where
  pub path : Text
  pub argv : List Text
  pub env : Env

-- fetchAfterUnlock
abbrev pub unlocked : Text → Option (Text → Option (Assoc Text)) → Option (Assoc Text)
unlocked file none = none
unlocked file (some call) = call file

abbrev pub chosen : Setting → Text → Action → Result RunError (Option (Assoc Text))
chosen s file abort = err aborted
chosen s file unlock = ok (unlocked file s.spawned)
chosen s file proceed = ok none

abbrev pub or_warn : Setting → Text → Option (Assoc Text) → Result RunError (Option (Assoc Text))
or_warn s file (some extra) = ok (some extra)
or_warn s file none =
    chosen s file (warn_and_wait s.terminal (getenv s.env (codes "JITENV_HOOK_DELAY")))

-- fetchOrWarn: `none` if no agent answered
unfoldable pub fetch_or_warn : Setting → Text → Text → Result RunError (Option (Assoc Text))
fetch_or_warn s socket file = or_warn s file (if s.files.exists socket then s.call file else none)

abbrev pub env_for : Setting → Option (Assoc Text) → Env
env_for s none = s.env
env_for s (some extra) = injected s.env extra s.fresh

abbrev pub replaced : Setting → Text → List Text → Option (Assoc Text) → Replaced
replaced s file args extra = record { path = file; argv = file ∷ args; env = env_for s extra }

abbrev pub at_socket : Setting → Text → List Text → Option Text → Result RunError Replaced
at_socket s file args none = err no_runtime
at_socket s file args (some socket) = do
  extra ← fetch_or_warn s socket file
  ok (replaced s file args extra)

abbrev pub at_path : Setting → List Text → Option Text → Result RunError Replaced
at_path s args none = err no_path
at_path s args (some file) =
    if not (s.files.exists file)
    then err no_file
    else if injection_already_applied s.env
    then ok (record { path = file; argv = file ∷ args; env = s.env })
    else at_socket s file args s.socket

-- Run
unfoldable pub run_file : Setting → Text → List Text → Result RunError Replaced
unfolding abs
run_file s file args = at_path s args (abs s.files.wd file)
