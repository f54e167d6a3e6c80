-- ===== src/Launch/Shim.antt =====
-- internal/shim/shim.go: `run`, up to the call of execReal, with the files, the agent, the terminal and
-- the random nonce of one invocation as its World.
pub mod Chain
pub mod Search
use jitenv.Base.{
  ℕ, Bool, true, false, not, ◌||◌, ◌&&◌, Option, none, some, List, [], ◌∷◌, ◌++◌, if◌then◌else◌,
  Text, codes, same, is_empty, Assoc, Result, ok, err, ◌>>=◌,
}
use jitenv.Paths.{dir, join_path}
use jitenv.Launch.Environment.{
  Env, getenv, warned_marker, injection_already_applied, should_inject, injected,
}
use jitenv.Launch.WrapDir.{
  Files, shell_dir_from_wrap, is_wrap_dir_shape, find_wrap_dir_in_path, look_path_excluding,
}
use jitenv.Launch.Warning.{Action, proceed, abort, unlock, Terminal, warn_and_wait}

pub record AgentPaths : Type 0 where
  pub shells : Text
  pub socket : Text

-- What one invocation meets: `none` is an error of agent.DefaultPaths, of the call FetchEnvCwd, of
-- unlock.Spawn with the call after it.
pub record World : Type 0 where
  pub files : Files
  pub env : Env
  pub arg0 : Text
  pub pid : ℕ
  pub ppid : ℕ
  pub paths : Option AgentPaths
  pub call : Text → Text → Option (Assoc Text)
  pub terminal : Terminal
  pub spawned : Option (Text → Text → Option (Assoc Text))
  pub fresh : Text
  pub can_mark : Text → Bool

pub data Fetched : Type 0 where
  agent_down : Fetched
  other_error : Fetched
  answered : Assoc Text → Fetched

pub data ShimError : Type 0 where
  not_found aborted : ShimError

-- the call of execReal, and the marker file that was written before it
pub record Launched : Type 0 where
  pub path : Text
  pub argv : List Text
  pub env : Env
  pub mark : Option Text

abbrev pub from_call : Option (Assoc Text) → Fetched
from_call none = agent_down
from_call (some vars) = answered vars

abbrev pub call_in : World → Text → Option Text → Fetched
call_in w cmd none = other_error
call_in w cmd (some pwd) = from_call (w.call pwd cmd)

abbrev pub fetch_at : World → Text → Option AgentPaths → Fetched
fetch_at w cmd none = other_error
fetch_at w cmd (some paths) =
    if not (w.files.exists paths.socket) then agent_down else call_in w cmd w.files.wd

-- fetchEnv
unfoldable pub fetch_env : World → Text → Fetched
fetch_env w cmd = fetch_at w cmd w.paths

abbrev pub unlocked_in :
    Text → Option (Text → Text → Option (Assoc Text)) → Option Text → Option (Assoc Text)
unlocked_in cmd none wd = none
unlocked_in cmd (some call) none = none
unlocked_in cmd (some call) (some pwd) = call pwd cmd

-- fetchAfterUnlock
unfoldable pub fetch_after_unlock : World → Text → Option (Assoc Text)
fetch_after_unlock w cmd = unlocked_in cmd w.spawned w.files.wd

abbrev pub after_choice : World → Text → Action → Result ShimError Fetched
after_choice w cmd abort = err aborted
after_choice w cmd unlock = ok (from_call (fetch_after_unlock w cmd))
after_choice w cmd proceed = ok agent_down

-- the fetch, with the prompt when the agent is down
abbrev pub after_prompt : World → Text → Fetched → Result ShimError Fetched
after_prompt w cmd agent_down =
    after_choice w cmd (warn_and_wait w.terminal (getenv w.env (codes "JITENV_HOOK_DELAY")))
after_prompt w cmd other_error = ok other_error
after_prompt w cmd (answered vars) = ok (answered vars)

unfoldable pub fetched : World → Text → Result ShimError Fetched
fetched w cmd = after_prompt w cmd (fetch_env w cmd)

abbrev pub marker_file : Text → Text
marker_file shell = join_path shell (codes "injected")

-- markerFileSays
unfoldable pub marker_file_says : World → Text → Bool
unfolding shell_dir_from_wrap join_path
marker_file_says w wrap =
    let shell = shell_dir_from_wrap wrap in
    if is_empty shell then false else w.files.exists (marker_file shell)

-- writeMarkerFile: the file that is there afterwards
unfoldable pub write_marker_file : World → Text → Option Text
unfolding shell_dir_from_wrap join_path
write_marker_file w wrap =
    let shell = shell_dir_from_wrap wrap in
    if is_empty shell then none else if w.can_mark shell then some (marker_file shell) else none

-- the environment for each outcome of the fetch
abbrev pub launched : World → Text → Text → List Text → Fetched → Launched
launched w self real argv agent_down = record {
  path = real;
  argv = argv;
  env = w.env ++ (warned_marker, codes "1") ∷ [];
  mark = write_marker_file w self;
}
launched w self real argv other_error = record {
  path = real;
  argv = argv;
  env = w.env;
  mark = none;
}
launched w self real argv (answered extra) = record {
  path = real;
  argv = argv;
  env = injected w.env extra w.fresh;
  mark = write_marker_file w self;
}

abbrev pub unchanged : World → Text → List Text → Launched
unchanged w real argv = record { path = real; argv = argv; env = w.env; mark = none }

abbrev pub or_else : Text → Text → Text
or_else [] b = b
or_else (x ∷ a) b = x ∷ a

abbrev pub shells_of : Option AgentPaths → Option Text
shells_of none = none
shells_of (some p) = some p.shells

-- the directory of the wrappers: from the environment, from argv[0], or recovered from PATH
unfoldable pub self_dir : World → Text
unfolding getenv dir is_wrap_dir_shape find_wrap_dir_in_path
self_dir w =
    let named = or_else (getenv w.env (codes "__JITENV_WRAP_DIR")) (dir w.arg0) in
    if not (is_wrap_dir_shape named)
    then or_else (find_wrap_dir_in_path w.files (shells_of w.paths) (getenv w.env (codes "PATH")))
        named
    else named

abbrev pub passes : World → Text → Bool
passes w self = injection_already_applied w.env || marker_file_says w self

abbrev pub asks : World → Bool
asks w =
    let already_warned = same (getenv w.env warned_marker) (codes "1") in
    should_inject w.env w.ppid w.pid && not already_warned

abbrev pub run_found : World → Text → Text → List Text → Option Text → Result ShimError Launched
run_found w self name args none = err not_found
run_found w self name args (some real) =
    if passes w self
    then ok (unchanged w real (name ∷ args))
    else if asks w
    then (do f ← fetched w name; ok (launched w self real (name ∷ args) f))
    else ok (unchanged w real (name ∷ args))

-- run
unfoldable pub run : World → Text → List Text → Result ShimError Launched
unfolding self_dir getenv look_path_excluding
run w name args =
    run_found w (self_dir w) name args
      (look_path_excluding w.files (getenv w.env (codes "PATH")) name (self_dir w))
