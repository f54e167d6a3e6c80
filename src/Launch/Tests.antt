-- ===== src/Launch/Tests.antt =====
-- Runs of the wrapper, and the theorems at concrete inputs.
use jitenv.Base.{
  ◌++◌, Bool, true, false, ◌||◌, ◌&&◌, if◌then◌else◌, none, some, [], ◌∷◌, ok, ◌≡◌, refl, inr, Text,
  codes, same, Assoc, lookup, split, atoi,
}
use jitenv.Paths.{clean, dir, base, abs, join_path, split_list}
use jitenv.Launch.Environment.{
  Env, getenv, has_key, started_after, started, warned_marker, injected_marker, session_nonce,
  injection_already_applied, should_inject, stamped, injected,
}
use jitenv.Launch.WrapDir.{
  Files, shell_dir_from_wrap, is_wrap_dir_shape, find_executable_in_dir, look_in,
  look_path_excluding,
}
use jitenv.Launch.Warning.{interrupted, tick, key, countdown, warn_and_wait}
use jitenv.Launch.Shim.{
  World, agent_down, Launched, fetch_env, fetched, marker_file_says, write_marker_file, self_dir,
  passes, asks, run,
}
use jitenv.Launch.Shim.Chain.{IsMarked, Injects, run-chain, run-declined}
use jitenv.Launch.Shim.Search.{Holds, look_path_excluding-Holds}

-- one wrapper directory, and the real npm behind it
abbrev real_npm : Text
real_npm = codes "/u/npm"

abbrev files : Files
files = record {
  wd = some (codes "/w");
  exists = λ p. same p real_npm;
  is_dir = λ p. false;
  is_executable = λ p. true;
}

abbrev env : Env
env = (codes "PATH", codes "/r/7/bin:/u") ∷ (codes "__JITENV_WRAP_DIR", codes "/r/7/bin") ∷ []

search_runs :
    (look_path_excluding files (codes "/r/7/bin:/u") (codes "npm") (codes "/r/7/bin")
      ≡ some real_npm)
    × (look_path_excluding files (codes "/r/7/bin") (codes "npm") (codes "/r/7/bin") ≡ none)
    × (is_wrap_dir_shape (codes "/r/7/bin/") ≡ true)
    × (is_wrap_dir_shape (codes "/usr/bin") ≡ false)
unfolding look_path_excluding look_in find_executable_in_dir split_list split abs clean join_path
    same is_wrap_dir_shape base dir atoi
search_runs = (refl, refl, refl, refl)

look_path_excluding-Holds_example :
    Holds files (split_list (codes "/r/7/bin:/u")) (codes "npm") (codes "/r/7/bin") real_npm
unfolding abs clean same
look_path_excluding-Holds_example =
    look_path_excluding-Holds files (codes "/r/7/bin:/u") (codes "npm") (codes "/r/7/bin")
      (codes "/r/7/bin") real_npm refl refl search_runs.0

abbrev world : Bool → Env → World
world up given = record {
  files = record files { exists = λ p. same p real_npm || up && same p (codes "/r/agent.sock") };
  env = given;
  arg0 = codes "npm";
  pid = 9;
  ppid = 7;
  paths = some (record { shells = codes "/r"; socket = codes "/r/agent.sock" });
  call = λ pwd cmd. if same cmd (codes "npm") then some ((codes "A", codes "1") ∷ []) else none;
  terminal = record {
    is_tty = true;
    raw_fails = false;
    line = interrupted;
    events = tick ∷ key b'x' ∷ [];
  };
  spawned = none;
  fresh = codes "n1";
  can_mark = λ d. true;
}

abbrev extra : Assoc Text
extra = (codes "A", codes "1") ∷ []

injects : Injects (world true env) (codes "npm") real_npm extra
unfolding look_path_excluding look_in find_executable_in_dir split_list split abs clean join_path
    same is_wrap_dir_shape base dir atoi getenv lookup self_dir shell_dir_from_wrap marker_file_says
    injection_already_applied should_inject fetched fetch_env
injects = record {
  found = refl;
  first = refl;
  typed = refl;
  answer = refl;
  unmarked = refl;
  unnamed = refl;
  nonce = inr (refl, refl, refl);
}

abbrev passed : Env
passed =
    env ++ (codes "A", codes "1") ∷ (session_nonce, codes "n1") ∷ (injected_marker, codes "n1") ∷ []

abbrev first_launch : Launched
first_launch = record {
  path = real_npm;
  argv = codes "npm" ∷ codes "ci" ∷ [];
  env = passed;
  mark = some (codes "/r/7/injected");
}

first_run : run (world true env) (codes "npm") (codes "ci" ∷ []) ≡ ok first_launch
unfolding run look_path_excluding look_in find_executable_in_dir split_list split abs clean
    join_path same is_wrap_dir_shape base dir atoi getenv lookup self_dir shell_dir_from_wrap
    marker_file_says injection_already_applied should_inject fetched fetch_env injected stamped
    write_marker_file
first_run = refl

-- npm starts npm
next_found :
    look_path_excluding
      (world true (started passed)).files
      (getenv (started passed) (codes "PATH"))
      (codes "npm")
      (self_dir (world true (started passed)))
    ≡ some real_npm
unfolding look_path_excluding look_in find_executable_in_dir split_list split abs clean join_path
    same is_wrap_dir_shape base dir atoi getenv lookup self_dir started started_after has_key
next_found = refl

run-chain_example :
    (run (world true (started passed)) (codes "npm") []
      ≡ ok (record { path = real_npm; argv = codes "npm" ∷ []; env = started passed; mark = none }))
    × IsMarked (started passed)
run-chain_example =
    run-chain (world true env) (world true (started passed)) (codes "npm") real_npm (codes "npm")
      real_npm (codes "ci" ∷ []) [] extra first_launch injects first_run refl next_found

abbrev declined : Env
declined = env ++ (warned_marker, codes "1") ∷ []

abbrev declined_launch : Launched
declined_launch = record {
  path = real_npm;
  argv = codes "npm" ∷ [];
  env = declined;
  mark = some (codes "/r/7/injected");
}

down_found :
    look_path_excluding
      (world false env).files
      (getenv env (codes "PATH"))
      (codes "npm")
      (self_dir (world false env))
    ≡ some real_npm
unfolding look_path_excluding look_in find_executable_in_dir split_list split abs clean join_path
    same is_wrap_dir_shape base dir atoi getenv lookup self_dir
down_found = refl

down_runs :
    (passes (world false env) (self_dir (world false env)) ≡ false)
    × (asks (world false env) ≡ true)
    × (fetched (world false env) (codes "npm") ≡ ok agent_down)
    × (lookup warned_marker env ≡ none)
unfolding look_path_excluding look_in find_executable_in_dir split_list split abs clean join_path
    same is_wrap_dir_shape base dir atoi getenv lookup self_dir shell_dir_from_wrap marker_file_says
    injection_already_applied should_inject fetched fetch_env warn_and_wait countdown
down_runs = (refl, refl, refl, refl)

down_run : run (world false env) (codes "npm") [] ≡ ok declined_launch
unfolding run look_path_excluding look_in find_executable_in_dir split_list split abs clean
    join_path same is_wrap_dir_shape base dir atoi getenv lookup self_dir shell_dir_from_wrap
    marker_file_says injection_already_applied should_inject fetched fetch_env warn_and_wait
    countdown write_marker_file
down_run = refl

down_next :
    look_path_excluding
      (world false (started declined)).files
      (getenv (started declined) (codes "PATH"))
      (codes "npm")
      (self_dir (world false (started declined)))
    ≡ some real_npm
unfolding look_path_excluding look_in find_executable_in_dir split_list split abs clean join_path
    same is_wrap_dir_shape base dir atoi getenv lookup self_dir started started_after has_key
down_next = refl

run-declined_example :
    (declined ≡ env ++ (warned_marker, codes "1") ∷ [])
    × (run (world false (started declined)) (codes "npm") []
        ≡ ok (record {
          path = real_npm;
          argv = codes "npm" ∷ [];
          env = started declined;
          mark = none;
        }))
run-declined_example =
    run-declined (world false env) (world false (started declined)) (codes "npm") real_npm
      (codes "npm") real_npm [] [] declined_launch down_found down_runs.0 down_runs.1 down_runs.2
      down_runs.3 down_run refl down_next
