-- ===== src/Launch/Environment.antt =====
-- internal/shim/shim.go and internal/run/run.go: the environment, the markers that travel in it along a
-- chain of programs, and what a Go program sees of the list that execve was given.
use jitenv.Base.{
  ℕ, zero, suc, Bool, true, false, not, ◌||◌, Option, none, some, List, [], ◌∷◌, ◌++◌, ◌==◌,
  if◌then◌else◌, Text, codes, same, is_empty, Assoc, lookup, length, Parsed, number, atoi,
}

-- one entry `key=value` after the other, in the order of the list
abbrev pub Env : Type 0
Env = Assoc Text

-- os.Getenv: the first entry of the key, or the empty string
abbrev pub or_blank : Option Text → Text
or_blank none = []
or_blank (some v) = v

unfoldable pub getenv : Env → Text → Text
unfolding lookup
getenv env key = or_blank (lookup key env)

-- What os.Environ gives in a program that was started with the list: the first entry of each key.
unfoldable pub has_key : List Text → Text → Bool
has_key [] k = false
has_key (j ∷ js) k = same j k || has_key js k

unfoldable pub started_after : List Text → Env → Env
unfolding has_key
started_after seen [] = []
started_after seen ((k, v) ∷ env) =
    let rest = started_after (k ∷ seen) env in if has_key seen k then rest else (k, v) ∷ rest

unfoldable pub started : Env → Env
started env = started_after [] env

abbrev pub warned_marker : Text
warned_marker = codes "__JITENV_AGENT_WARNED"

abbrev pub injected_marker : Text
injected_marker = codes "__JITENV_INJECTED"

abbrev pub session_nonce : Text
session_nonce = codes "__JITENV_SESSION_NONCE"

-- the loop over the bytes, which keeps whether any differed
abbrev pub differs : Bool → Text → Text → Bool
differs diff (x ∷ xs) (y ∷ ys) = differs (diff || not (x == y)) xs ys
differs diff _ _ = diff

-- constantTimeEq, subtleCompare
unfoldable pub constant_time_eq : Text → Text → Bool
constant_time_eq a b = if not (length a == length b) then false else not (differs false a b)

-- injectionAlreadyApplied
unfoldable pub injection_already_applied : Env → Bool
unfolding getenv
injection_already_applied env =
    if is_empty (getenv env injected_marker)
    then false
    else if is_empty (getenv env session_nonce)
    then false
    else constant_time_eq (getenv env injected_marker) (getenv env session_nonce)

-- the positive numbers of Atoi
abbrev pub positive : Parsed → Option ℕ
positive (number false zero) = none
positive (number false (suc n)) = some (suc n)
positive _ = none

abbrev pub is_process : ℕ → ℕ → Option ℕ → Bool
is_process ppid pid none = true
is_process ppid pid (some want) = ppid == want || pid == want

-- shouldInject, for the numbers of the parent and of the process itself
unfoldable pub should_inject : Env → ℕ → ℕ → Bool
unfolding getenv atoi
should_inject env ppid pid =
    let raw = getenv env (codes "__JITENV_SHELL_PID") in
    if is_empty raw then true else is_process ppid pid (positive (atoi raw))

-- What is appended when the agent answered: the variables, a nonce where the shell gave none, and
-- the marker.
unfoldable pub stamped : Env → Text → Env
unfolding getenv
stamped env fresh =
    if is_empty (getenv env session_nonce)
    then (session_nonce, fresh) ∷ (injected_marker, fresh) ∷ []
    else (injected_marker, getenv env session_nonce) ∷ []

unfoldable pub injected : Env → Assoc Text → Text → Env
injected env extra fresh = env ++ (extra ++ stamped env fresh)
