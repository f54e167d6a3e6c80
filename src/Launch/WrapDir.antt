-- ===== src/Launch/WrapDir.antt =====
-- internal/shim/shim.go: which directory holds the wrappers, and the search for the real command past
-- it. What os.Stat tells of a path is a function; `none` for the working directory is an error of it.
use jitenv.Base.{
  Bool, true, false, not, ◌||◌, ◌&&◌, Option, none, some, List, [], ◌∷◌, ◌++◌, if◌then◌else◌, Text,
  codes, same, is_empty, any, has_prefix, atoi,
}
use jitenv.Paths.{slash, is_slash, dot, clean, dir, base, abs, join_path, split_list}
use jitenv.Launch.Environment.{positive}

-- the files, as os.Stat finds them
pub record Files : Type 0 where
  pub wd : Option Text
  pub exists : Text → Bool
  pub is_dir : Text → Bool
  pub is_executable : Text → Bool

-- shellDirFromWrap
unfoldable pub shell_dir_from_wrap : Text → Text
unfolding base clean dir
shell_dir_from_wrap wrap =
    if is_empty wrap
    then []
    else if not (same (base (clean wrap)) (codes "bin"))
    then []
    else dir (clean wrap)

abbrev pub is_some {ℓ} : {A : Type ℓ} → Option A → Bool
is_some none = false
is_some (some a) = true

-- isWrapDirShape
unfoldable pub is_wrap_dir_shape : Text → Bool
unfolding base clean dir atoi
is_wrap_dir_shape p =
    let pid_part = base (dir (clean p)) in
    if is_empty p
    then false
    else if not (same (base (clean p)) (codes "bin"))
    then false
    else if same pid_part dot || same pid_part (slash ∷ []) || is_empty pid_part
    then false
    else is_some (positive (atoi pid_part))

-- the tests of one entry of PATH, made absolute
unfoldable pub is_recovered : Files → Text → Text → Bool
unfolding has_prefix is_wrap_dir_shape
is_recovered files shells a =
    if not (has_prefix (a ++ slash ∷ []) (shells ++ slash ∷ [])) || same a shells
    then false
    else if not (is_wrap_dir_shape a)
    then false
    else files.exists a && files.is_dir a

abbrev pub recovered_or : Files → Text → Option Text → Text → Text
recovered_or files shells none rest = rest
recovered_or files shells (some a) rest = if is_recovered files shells a then a else rest

unfoldable pub find_in : Files → Text → List Text → Text
unfolding abs is_recovered
find_in files shells [] = []
find_in files shells (d ∷ ds) =
    let rest = find_in files shells ds in
    if is_empty d then rest else recovered_or files shells (abs files.wd d) rest

abbrev pub find_under : Files → List Text → Option Text → Text
find_under files ds none = []
find_under files ds (some shells) = find_in files shells ds

-- findWrapDirInPath: `none` for the shells directory is an error of DefaultPaths
unfoldable pub find_wrap_dir_in_path : Files → Option Text → Text → Text
unfolding find_in abs split_list
find_wrap_dir_in_path files none path = []
find_wrap_dir_in_path files (some shells) path =
    find_under files (split_list path) (abs files.wd shells)

-- findExecutableInDir
unfoldable pub find_executable_in_dir : Files → Text → Text → Option Text
unfolding join_path
find_executable_in_dir files d name =
    let candidate = join_path d name in
    if not (files.exists candidate) || files.is_dir candidate
    then none
    else if not (files.is_executable candidate)
    then none
    else some candidate

abbrev pub candidate_or : Option Text → Option Text → Option Text
candidate_or none rest = rest
candidate_or (some c) rest = some c

abbrev pub found_or : Files → Text → Text → Text → Option Text → Option Text → Option Text
found_or files name exclude d none rest = rest
found_or files name exclude d (some a) rest =
    if same a exclude then rest else candidate_or (find_executable_in_dir files d name) rest

unfoldable pub look_in : Files → Text → Text → List Text → Option Text
unfolding abs find_executable_in_dir
look_in files name exclude [] = none
look_in files name exclude (d ∷ ds) =
    let rest = look_in files name exclude ds in
    if is_empty d then rest else found_or files name exclude d (abs files.wd d) rest

abbrev pub or_empty : Option Text → Text
or_empty none = []
or_empty (some a) = a

-- lookPathExcluding
unfoldable pub look_path_excluding : Files → Text → Text → Text → Option Text
unfolding look_in abs split_list
look_path_excluding files path name exclude =
    if any is_slash name
    then some name
    else look_in files name (or_empty (abs files.wd exclude)) (split_list path)
