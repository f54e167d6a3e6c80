-- ===== src/Paths.antt =====
-- Package path of the Go library, and path/filepath on Unix, where it is the same: Clean, Dir, Join
-- and Abs, which internal/config and internal/shim call.
pub mod Segments
pub mod Shrink
use jitenv.Base.{
  ℕ, Bool, true, false, not, ◌&&◌, ◌||◌, Option, none, some, List, [], ◌∷◌, ◌++◌, reverse, ◌==◌,
  if◌then◌else◌, Text, codes, same, is_empty, split, join, trim_right,
}

abbrev pub slash : ℕ
slash = b'/'

abbrev pub is_slash : ℕ → Bool
is_slash c = c == slash

abbrev pub not_slash : ℕ → Bool
not_slash c = not (c == slash)

abbrev pub dot : Text
dot = codes "."

abbrev pub dot_dot : Text
dot_dot = codes ".."

-- filepath.IsAbs
abbrev pub is_abs : Text → Bool
is_abs [] = false
is_abs (c ∷ cs) = c == slash

-- `..` after the elements on the stack, the last one first
pub pop : Bool → List Text → List Text
pop rooted [] = if rooted then [] else dot_dot ∷ []
pop rooted (w ∷ ws) = if same w dot_dot then dot_dot ∷ w ∷ ws else ws

pub clean_step : Bool → Text → List Text → List Text
unfolding pop
clean_step rooted w out =
    if is_empty w || same w dot then out else if same w dot_dot then pop rooted out else w ∷ out

pub clean_elements : Bool → List Text → List Text → List Text
unfolding clean_step
clean_elements rooted [] out = out
clean_elements rooted (w ∷ ws) out = clean_elements rooted ws (clean_step rooted w out)

abbrev pub print_path : Bool → List Text → Text
print_path true ws = slash ∷ join slash ws
print_path false [] = dot
print_path false (w ∷ ws) = join slash (w ∷ ws)

-- path.Clean
unfoldable pub clean : Text → Text
unfolding clean_elements split join
clean p = print_path (is_abs p) (reverse (clean_elements (is_abs p) (split slash p) []))

-- path.Dir: what precedes the last slash, and the slash
unfoldable pub dir : Text → Text
unfolding clean trim_right
dir p = clean (trim_right not_slash p)

-- filepath.Base: the last element, without the slashes at the end
abbrev pub last_of : List Text → Text
last_of [] = []
last_of (w ∷ []) = w
last_of (w ∷ v ∷ ws) = last_of (v ∷ ws)

abbrev pub or_slash : Text → Text
or_slash [] = slash ∷ []
or_slash (c ∷ w) = c ∷ w

unfoldable pub base : Text → Text
unfolding split trim_right
base p = if is_empty p then dot else or_slash (last_of (split slash (trim_right is_slash p)))

-- filepath.SplitList, with the colon of Unix
unfoldable pub split_list : Text → List Text
unfolding split
split_list p = if is_empty p then [] else split b':' p

-- filepath.Join of two elements
unfoldable pub join_path : Text → Text → Text
unfolding clean
join_path a b = if is_empty a then (if is_empty b then [] else clean b) else clean (a ++ slash ∷ b)

-- filepath.Abs, from what os.Getwd returns; `none` is its error
unfoldable pub abs : Option Text → Text → Option Text
unfolding clean join_path
abs wd p =
    if is_abs p then some (clean p) else elim wd [ none ↦ none | some d ↦ some (join_path d p) ]
