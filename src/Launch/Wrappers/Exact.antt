-- ===== src/Launch/Wrappers/Exact.antt =====
-- After the reconciliation the directory has exactly the wanted wrappers.
use jitenv.Base.{
  Bool, true, not, ◌&&◌, none, some, List, if◌then◌else◌, ◌≡◌, ◌≢◌, Text, same, contains_text,
  lookup, All,
}
use jitenv.Launch.Wrappers.{link, stuck, Dir, is_entry_name}

-- Every entry can be removed.
abbrev pub Movable : Dir → Type 0
Movable d = (name : Text) → lookup name d ≢ some stuck

-- what one step of the sweep takes away
abbrev drops : List Text → Text → Text → Bool
drops wanted name k = same name k && not (contains_text wanted k)

-- what the sweep takes away
abbrev swept : List Text → List Text → Text → Bool
swept wanted listed k = contains_text listed k && not (contains_text wanted k)

-- A wrapper for the program was put in the directory.
abbrev Adds : Text → (Text → Bool) → Dir → Dir → Type 0
Adds exe test d d' = (k : Text) → lookup k d' ≡ (if test k then some (link exe) else lookup k d)

-- Each is the name of an entry of a directory.
abbrev pub AreEntryNames : List Text → Type 0
AreEntryNames = All (λ name. is_entry_name name ≡ true)

-- The directory has the wanted wrappers and nothing else.
abbrev pub IsSettled : Text → Dir → List Text → Type 0
IsSettled exe d wanted =
    (k : Text) → lookup k d ≡ (if contains_text wanted k then some (link exe) else none)
