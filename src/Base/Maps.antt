-- ===== src/Base/Maps.antt =====
-- Go maps with string keys, as association lists: the list's order stands for the order in which
-- a `range` visits the keys.
use mathlib.Core.Path.{◌≡◌, refl}
use mathlib.Core.Option.{Option, none, some}
use mathlib.Core.List.{List, [], ◌∷◌}
use native.Mathlib.Omega.{arith}
use jitenv.Base.Tests.{if◌then◌else◌}
use jitenv.Base.Strings.{Text, same, same_iff}

abbrev pub Assoc {ℓ} : Type ℓ → Type ℓ
Assoc V = List (Text × V)

module _ {ℓ} {V : Type ℓ} where
  unfoldable pub lookup : Text → Assoc V → Option V
  lookup k [] = none
  lookup k ((j, v) ∷ m) = if same j k then some v else lookup k m

  -- m[k] = v
  unfoldable pub insert : Text → V → Assoc V → Assoc V
  insert k v [] = (k, v) ∷ []
  insert k v ((j, w) ∷ m) = if same j k then (j, v) ∷ m else (j, w) ∷ insert k v m

  -- m[key] after m[set] = new
  pub lookup-insert :
      (set key : Text) (new : V) (m : Assoc V)
      → lookup key (insert set new m) ≡ (if same set key then some new else lookup key m)
  unfolding lookup insert
  lookup-insert set key new [] = refl
  lookup-insert set key new ((at, old) ∷ rest) =
      ground
        (arith, same_iff at key, same_iff at set, same_iff set key, lookup-insert set key new rest)
