-- ===== src/Config/Warnings/First.antt =====
-- The warnings, said without the map: each is of a variable and the first one before it of its name.
use jitenv.Base.{
  ℕ, ◌+◌, true, false, Option, none, some, List, [], ◌∷◌, ◌++◌, if◌then◌else◌, ◌≡◌, ◌∙◌, refl, sym,
  ap, arith, inl, inr, Bool-cases, Text, same, same_iff, is_empty, lookup, lookup-insert, length,
  length-append,
}
use jitenv.Config.{VarRef, Mapping, Config}
use jitenv.Config.Warnings.{
  Warning, warned, Seen, seen_with, var_warnings, mapping_warnings, warnings,
}

abbrev pub or_else : Option (ℕ × VarRef) → Option (ℕ × VarRef) → Option (ℕ × VarRef)
or_else none b = b
or_else (some a) b = some a

-- the first of the variables with the name, and its index, the indices starting at `i`
abbrev pub first_of : Text → ℕ → List VarRef → Option (ℕ × VarRef)
first_of name i [] = none
first_of name i (v ∷ vs) = if same v.name name then some (i, v) else first_of name (i + 1) vs

-- the warnings of the variables `vs` that stand behind `before`
abbrev pub collisions : ℕ → List VarRef → List VarRef → List Warning
collisions mi before [] = []
collisions mi before (v ∷ vs) =
    let rest = collisions mi (before ++ (v ∷ [])) vs in
    if is_empty v.name then rest else warned mi (length before) v (first_of v.name 0 before) ++ rest

abbrev pub all_collisions : ℕ → List Mapping → List Warning
all_collisions mi [] = []
all_collisions mi (m ∷ ms) = collisions mi [] m.vars ++ all_collisions (mi + 1) ms

-- The map has, for every name that is not empty, the first variable of the name.
abbrev Tracks : Seen → List VarRef → Type 0
Tracks first before =
    (name : Text) → is_empty name ≡ false → lookup name first ≡ first_of name 0 before

first_of-append :
    (name : Text) (i : ℕ) (vs : List VarRef) (v : VarRef)
    → first_of name i (vs ++ (v ∷ []))
      ≡ or_else (first_of name i vs) (if same v.name name then some (i + length vs, v) else none)
first_of-append name i [] v =
    ap (λ (k : ℕ). if same v.name name then some (k, v) else none) (omega arith)
first_of-append name i (w ∷ vs) v = elim (Bool-cases (same w.name name)) [
  | inl s ↦ rw s
  | inr s ↦ rw s (
      first_of-append name (i + 1) vs v
      ∙ ap
          (λ (k : ℕ).
            or_else (first_of name (i + 1) vs) (if same v.name name then some (k, v) else none))
          (omega arith))
]

or_else-none : (a : Option (ℕ × VarRef)) → or_else a none ≡ a
or_else-none none = refl
or_else-none (some a) = refl

-- a variable of another name does not change which is the first
first_of-other :
    (name : Text) (before : List VarRef) (v : VarRef)
    → same v.name name ≡ false
    → first_of name 0 (before ++ (v ∷ [])) ≡ first_of name 0 before
first_of-other name before v h =
    first_of-append name 0 before v ∙ rw h (or_else-none (first_of name 0 before))

ne_empty : (a name : Text) → is_empty a ≡ true → is_empty name ≡ false → same a name ≡ false
ne_empty a name e f = ground (arith, same_iff a name)

Tracks-skipped :
    (first : Seen) (before : List VarRef) (v : VarRef)
    → Tracks first before
    → is_empty v.name ≡ true
    → Tracks first (before ++ (v ∷ []))
Tracks-skipped first before v h e name f =
    h name f ∙ sym (first_of-other name before v (ne_empty v.name name e f))

Tracks-seen :
    (first : Seen) (before : List VarRef) (v : VarRef) (o : Option (ℕ × VarRef))
    → Tracks first before
    → first_of v.name 0 before ≡ o
    → Tracks (seen_with (length before) v first o) (before ++ (v ∷ []))
Tracks-seen first before v (some x) h e name f = elim (Bool-cases (same v.name name)) [
  | inr s ↦ h name f ∙ sym (first_of-other name before v s)
  | inl s ↦
      let found : first_of name 0 before ≡ some x =
        ap (λ n. first_of n 0 before) (sym ((same_iff v.name name).0 s)) ∙ e in
      h name f ∙ found ∙ sym (first_of-append name 0 before v ∙ rw found)
]
Tracks-seen first before v none h e name f = elim (Bool-cases (same v.name name)) [
  | inr s ↦
      lookup-insert v.name name (length before, v) first
      ∙ rw s (h name f ∙ sym (first_of-other name before v s))
  | inl s ↦
      let unfound : first_of name 0 before ≡ none =
        ap (λ n. first_of n 0 before) (sym ((same_iff v.name name).0 s)) ∙ e in
      lookup-insert v.name name (length before, v) first
      ∙ sym (
          first_of-append name 0 before v
          ∙ rw (unfound, s) (ap (λ (k : ℕ). some (k, v)) (omega arith)))
]

var_warnings_lem :
    (mi : ℕ) (before vs : List VarRef) (first : Seen)
    → Tracks first before
    → var_warnings mi (length before) first vs ≡ collisions mi before vs
unfolding var_warnings
var_warnings_lem mi before [] first h = refl
var_warnings_lem mi before (v ∷ vs) first h =
    let longer : length before + 1 ≡ length (before ++ (v ∷ [])) =
      sym (length-append before (v ∷ [])) in
    elim (Bool-cases (is_empty v.name)) [
      | inl e ↦
          rw (e, longer)
            (var_warnings_lem mi (before ++ (v ∷ [])) vs first (Tracks-skipped first before v h e))
      | inr e ↦
          rw (e, h v.name e, longer)
            (ap
              (λ (ws : List Warning). warned mi (length before) v (first_of v.name 0 before) ++ ws)
              (var_warnings_lem mi (before ++ (v ∷ [])) vs
                (seen_with (length before) v first (first_of v.name 0 before))
                (Tracks-seen first before v (first_of v.name 0 before) h refl)))
    ]

mapping_warnings_lem : (mi : ℕ) (ms : List Mapping) → mapping_warnings mi ms ≡ all_collisions mi ms
unfolding mapping_warnings lookup
mapping_warnings_lem mi [] = refl
mapping_warnings_lem mi (m ∷ ms) =
    rw (var_warnings_lem mi [] m.vars [] (λ name f. refl), mapping_warnings_lem (mi + 1) ms)

-- Warnings gives one warning for each variable with a name that a variable before it in the mapping
-- has: with the first one of that name, in the order of the mappings and of their variables.
pub warnings-all_collisions : (c : Config) → warnings c ≡ all_collisions 0 c.mappings
unfolding warnings
warnings-all_collisions c = mapping_warnings_lem 0 c.mappings
