-- ===== src/Config/Assigning/Prior.antt =====
-- What the dictionary of the last save gives the next one: maps back from names, whose identifiers have
-- the prefix of their kind and are in use.
use jitenv.Base.{
  true, false, some, List, [], ◌∷◌, ◌++◌, ◌≡◌, ◌∙◌, refl, arith, inl, inr, Bool-cases, Text, same,
  same_iff, has_prefix, Assoc, lookup, contains_text, contains_text-append, All,
}
use jitenv.Config.Ids.{NameMap, name_to_id, id_prefix_source, id_prefix_bag, id_prefix_key}
use jitenv.Config.Renaming.{keys_in}
use jitenv.Config.Renaming.Equal.{HasMaps}
use jitenv.Config.Rekeyed.Back.{IsDistinct}
use jitenv.Config.Assigning.{keys_of, all_keys_of, all_ids}
use jitenv.Config.Assigning.Stable.{IsPrior}
use jitenv.Config.Assigning.Sources.{IsMap, name_to_id-IsReverse, reverse-IsPrior}

-- Every identifier of the map has the prefix.
abbrev pub HasPrefix : Text → Assoc Text → Type 0
HasPrefix prefix m = All (λ p. has_prefix p.0 prefix ≡ true) m

-- A dictionary of Go maps, whose identifiers have the prefix of their kind.
pub record IsDictionary (nm : NameMap) : Type 0 where
  pub maps : HasMaps nm
  pub sources : HasPrefix id_prefix_source nm.sources
  pub bags : HasPrefix id_prefix_bag nm.bags
  pub keys : All (λ p. HasPrefix id_prefix_key p.1) nm.keys

weaker :
    (k v : Text) (m l : Assoc Text)
    → contains_text (keys_of l) k ≡ false
    → All (λ p. lookup p.0 m ≡ some p.1) l
    → All (λ p. lookup p.0 ((k, v) ∷ m) ≡ some p.1) l
unfolding lookup contains_text
weaker k v m [] h a = tt
weaker k v m ((j, w) ∷ l) h a =
    let apart : same k j ≡ false = ground (arith, same_iff k j, same_iff j k) in
    (rw apart a.0, weaker k v m l (ground arith) a.1)

pub IsDistinct-IsMap : (m : Assoc Text) → IsDistinct (keys_of m) → IsMap m
unfolding lookup
IsDistinct-IsMap [] d = tt
IsDistinct-IsMap ((k, v) ∷ m) d =
    (rw ((same_iff k k).1 refl), weaker k v m m d.0 (IsDistinct-IsMap m d.1))

-- what holds of the keys of each bag holds of those of this one
pub keys_in-All :
    (Q : Assoc Text → Type 0) (bag : Text) (m : Assoc (Assoc Text))
    → Q []
    → All (λ p. Q p.1) m
    → Q (keys_in bag m)
unfolding lookup
keys_in-All Q bag [] e a = e
keys_in-All Q bag ((j, w) ∷ m) e a = elim (Bool-cases (same j bag)) [
  | inl s ↦ rw s a.0
  | inr s ↦ rw s (keys_in-All Q bag m e a.1)
]

lookup-HasPrefix :
    (prefix id n : Text) (m : Assoc Text)
    → HasPrefix prefix m
    → lookup id m ≡ some n
    → has_prefix id prefix ≡ true
unfolding lookup
lookup-HasPrefix prefix id n [] h e = absurd cc
lookup-HasPrefix prefix id n ((j, w) ∷ m) h e = elim (Bool-cases (same j id)) [
  | inl s ↦ let one : j ≡ id = (same_iff j id).0 s in rw (← one) h.0
  | inr s ↦ lookup-HasPrefix prefix id n m h.1 (rw s at e)
]

-- The identifiers that the map gives have the prefix.
abbrev pub GivesPrefix : Text → Assoc Text → Type 0
GivesPrefix prefix m = (n id : Text) → lookup n m ≡ some id → has_prefix id prefix ≡ true

pub name_to_id-GivesPrefix :
    (prefix : Text) (m : Assoc Text)
    → IsDistinct (keys_of m)
    → HasPrefix prefix m
    → GivesPrefix prefix (name_to_id m)
name_to_id-GivesPrefix prefix m d h n id e =
    lookup-HasPrefix prefix id n m h (name_to_id-IsReverse m (IsDistinct-IsMap m d) n id e)

-- Every text of the first list is in the second.
abbrev pub IsWithin : List Text → List Text → Type 0
IsWithin a b = (x : Text) → contains_text a x ≡ true → contains_text b x ≡ true

keys_in-IsWithin :
    (bag : Text) (m : Assoc (Assoc Text)) → IsWithin (keys_of (keys_in bag m)) (all_keys_of m)
unfolding lookup contains_text
keys_in-IsWithin bag [] x h = absurd cc
keys_in-IsWithin bag ((j, w) ∷ m) x h = elim (Bool-cases (same j bag)) [
  | inl s ↦ contains_text-append (keys_of w) (all_keys_of m) x ∙ rw (rw s at h)
  | inr s ↦
      let later = keys_in-IsWithin bag m x (rw s at h) in
      contains_text-append (keys_of w) (all_keys_of m) x ∙ ground (arith, later)
]

pub bags-IsWithin : (nm : NameMap) → IsWithin (keys_of nm.bags) (all_ids nm)
bags-IsWithin nm x h =
    contains_text-append (keys_of nm.sources) (keys_of nm.bags ++ all_keys_of nm.keys) x
    ∙ ground (arith, contains_text-append (keys_of nm.bags) (all_keys_of nm.keys) x)

pub keys-IsWithin :
    (nm : NameMap) (bag : Text) → IsWithin (keys_of (keys_in bag nm.keys)) (all_ids nm)
keys-IsWithin nm bag x h =
    let there = keys_in-IsWithin bag nm.keys x h in
    contains_text-append (keys_of nm.sources) (keys_of nm.bags ++ all_keys_of nm.keys) x
    ∙ ground (arith, there, contains_text-append (keys_of nm.bags) (all_keys_of nm.keys) x)

pub name_to_id-IsPrior :
    (m : Assoc Text) (taken : List Text)
    → IsDistinct (keys_of m)
    → IsWithin (keys_of m) taken
    → IsPrior (name_to_id m) taken
name_to_id-IsPrior m taken d h =
    reverse-IsPrior m (name_to_id m) taken (name_to_id-IsReverse m (IsDistinct-IsMap m d)) h
