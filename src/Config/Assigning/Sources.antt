-- ===== src/Config/Assigning/Sources.antt =====
-- The identifiers of the sources, from the dictionary of the last save.
use jitenv.Base.{
  true, none, some, List, [], ◌∷◌, ◌++◌, ok, ◌≡◌, ◌⊎◌, ◌∙◌, sym, arith, inl, inr, Option-cases,
  Text, Assoc, lookup, insert, contains_text, contains_text-append, All,
}
use jitenv.Config.Ids.{NameMap, id_prefix_source, name_to_id_from, name_to_id}
use jitenv.Config.Assigning.{Assigned, Draws, keys_of, all_keys_of, all_ids, assign_sources}
use jitenv.Config.Assigning.Stable.{IsPrior, assign-stable, inserted-cases}

-- Every entry is found under its key, as in a Go map.
abbrev pub IsMap : Assoc Text → Type 0
IsMap m = All (λ p. lookup p.0 m ≡ some p.1) m

-- Each identifier of the reverse map has the name in the dictionary.
abbrev pub IsReverse : Assoc Text → Assoc Text → Type 0
IsReverse m out = (n id : Text) → lookup n out ≡ some id → lookup id m ≡ some n

insert-IsReverse :
    (m : Assoc Text) (id name : Text) (out : Assoc Text)
    → lookup id m ≡ some name
    → IsReverse m out
    → IsReverse m (insert name id out)
insert-IsReverse m id name out e h n i at = elim (inserted-cases name n id i out at) [
  | inl (a, b) ↦ rw (← a, ← b) e
  | inr (a, b) ↦ h n i b
]

name_to_id_from-IsReverse :
    (m out rest : Assoc Text)
    → All (λ p. lookup p.0 m ≡ some p.1) rest
    → IsReverse m out
    → IsReverse m (name_to_id_from out rest)
unfolding name_to_id_from
name_to_id_from-IsReverse m out [] a h = h
name_to_id_from-IsReverse m out ((id, name) ∷ rest) a h = elim (Option-cases (lookup name out)) [
  | inl s ↦ rw s (
      name_to_id_from-IsReverse m (insert name id out) rest a.1
        (insert-IsReverse m id name out a.0 h))
  | inr (i, s) ↦ rw s (name_to_id_from-IsReverse m out rest a.1 h)
]

pub name_to_id-IsReverse : (m : Assoc Text) → IsMap m → IsReverse m (name_to_id m)
unfolding name_to_id lookup
name_to_id-IsReverse m h = name_to_id_from-IsReverse m [] m h (λ n i e. absurd cc)

pub keys_of-lookup :
    (m : Assoc Text) (id n : Text) → lookup id m ≡ some n → contains_text (keys_of m) id ≡ true
unfolding lookup contains_text
keys_of-lookup [] id n e = absurd cc
keys_of-lookup ((k, v) ∷ m) id n e = ground (arith, keys_of-lookup m id n)

pub reverse-IsPrior :
    (m prior : Assoc Text) (taken : List Text)
    → IsReverse m prior
    → ((id : Text) → contains_text (keys_of m) id ≡ true → contains_text taken id ≡ true)
    → IsPrior prior taken
reverse-IsPrior m prior taken h t = record {
  used = λ n id e. t id (keys_of-lookup m id n (h n id e));
  one = λ a b id e f. let s : some a ≡ some b = sym (h a id e) ∙ h b id f in cc;
}

-- If EncryptInPlace gives the sources identifiers, each name gets one that the new dictionary gives the
-- name of, so that no two sources share one; and a name that the reverse of the prior dictionary
-- knows gets an identifier that it had there.
pub assign_sources-stable :
    (prev : NameMap) (names : List Text) (left : Draws) (st : Assigned) (n : Text)
    → IsMap prev.sources
    → assign_sources prev names left ≡ ok st
    → contains_text names n ≡ true
    → (id : Text) × (lookup n st.ids ≡ some id)
      × (lookup id st.names ≡ some n)
      × ((lookup n (name_to_id prev.sources) ≡ none) ⊎ (lookup id prev.sources ≡ some n))
unfolding assign_sources
assign_sources-stable prev names left st n m e c =
    let back = name_to_id-IsReverse prev.sources m in
    let prior = reverse-IsPrior prev.sources (name_to_id prev.sources) (all_ids prev) back (λ id k.
      contains_text-append (keys_of prev.sources) (keys_of prev.bags ++ all_keys_of prev.keys) id
      ∙ rw k) in
    let (id, a, b, k) =
      assign-stable id_prefix_source (name_to_id prev.sources) (all_ids prev) left names st n prior
        e c in
    (id, a, b, elim k [ inl u ↦ inl u | inr u ↦ inr (back n id u) ])
