-- ===== src/Config/Renaming/Tests.antt =====
-- Runs of the renaming, and the theorem at a concrete input.
use jitenv.Base.{
  contains_text, true, none, some, [], ◌∷◌, ◌≡◌, refl, inl, inr, Bool-cases, Text, codes, same,
  same_iff, same_refl, Assoc, lookup, has_prefix,
}
use jitenv.Crypto.Values.{end}
use jitenv.Crypto.Envelope.{is_envelope}
use jitenv.Config.{VarRef, SourceConfig}
use jitenv.Config.Ids.{NameMap}
use jitenv.Config.Renaming.{
  ToIds, names_to_ids, key_to_id, name_map_equal, string_map_equal, all_equal, all_keys_equal,
}
use jitenv.Config.Renaming.Equal.{HasMaps, Agrees, name_map_equal-Agrees}
use jitenv.Config.Renaming.Inverse.{Inverts, Refers}

abbrev dictionary : NameMap
dictionary = record {
  sources = (codes "s_1", codes "vault") ∷ [];
  bags = (codes "b_1", codes "db") ∷ [];
  keys = (codes "b_1", (codes "k_1", codes "PW") ∷ []) ∷ [];
}

abbrev to_ids : ToIds
to_ids = record {
  sources = (codes "vault", codes "s_1") ∷ [];
  bags = (codes "db", codes "b_1") ∷ [];
  keys = (codes "b_1", (codes "PW", codes "k_1") ∷ []) ∷ [];
}

abbrev sources : Assoc SourceConfig
sources = (codes "s_1", record { type = codes "local"; params = end }) ∷ []

abbrev variable : VarRef
variable = record {
  name = codes "PASSWORD";
  source = codes "vault";
  ref = codes "db";
  key = codes "PW";
  extra = [];
  value = [];
}

names_to_ids_run :
    names_to_ids sources to_ids variable
    ≡ record variable { source = codes "s_1"; ref = codes "b_1"; key = codes "k_1" }
unfolding names_to_ids lookup same is_envelope has_prefix key_to_id
names_to_ids_run = refl

equal_runs : name_map_equal dictionary dictionary ≡ true
unfolding name_map_equal string_map_equal all_equal all_keys_equal lookup same
equal_runs = refl

-- the one entry of a map
entry : (k v n id : Text) → lookup n ((k, v) ∷ []) ≡ some id → (k ≡ n) × (v ≡ id)
unfolding lookup
entry k v n id e = elim (Bool-cases (same k n)) [
  | inl s ↦ let x : some v ≡ some id = rw s at e in ((same_iff k n).0 s, cc)
  | inr s ↦ let x : none ≡ some id = rw s at e in absurd cc
]

one_entry : (k v : Text) → lookup k ((k, v) ∷ []) ≡ some v
unfolding lookup
one_entry k v = rw (same_refl k)

inverts : Inverts dictionary to_ids
unfolding lookup
inverts = record {
  sources = λ n id e.
      let (a, b) = entry (codes "vault") (codes "s_1") n id e in
      rw (← a, ← b) (one_entry (codes "s_1") (codes "vault"), refl);
  bags = λ n id e.
      let (a, b) = entry (codes "db") (codes "b_1") n id e in
      rw (← a, ← b) (one_entry (codes "b_1") (codes "db"));
  keys = λ bag n id e. elim (Bool-cases (same (codes "b_1") bag)) [
    | inl s ↦
        let (a, b) = entry (codes "PW") (codes "k_1") n id (rw s at e) in
        rw s (rw (← a, ← b) (one_entry (codes "k_1") (codes "PW"), refl))
    | inr s ↦ let x : none ≡ some id = rw s at e in absurd cc
  ];
}

refers : Refers sources to_ids variable
unfolding lookup same is_envelope has_prefix
refers =
    (refl, codes "s_1", refl, inr (refl, refl, codes "b_1", refl, inr (refl, codes "k_1", refl)))

one_each : HasMaps dictionary
unfolding contains_text
one_each = record {
  sources = (refl, tt);
  bags = (refl, tt);
  key_bags = (refl, tt);
  keys = ((refl, tt), tt);
}

name_map_equal-Agrees_example : Agrees dictionary dictionary
name_map_equal-Agrees_example = name_map_equal-Agrees dictionary dictionary one_each equal_runs
