-- ===== src/Config/Ids/Tests.antt =====
-- Runs of the identifiers, and the theorem at a concrete input.
use jitenv.Base.{
  true, false, some, List, [], ◌∷◌, ok, err, ◌≡◌, refl, arith, Text, codes, contains_text, same,
  Option, has_prefix, lookup, insert,
}
use jitenv.Config.Ids.{
  id_prefix_source, is_id, all_hex, hex, no_random, mint, new_id, name_to_id, name_to_id_from,
}
use jitenv.Config.Ids.Fresh.{candidate, new_id_fresh}

abbrev buffer : Option Text
buffer = some (10 ∷ 11 ∷ 12 ∷ 13 ∷ [])

abbrev other : Option Text
other = some (255 ∷ 0 ∷ 1 ∷ 2 ∷ [])

abbrev taken : List Text
taken = codes "s_0a0b0c" ∷ []

new_id_runs :
    (new_id id_prefix_source taken (buffer ∷ other ∷ []) ≡ ok (codes "s_ff0001", []))
    × (new_id id_prefix_source taken (buffer ∷ []) ≡ err no_random)
    × (is_id (codes "s_ff0001") id_prefix_source ≡ true)
    × (is_id (codes "s_FF0001") id_prefix_source ≡ false)
unfolding new_id mint hex contains_text same is_id all_hex has_prefix
new_id_runs = (refl, refl, refl, refl)

name_to_id_runs :
    name_to_id ((codes "s_1", codes "a") ∷ (codes "s_2", codes "a") ∷ [])
    ≡ (codes "a", codes "s_1") ∷ []
unfolding name_to_id name_to_id_from lookup insert same
name_to_id_runs = refl

free_other : contains_text taken (candidate id_prefix_source other) ≡ false
unfolding contains_text hex same
free_other = refl

new_id_fresh_example :
    (id : Text) × (rest : List (Option Text)) × (new_id id_prefix_source taken (buffer ∷ other ∷ [])
      ≡ ok (id, rest))
    × (is_id id id_prefix_source ≡ true)
    × (contains_text taken id ≡ false)
new_id_fresh_example =
    new_id_fresh id_prefix_source taken (buffer ∷ []) other [] refl (ground arith) (omega arith)
      free_other
