-- ===== src/Config/Assigning/Tests.antt =====
-- A run of the assignment, and the theorem at a concrete input.
use jitenv.Base.{
  true, none, some, List, [], ◌∷◌, ok, ◌≡◌, ◌⊎◌, refl, Text, codes, same, lookup, insert,
  contains_text,
}
use jitenv.Config.Ids.{NameMap, mint, hex, new_id, name_to_id, name_to_id_from}
use jitenv.Config.Assigning.{Assigned, Draws, assign, assign_sources}
use jitenv.Config.Assigning.Sources.{assign_sources-stable}

abbrev old_id : Text
old_id = codes "s_0a0b0c"

abbrev prior : NameMap
prior = record { sources = (old_id, codes "vault") ∷ []; bags = []; keys = [] }

-- the first draw gives the identifier that is in use
abbrev draws : Draws
draws = some (10 ∷ 11 ∷ 12 ∷ 0 ∷ []) ∷ some (255 ∷ 0 ∷ 1 ∷ 2 ∷ []) ∷ []

abbrev names : List Text
names = codes "new" ∷ codes "vault" ∷ []

abbrev assigned : Assigned
assigned = record {
  names = (codes "s_ff0001", codes "new") ∷ (old_id, codes "vault") ∷ [];
  ids = (codes "new", codes "s_ff0001") ∷ (codes "vault", old_id) ∷ [];
  taken = codes "s_ff0001" ∷ old_id ∷ [];
  left = [];
}

assign_run : assign_sources prior names draws ≡ ok assigned
unfolding assign_sources assign name_to_id name_to_id_from new_id mint hex lookup insert same
    contains_text
assign_run = refl

listed : contains_text names (codes "vault") ≡ true
unfolding contains_text same
listed = refl

prior_found : lookup old_id prior.sources ≡ some (codes "vault")
unfolding lookup same
prior_found = refl

assign_sources-stable_example :
    (id : Text) × (lookup (codes "vault") assigned.ids ≡ some id)
    × (lookup id assigned.names ≡ some (codes "vault"))
    × ((lookup (codes "vault") (name_to_id prior.sources) ≡ none)
        ⊎ (lookup id prior.sources ≡ some (codes "vault")))
assign_sources-stable_example =
    assign_sources-stable prior names draws assigned (codes "vault") (prior_found, tt) assign_run
      listed
