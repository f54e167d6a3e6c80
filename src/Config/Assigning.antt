-- ===== src/Config/Assigning.antt =====
-- internal/config/encrypt.go: the identifiers that EncryptInPlace gives to names, those of the prior
-- dictionary where it has them and minted ones elsewhere.
pub mod Stable
pub mod Sources
pub mod Prior
pub mod Growth
pub mod Bags
mod Tests
use jitenv.Base.{
  Option, none, some, List, [], ◌∷◌, ◌++◌, Result, ok, err, ◌>>=◌, Text, Assoc, lookup, insert,
}
use jitenv.Config.Ids.{
  NameMap, MintError, new_id, name_to_id, id_prefix_source, id_prefix_bag, id_prefix_key,
}
use jitenv.Config.Renaming.{keys_in}

abbrev pub Draws : Type 0
Draws = List (Option Text)

-- the dictionary and the reverse map so far, the identifiers in use, and what is left to draw
pub record Assigned : Type 0 where
  pub names : Assoc Text
  pub ids : Assoc Text
  pub taken : List Text
  pub left : Draws

-- one name: its identifier, the ones in use, and what is left to draw
abbrev pub minted :
    Result MintError (Text × Draws) → List Text → Result MintError (Text × List Text × Draws)
minted (err e) taken = err e
minted (ok (id, left)) taken = ok (id, id ∷ taken, left)

abbrev pub chosen :
    Text → List Text → Draws → Option Text → Result MintError (Text × List Text × Draws)
chosen prefix taken left (some id) = ok (id, taken, left)
chosen prefix taken left none = minted (new_id prefix taken left) taken

abbrev pub noted : Text → Assigned → Text × List Text × Draws → Assigned
noted name st (id, taken, left) = record {
  names = insert id name st.names;
  ids = insert name id st.ids;
  taken = taken;
  left = left;
}

-- the loop over the names of one kind, from the reverse of the prior dictionary
unfoldable pub assign : Text → Assoc Text → List Text → Assigned → Result MintError Assigned
unfolding lookup insert
assign prefix prior [] st = ok st
assign prefix prior (name ∷ rest) st = do
  c ← chosen prefix st.taken st.left (lookup name prior)
  assign prefix prior rest (noted name st c)

abbrev pub keys_of : {V : Type 0} → Assoc V → List Text
keys_of [] = []
keys_of ((id, name) ∷ m) = id ∷ keys_of m

abbrev pub all_keys_of : Assoc (Assoc Text) → List Text
all_keys_of [] = []
all_keys_of ((bag, m) ∷ rest) = keys_of m ++ all_keys_of rest

-- allIDs, before any is minted
abbrev pub all_ids : NameMap → List Text
all_ids nm = keys_of nm.sources ++ (keys_of nm.bags ++ all_keys_of nm.keys)

abbrev pub nothing : List Text → Draws → Assigned
nothing taken left = record { names = []; ids = []; taken = taken; left = left }

-- the identifiers of the sources, from the prior dictionary
unfoldable pub assign_sources : NameMap → List Text → Draws → Result MintError Assigned
unfolding assign name_to_id
assign_sources prev names left =
    assign id_prefix_source (name_to_id prev.sources) names (nothing (all_ids prev) left)

abbrev pub next : Assigned → Assigned
next st = record { names = []; ids = []; taken = st.taken; left = st.left }

-- the bags so far, with the dictionary of their keys and its reverse, by the identifier of the bag
pub record AssignedBags : Type 0 where
  pub bags : Assigned
  pub keys : Assoc (Assoc Text)
  pub key_ids : Assoc (Assoc Text)

-- the keys of a bag, in the maps of the bag that is noted last
abbrev pub with_keys : Text → AssignedBags → Assigned → Assigned → AssignedBags
with_keys id st bags ks = record {
  bags = record bags { taken = ks.taken; left = ks.left };
  keys = insert id ks.names st.keys;
  key_ids = insert id ks.ids st.key_ids;
}

-- the loop over the bags, each with its keys
unfoldable pub assign_bags_from :
    NameMap → Assoc (Assoc Text) → AssignedBags → Result MintError AssignedBags
unfolding assign name_to_id lookup insert
assign_bags_from prev [] st = ok st
assign_bags_from prev ((bag, kv) ∷ rest) st = do
  (id, taken, left) ←
      chosen id_prefix_bag st.bags.taken st.bags.left (lookup bag (name_to_id prev.bags))
  ks ← assign id_prefix_key (name_to_id (keys_in id prev.keys)) (keys_of kv) (nothing taken left)
  assign_bags_from prev rest (with_keys id st (noted bag st.bags (id, taken, left)) ks)

abbrev pub no_bags : Assigned → AssignedBags
no_bags st = record { bags = next st; keys = []; key_ids = [] }

-- the identifiers of the bags and of their keys, after the sources
unfoldable pub assign_bags : NameMap → Assoc (Assoc Text) → Assigned → Result MintError AssignedBags
assign_bags prev secrets st = assign_bags_from prev secrets (no_bags st)
