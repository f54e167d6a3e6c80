-- ===== src/Config/Assigning/Bags.antt =====
-- The identifiers of the bags and of the keys in each of them.
use jitenv.Base.{
  true, false, some, List, [], ◌∷◌, ok, ◌≡◌, ◌≢◌, ◌∙◌, sym, ap, arith, inl, inr, Bool-cases, Text,
  same, same_iff, same_refl, Assoc, lookup, insert, lookup-insert, contains_text, All,
}
use jitenv.Config.Ids.{NameMap, name_to_id, id_prefix_bag, id_prefix_key}
use jitenv.Config.Renaming.{keys_in, or_no_keys}
use jitenv.Config.Rekeyed.Back.{IsDistinct}
use jitenv.Config.Sealing.RoundTrip.{chained}
use jitenv.Config.Assigning.{
  Draws, Assigned, AssignedBags, chosen, noted, assign, nothing, keys_of, all_ids, with_keys,
  assign_bags_from,
}
use jitenv.Config.Assigning.Stable.{
  Keeps, lookup_put, chosen-Keeps, assign-Keeps, assign-HasId, nothing-Keeps,
}
use jitenv.Config.Assigning.Prior.{
  IsDictionary, IsWithin, GivesPrefix, keys_in-All, HasPrefix, name_to_id-GivesPrefix,
  name_to_id-IsPrior, keys-IsWithin,
}
use jitenv.Config.Assigning.Growth.{
  chosen-IsWithin, chosen-has_prefix, noted-GivesPrefix, assign-grows,
}

-- What the loop over the bags keeps.
pub record KeepsBags (prev : NameMap) (st : AssignedBags) : Type 0 where
  pub bags : Keeps (name_to_id prev.bags) st.bags
  pub used : IsWithin (all_ids prev) st.bags.taken
  pub prefix : GivesPrefix id_prefix_bag st.bags.ids
  pub inverse :
      (bag name id : Text)
      → lookup name (keys_in bag st.key_ids) ≡ some id
      → lookup id (keys_in bag st.keys) ≡ some name
  pub key_prefix : (bag : Text) → GivesPrefix id_prefix_key (keys_in bag st.key_ids)

-- A bag that has an identifier, each of its keys having one in it.
abbrev pub Covered : AssignedBags → Text × Assoc Text → Type 0
Covered st p =
    (id : Text) × (lookup p.0 st.bags.ids ≡ some id)
    × All (λ k. (j : Text) × (lookup k (keys_in id st.key_ids) ≡ some j)) (keys_of p.1)

-- the keys of a bag after those of one were put in
keys_in-insert_at :
    (id bag : Text) (m : Assoc Text) (all : Assoc (Assoc Text))
    → same id bag ≡ true
    → keys_in bag (insert id m all) ≡ m
keys_in-insert_at id bag m all s =
    let found : lookup bag (insert id m all) ≡ some m = lookup-insert id bag m all ∙ rw s in
    rw found

keys_in-insert_other :
    (id bag : Text) (m : Assoc Text) (all : Assoc (Assoc Text))
    → same id bag ≡ false
    → keys_in bag (insert id m all) ≡ keys_in bag all
keys_in-insert_other id bag m all s =
    let found : lookup bag (insert id m all) ≡ lookup bag all = lookup-insert id bag m all ∙ rw s in
    ap or_no_keys found

-- more identifiers in use, and fewer draws
Keeps-later :
    (prior : Assoc Text) (st : Assigned) (taken : List Text) (left : Draws)
    → Keeps prior st
    → IsWithin st.taken taken
    → Keeps prior (record st { taken = taken; left = left })
Keeps-later prior st taken left h g = record {
  is_prior = record { used = λ m i e. g i (h.is_prior.used m i e); one = h.is_prior.one };
  inverse = h.inverse;
  in_use = λ n i e. g i (h.in_use n i e);
  owner = h.owner;
  stable = h.stable;
}

pub no_entry : {B : Type 0} (n id : Text) → lookup n [] ≡ some id → B
unfolding lookup
no_entry n id e = absurd cc

-- the reverse maps and the dictionary of keys agree after a bag was put in
inverse_after :
    (st : AssignedBags) (id : Text) (ks : Assigned)
    → ((bag name i : Text)
        → lookup name (keys_in bag st.key_ids) ≡ some i
        → lookup i (keys_in bag st.keys) ≡ some name)
    → ((name i : Text) → lookup name ks.ids ≡ some i → lookup i ks.names ≡ some name)
    → (bag name i : Text) → lookup name (keys_in bag (insert id ks.ids st.key_ids)) ≡ some i
    → lookup i (keys_in bag (insert id ks.names st.keys)) ≡ some name
inverse_after st id ks h new bag name i at = elim (Bool-cases (same id bag)) [
  | inl s ↦
      let at_new = rw (keys_in-insert_at id bag ks.ids st.key_ids s) at at in
      rw (keys_in-insert_at id bag ks.names st.keys s) (new name i at_new)
  | inr s ↦
      let at_old = rw (keys_in-insert_other id bag ks.ids st.key_ids s) at at in
      rw (keys_in-insert_other id bag ks.names st.keys s) (h bag name i at_old)
]

key_prefix_after :
    (st : AssignedBags) (id : Text) (ks : Assigned)
    → ((bag : Text) → GivesPrefix id_prefix_key (keys_in bag st.key_ids))
    → GivesPrefix id_prefix_key ks.ids
    → (bag : Text) → GivesPrefix id_prefix_key (keys_in bag (insert id ks.ids st.key_ids))
key_prefix_after st id ks h new bag name i at = elim (Bool-cases (same id bag)) [
  | inl s ↦ new name i (rw (keys_in-insert_at id bag ks.ids st.key_ids s) at at)
  | inr s ↦ h bag name i (rw (keys_in-insert_other id bag ks.ids st.key_ids s) at at)
]

pub All-contains :
    {Q : Text → Type 0} (ks : List Text) → ((k : Text) → contains_text ks k ≡ true → Q k) → All Q ks
unfolding contains_text
All-contains [] h = tt
All-contains (k ∷ ks) h = (h k (rw (same_refl k)), All-contains ks (λ j t. h j (ground arith)))

different : (a b : Text) → same a b ≡ false → a ≢ b
different a b s e = let t = (same_iff a b).1 e in let x : true ≡ false = sym t ∙ s in cc

two_names :
    (i j a b : Text) (m : Assoc Text) → i ≡ j → lookup i m ≡ some a → lookup j m ≡ some b → a ≡ b
two_names i j a b m e f g = cc

module _ (prev : NameMap) (dict : IsDictionary prev) where
  -- the prior map of a bag's keys
  key_prior : Text → Assoc Text
  key_prior id = name_to_id (keys_in id prev.keys)

  key_prior-GivesPrefix : (id : Text) → GivesPrefix id_prefix_key (key_prior id)
  unfolding key_prior
  key_prior-GivesPrefix id =
      name_to_id-GivesPrefix id_prefix_key (keys_in id prev.keys)
        (keys_in-All (λ m. IsDistinct (keys_of m)) id prev.keys tt dict.maps.keys)
        (keys_in-All (HasPrefix id_prefix_key) id prev.keys tt dict.keys)

  -- One bag: what the loop keeps, and what is new.
  bag_step :
      (bag : Text) (kv : Assoc Text) (st : AssignedBags) (c : Text × List Text × Draws)
      (ks : Assigned)
      → KeepsBags prev st
      → chosen id_prefix_bag st.bags.taken st.bags.left (lookup bag (name_to_id prev.bags)) ≡ ok c
      → assign id_prefix_key (key_prior c.0) (keys_of kv) (nothing c.1 c.2) ≡ ok ks
      → KeepsBags prev (with_keys c.0 st (noted bag st.bags c) ks)
  unfolding key_prior
  bag_step bag kv st c ks h e f =
      let within = chosen-IsWithin id_prefix_bag st.bags.taken st.bags.left _ c e in
      let kept = chosen-Keeps id_prefix_bag (name_to_id prev.bags) st.bags bag c h.bags e in
      let none_yet : GivesPrefix id_prefix_key [] = λ n id e. no_entry n id e in
      let (g, p) =
        assign-grows id_prefix_key (key_prior c.0) (keys_of kv) (nothing c.1 c.2) ks
          (key_prior-GivesPrefix c.0) none_yet f in
      let is_prior =
        name_to_id-IsPrior (keys_in c.0 prev.keys) c.1
          (keys_in-All (λ m. IsDistinct (keys_of m)) c.0 prev.keys tt dict.maps.keys)
          (λ x t. within x (h.used x (keys-IsWithin prev c.0 x t))) in
      let new =
        assign-Keeps id_prefix_key (key_prior c.0) (keys_of kv) (nothing c.1 c.2) ks
          (nothing-Keeps (key_prior c.0) c.1 c.2 is_prior) f in
      let started =
        chosen-has_prefix id_prefix_bag st.bags.taken st.bags.left _ c
          (name_to_id-GivesPrefix id_prefix_bag prev.bags dict.maps.bags dict.bags bag) e in
      record {
        bags = Keeps-later (name_to_id prev.bags) (noted bag st.bags c) ks.taken ks.left kept g;
        used = λ x t. g x (within x (h.used x t));
        prefix = noted-GivesPrefix id_prefix_bag bag st.bags c h.prefix started;
        inverse = λ b n i at. inverse_after st c.0 ks h.inverse new.inverse b n i at;
        key_prefix = key_prefix_after st c.0 ks h.key_prefix p;
      }

  -- the bag of the step
  new-Covered :
      (bag : Text) (kv : Assoc Text) (st : AssignedBags) (c : Text × List Text × Draws)
      (ks : Assigned)
      → assign id_prefix_key (key_prior c.0) (keys_of kv) (nothing c.1 c.2) ≡ ok ks
      → Covered (with_keys c.0 st (noted bag st.bags c) ks) (bag, kv)
  new-Covered bag kv st c ks f = (
    c.0,
    lookup_put bag c.0 st.bags.ids,
    All-contains (keys_of kv) (λ k t.
        let (j, at) =
          assign-HasId id_prefix_key (key_prior c.0) k (keys_of kv) (nothing c.1 c.2) ks (inr t)
            f in
        (j, rw (keys_in-insert_at c.0 c.0 ks.ids st.key_ids (same_refl c.0)) at)),
  )

  -- another bag
  old-Covered :
      (bag : Text) (st : AssignedBags) (c : Text × List Text × Draws) (ks : Assigned)
      (p : Text × Assoc Text)
      → KeepsBags prev (with_keys c.0 st (noted bag st.bags c) ks)
      → same bag p.0 ≡ false
      → Covered st p
      → Covered (with_keys c.0 st (noted bag st.bags c) ks) p
  old-Covered bag st c ks p h s (id, at, all) =
      let at' : lookup p.0 (insert bag c.0 st.bags.ids) ≡ some id =
        lookup-insert bag p.0 c.0 st.bags.ids ∙ (rw s at) in
      elim (Bool-cases (same c.0 id)) [
        | inl t ↦
            let one : c.0 ≡ id = (same_iff c.0 id).0 t in
            let mine = h.bags.inverse bag c.0 (lookup_put bag c.0 st.bags.ids) in
            let its = h.bags.inverse p.0 id at' in
            absurd (different bag p.0 s (two_names c.0 id bag p.0 _ one mine its))
        | inr t ↦ (id, at', rw (keys_in-insert_other c.0 id ks.ids st.key_ids t) all)
      ]

  -- The loop keeps what it keeps, gives an identifier to each of its bags, and leaves those of others.
  pub assign_bags_from-KeepsBags :
      (m : Assoc (Assoc Text)) (st st' : AssignedBags)
      → KeepsBags prev st
      → IsDistinct (keys_of m)
      → assign_bags_from prev m st ≡ ok st'
      → KeepsBags prev st'
        × All (Covered st') m
        × ((p : Text × Assoc Text)
            → contains_text (keys_of m) p.0 ≡ false
            → Covered st p
            → Covered st' p)
  unfolding assign_bags_from contains_text key_prior
  assign_bags_from-KeepsBags [] st st' h d e =
      let one : st ≡ st' = cc in rw (← one) (h, tt, λ p t k. k)
  assign_bags_from-KeepsBags ((bag, kv) ∷ m) st st' h d e =
      let (c, e1, e2) =
        chained
          (chosen id_prefix_bag st.bags.taken st.bags.left (lookup bag (name_to_id prev.bags))) _
          e in
      let (ks, e3, e4) =
        chained (assign id_prefix_key (key_prior c.0) (keys_of kv) (nothing c.1 c.2)) _ e2 in
      let after = bag_step bag kv st c ks h e1 e3 in
      let (kept, all, others) =
        assign_bags_from-KeepsBags m (with_keys c.0 st (noted bag st.bags c) ks) st' after d.1 e4 in
      (
        kept,
        (others (bag, kv) d.0 (new-Covered bag kv st c ks e3), all),
        λ p t k. others p (ground arith) (old-Covered bag st c ks p after (ground arith) k),
      )
