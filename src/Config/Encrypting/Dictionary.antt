-- ===== src/Config/Encrypting/Dictionary.antt =====
-- The dictionary that EncryptInPlace builds gives back the names of the identifiers that it uses.
use jitenv.Base.{
  ℕ, ◌==◌, some, true, false, List, [], ◌∷◌, ◌++◌, ok, ◌≡◌, ◌∙◌, refl, arith, inr, Text, is_empty,
  has_prefix, Assoc, lookup, contains_text-append, All,
}
use jitenv.Crypto.Envelope.{is_envelope}
use jitenv.Config.Ids.{NameMap, name_to_id, id_prefix_source}
use jitenv.Config.Renaming.{keys_in}
use jitenv.Config.Renaming.Inverse.{Inverts}
use jitenv.Config.Rekeyed.Back.{IsDistinct}
use jitenv.Config.Assigning.{
  Draws, Assigned, AssignedBags, nothing, no_bags, keys_of, all_keys_of, all_ids, assign_sources,
  assign_bags,
}
use jitenv.Config.Assigning.Stable.{assign-Keeps, assign-HasId, nothing-Keeps}
use jitenv.Config.Assigning.Prior.{
  IsDictionary, IsWithin, name_to_id-GivesPrefix, name_to_id-IsPrior, bags-IsWithin,
}
use jitenv.Config.Assigning.Bags.{
  KeepsBags, Covered, no_entry, All-contains, assign_bags_from-KeepsBags,
}
use jitenv.Config.Assigning.Growth.{assign-grows}
use jitenv.Config.Encrypting.{dictionary, to_ids}

-- neither empty nor an envelope
abbrev pub IsNamelike : Text → Type 0
IsNamelike t = (is_empty t ≡ false) × (is_envelope t ≡ false)

prefix-IsNamelike :
    (p : ℕ) (t : Text) → (p == b'e') ≡ false → has_prefix t (p ∷ b'_' ∷ []) ≡ true → IsNamelike t
unfolding has_prefix is_envelope
prefix-IsNamelike p [] n h = absurd cc
prefix-IsNamelike p (c ∷ t) n h = (refl, ground arith)

-- What EncryptInPlace knows once all identifiers are given.
pub record Assigns (secrets : Assoc (Assoc Text)) (names : List Text) (ss : Assigned)
    (bs : AssignedBags) : Type 0 where
  pub inverts : Inverts (dictionary ss bs) (to_ids ss bs)
  pub source_ids : (n id : Text) → lookup n ss.ids ≡ some id → IsNamelike id
  pub bag_ids : (n id : Text) → lookup n bs.bags.ids ≡ some id → IsNamelike id
  pub key_ids : (bag n id : Text) → lookup n (keys_in bag bs.key_ids) ≡ some id → IsNamelike id
  pub sources : All (λ n. (id : Text) × (lookup n ss.ids ≡ some id)) names
  pub bags : All (Covered bs) secrets

sources-IsWithin : (nm : NameMap) → IsWithin (keys_of nm.sources) (all_ids nm)
sources-IsWithin nm x h =
    contains_text-append (keys_of nm.sources) (keys_of nm.bags ++ all_keys_of nm.keys) x
    ∙ ground arith

-- before the first bag
started-KeepsBags :
    (prev : NameMap) (ss : Assigned)
    → IsDictionary prev
    → IsWithin (all_ids prev) ss.taken
    → KeepsBags prev (no_bags ss)
unfolding lookup
started-KeepsBags prev ss dict g = record {
  bags =
      nothing-Keeps (name_to_id prev.bags) ss.taken ss.left (
        name_to_id-IsPrior prev.bags ss.taken dict.maps.bags (λ x t. g x (bags-IsWithin prev x t)));
  used = g;
  prefix = λ n id e. no_entry n id e;
  inverse = λ bag n id e. no_entry n id e;
  key_prefix = λ bag n id e. no_entry n id e;
}

pub assigned :
    (prev : NameMap) (names : List Text) (secrets : Assoc (Assoc Text)) (draws : Draws)
    (ss : Assigned) (bs : AssignedBags)
    → IsDictionary prev
    → IsDistinct (keys_of secrets)
    → assign_sources prev names draws ≡ ok ss
    → assign_bags prev secrets ss ≡ ok bs
    → Assigns secrets names ss bs
unfolding assign_sources assign_bags
assigned prev names secrets draws ss bs dict d e f =
    let back = name_to_id prev.sources in
    let (g, p) =
      assign-grows id_prefix_source back names (nothing (all_ids prev) draws) ss
        (name_to_id-GivesPrefix id_prefix_source prev.sources dict.maps.sources dict.sources)
        (λ n id t. no_entry n id t) e in
    let kept =
      assign-Keeps id_prefix_source back names (nothing (all_ids prev) draws) ss
        (nothing-Keeps back (all_ids prev) draws (
          name_to_id-IsPrior prev.sources (all_ids prev) dict.maps.sources (sources-IsWithin prev)))
        e in
    let (bags, covered, others) =
      assign_bags_from-KeepsBags prev dict secrets (no_bags ss) bs
        (started-KeepsBags prev ss dict g) d f in
    record {
      inverts = record {
        sources = λ n id t. (kept.inverse n id t, (prefix-IsNamelike b's' id refl (p n id t)).0);
        bags = λ n id t. bags.bags.inverse n id t;
        keys = λ bag n id t. (
          bags.inverse bag n id t,
          (prefix-IsNamelike b'k' id refl (bags.key_prefix bag n id t)).0,
        );
      };
      source_ids = λ n id t. prefix-IsNamelike b's' id refl (p n id t);
      bag_ids = λ n id t. prefix-IsNamelike b'b' id refl (bags.prefix n id t);
      key_ids = λ bag n id t. prefix-IsNamelike b'k' id refl (bags.key_prefix bag n id t);
      sources = All-contains names (λ n t.
          assign-HasId id_prefix_source back n names (nothing (all_ids prev) draws) ss (inr t) e);
      bags = covered;
    }
