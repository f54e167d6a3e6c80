-- ===== src/Agent/Source.antt =====
-- pkg/source and internal/sources/local: what a source answers, and the source of the local bags.
use jitenv.Base.{
  not, Option, none, some, [], ◌∷◌, if◌then◌else◌, Result, ok, err, ◌≡◌, refl, Text, is_empty,
  Assoc, lookup, map, Bool-cases, inl, inr, ap, ◌∙◌, arith,
}
use mathlib.Core.Option

-- source.SecretRef
pub record SecretRef : Type 0 where
  pub id : Text
  pub key : Text
  pub extra : Assoc Text

pub data FetchError : Type 0 where
  bags_cleared no_id bag_not_found key_not_in_bag source_failed : FetchError

-- source.Source, of which the resolver calls Fetch
pub record Source : Type 0 where
  pub fetch : SecretRef → Result FetchError (Assoc Text)

-- localSource; `none` is the nil map
pub record LocalSource : Type 0 where
  pub bags : Option (Assoc (Assoc Text))

-- SetBags
pub set_bags : Option (Assoc (Assoc Text)) → LocalSource → LocalSource
set_bags b l = record l { bags = b }

-- the loop of Wipe over a bag
pub wipe_bag : Assoc Text → Assoc Text
wipe_bag [] = []
wipe_bag ((k, v) ∷ bag) = (k, []) ∷ wipe_bag bag

pub wipe_bags : Assoc (Assoc Text) → Assoc (Assoc Text)
wipe_bags [] = []
wipe_bags ((name, bag) ∷ bags) = (name, wipe_bag bag) ∷ wipe_bags bags

abbrev pub stored : Option (Assoc (Assoc Text)) → Assoc (Assoc Text)
stored none = []
stored (some b) = wipe_bags b

-- Wipe: the source, and what is left in the maps that it shares with the configuration
pub wipe : LocalSource → LocalSource × Assoc (Assoc Text)
wipe l = (record l { bags = none }, stored l.bags)

abbrev pub in_bag : Text → Assoc Text → Result FetchError (Assoc Text)
in_bag key bag =
    if not (is_empty key)
    then elim (lookup key bag) [ none ↦ err key_not_in_bag | some v ↦ ok ((key, v) ∷ []) ]
    else ok bag

abbrev pub of_bag : Text → Option (Assoc Text) → Result FetchError (Assoc Text)
of_bag key none = err bag_not_found
of_bag key (some bag) = in_bag key bag

abbrev pub from_bags : SecretRef → Option (Assoc (Assoc Text)) → Result FetchError (Assoc Text)
from_bags ref none = err bags_cleared
from_bags ref (some bags) =
    if is_empty ref.id then err no_id else of_bag ref.key (lookup ref.id bags)

-- Fetch
unfoldable pub fetch : LocalSource → SecretRef → Result FetchError (Assoc Text)
fetch l ref = from_bags ref l.bags

-- The same keys, each with the empty value.
abbrev pub blank : Assoc Text → Assoc Text
blank = map (λ p. (p.0, []))

abbrev pub blanked : Result FetchError (Assoc Text) → Result FetchError (Assoc Text)
blanked (ok vars) = ok (blank vars)
blanked (err e) = err e

wipe_bag-blank : (bag : Assoc Text) → wipe_bag bag ≡ blank bag
unfolding wipe_bag
wipe_bag-blank [] = refl
wipe_bag-blank ((k, v) ∷ bag) = ap (λ b. (k, []) ∷ b) (wipe_bag-blank bag)

lookup-wipe_bags :
    (name : Text) (bags : Assoc (Assoc Text))
    → lookup name (wipe_bags bags) ≡ Option.map wipe_bag (lookup name bags)
unfolding wipe_bags lookup
lookup-wipe_bags name [] = refl
lookup-wipe_bags name ((n, bag) ∷ bags) = ground (arith, lookup-wipe_bags name bags)

lookup-blank :
    (k : Text) (bag : Assoc Text) → lookup k (blank bag) ≡ Option.map (λ v. []) (lookup k bag)
unfolding lookup
lookup-blank k [] = refl
lookup-blank k ((j, v) ∷ bag) = ground (arith, lookup-blank k bag)

found_blank :
    (key : Text) (o : Option Text)
    → ◌≡◌ {A = Result FetchError (Assoc Text)}
        (elim (Option.map {B = Text} (λ v. []) o) [
          | none ↦ err key_not_in_bag
          | some v ↦ ok ((key, v) ∷ [])
        ])
        (blanked (elim o [ none ↦ err key_not_in_bag | some v ↦ ok ((key, v) ∷ []) ]))
found_blank key none = refl
found_blank key (some v) = refl

in_bag-blank : (key : Text) (bag : Assoc Text) → in_bag key (blank bag) ≡ blanked (in_bag key bag)
in_bag-blank key bag = elim (Bool-cases (is_empty key)) [
  | inl e ↦ rw e
  | inr e ↦ rw (e, lookup-blank key bag) (found_blank key (lookup key bag))
]

of_bag-wipe :
    (key : Text) (o : Option (Assoc Text))
    → of_bag key (Option.map wipe_bag o) ≡ blanked (of_bag key o)
of_bag-wipe key none = refl
of_bag-wipe key (some bag) = ap (in_bag key) (wipe_bag-blank bag) ∙ in_bag-blank key bag

from_bags-wipe :
    (ref : SecretRef) (bags : Assoc (Assoc Text))
    → from_bags ref (some (wipe_bags bags)) ≡ blanked (from_bags ref (some bags))
from_bags-wipe ref bags = elim (Bool-cases (is_empty ref.id)) [
  | inl e ↦ rw e
  | inr e ↦ rw (e, lookup-wipe_bags ref.id bags) (of_bag-wipe ref.key (lookup ref.id bags))
]

-- After Wipe of a source that was given bags, every Fetch of it fails with the error for cleared bags;
-- and the maps that it shares with others have the same bags and keys as before, each with an
-- empty value: another source that is given those maps answers each Fetch with the same error as
-- before, or with the same keys and empty values.
pub fetch-wipe :
    (l l' : LocalSource) (bags : Assoc (Assoc Text)) (ref : SecretRef)
    → (fetch (wipe (set_bags (some bags) l)).0 ref ≡ err bags_cleared)
      × (fetch (set_bags (some (wipe (set_bags (some bags) l)).1) l') ref
          ≡ blanked (fetch (set_bags (some bags) l') ref))
unfolding wipe fetch set_bags
fetch-wipe l l' bags ref = (refl, from_bags-wipe ref bags)
