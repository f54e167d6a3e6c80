-- ===== src/Config/Renaming/Equal.antt =====
-- Dictionaries that nameMapEqual takes for equal give the same names.
use jitenv.Base.{
  suc, ◌≤◌, true, false, none, some, List, [], ◌∷◌, if◌then◌else◌, ◌≡◌, ◌∙◌, refl, sym, ap, arith,
  inl, inr, Bool-cases, Option-cases, Option, Text, same, same_iff, Assoc, lookup, contains_text,
  length, All,
}
use jitenv.Config.Ids.{NameMap}
use jitenv.Config.Assigning.{keys_of}
use jitenv.Config.Renaming.{
  keys_in, or_no_keys, is_value, is_map, all_equal, string_map_equal, all_keys_equal,
  name_map_equal,
}
use jitenv.Config.Rekeyed.Back.{IsDistinct}

-- the list without the first `k`
remove : Text → List Text → List Text
remove k [] = []
remove k (x ∷ xs) = if same x k then xs else x ∷ remove k xs

contains-remove :
    (k x : Text) (xs : List Text)
    → same k x ≡ false
    → contains_text (remove k xs) x ≡ contains_text xs x
unfolding remove contains_text
contains-remove k x [] h = refl
contains-remove k x (y ∷ xs) h =
    ground (arith, contains-remove k x xs, same_iff y k, same_iff y x, same_iff k x)

length-remove :
    (k : Text) (xs : List Text) → contains_text xs k ≡ true → suc (length (remove k xs)) ≡ length xs
unfolding remove contains_text
length-remove k [] h = cc
length-remove k (y ∷ xs) h = ground (arith, length-remove k xs)

still_there :
    (k : Text) (ks js : List Text)
    → contains_text ks k ≡ false
    → All (λ x. contains_text js x ≡ true) ks
    → All (λ x. contains_text (remove k js) x ≡ true) ks
unfolding contains_text
still_there k [] js h a = tt
still_there k (x ∷ ks) js h a =
    let apart : same k x ≡ false = ground (arith, same_iff k x, same_iff x k) in
    (contains-remove k x js apart ∙ a.0, still_there k ks js (ground arith) a.1)

-- A list with different elements that are all in a list as short has all its elements.
pub distinct-contains :
    (ks js : List Text) (j : Text)
    → IsDistinct ks
    → All (λ k. contains_text js k ≡ true) ks
    → length js ≤ length ks
    → contains_text js j ≡ true
    → contains_text ks j ≡ true
unfolding contains_text
distinct-contains [] [] j d a n h = h
distinct-contains [] (x ∷ js) j d a n h = absurd (omega (arith, n))
distinct-contains (k ∷ ks) js j d a n h = elim (Bool-cases (same k j)) [
  | inl s ↦ rw s
  | inr s ↦
      let shorter = length-remove k js a.0 in
      rw s (
        distinct-contains ks (remove k js) j d.1 (still_there k ks js d.0 a.1) (omega arith)
          (contains-remove k j js s ∙ h))
]

pub lookup-contains :
    {V : Type 0} (k : Text) (v : V) (m : Assoc V)
    → lookup k m ≡ some v
    → contains_text (keys_of m) k ≡ true
unfolding lookup contains_text
lookup-contains k v [] e = absurd cc
lookup-contains k v ((j, w) ∷ m) e = ground (arith, lookup-contains k v m)

pub contains-lookup :
    {V : Type 0} (k : Text) (m : Assoc V)
    → contains_text (keys_of m) k ≡ true
    → (v : V) × (lookup k m ≡ some v)
unfolding lookup contains_text
contains-lookup k [] e = absurd cc
contains-lookup k ((j, w) ∷ m) e = elim (Bool-cases (same j k)) [
  | inl s ↦ (w, rw s)
  | inr s ↦ let (v, at) = contains-lookup k m (rw s at e) in (v, rw s at)
]

pub lookup-none :
    {V : Type 0} (k : Text) (m : Assoc V) → contains_text (keys_of m) k ≡ false → lookup k m ≡ none
unfolding lookup contains_text
lookup-none k [] e = refl
lookup-none k ((j, w) ∷ m) e = ground (arith, lookup-none k m)

is_value_lem : (v : Text) (o : Option Text) → is_value v o ≡ true → o ≡ some v
is_value_lem v none h = absurd cc
is_value_lem v (some w) h = ap (λ t. some t) ((same_iff w v).0 h)

all_equal-lookup :
    (a b : Assoc Text) (k v : Text)
    → all_equal a b ≡ true
    → lookup k a ≡ some v
    → lookup k b ≡ some v
unfolding all_equal lookup
all_equal-lookup [] b k v h e = absurd cc
all_equal-lookup ((j, w) ∷ a) b k v h e = elim (Bool-cases (same j k)) [
  | inl s ↦
      let found = is_value_lem w (lookup j b) (ground arith) in
      let same_key : j ≡ k = (same_iff j k).0 s in
      let same_value : some w ≡ some v = rw s at e in
      ap (λ t. lookup t b) (sym same_key) ∙ found ∙ same_value
  | inr s ↦ all_equal-lookup a b k v (ground arith) (rw s at e)
]

all_equal-contains :
    (a b : Assoc Text)
    → all_equal a b ≡ true
    → All (λ k. contains_text (keys_of b) k ≡ true) (keys_of a)
unfolding all_equal
all_equal-contains [] b h = tt
all_equal-contains ((j, w) ∷ a) b h = (
  lookup-contains j w b (is_value_lem w (lookup j b) (ground arith)),
  all_equal-contains a b (ground arith),
)

length-keys_of : {V : Type 0} (m : Assoc V) → length (keys_of m) ≡ length m
length-keys_of [] = refl
length-keys_of ((k, v) ∷ m) = ap (λ n. suc n) (length-keys_of m)

-- No key of the second map is missing in the first, so that what is not found in the one is not found in
-- the other.
missing_too :
    {V : Type 0} (a b : Assoc V) (k : Text)
    → IsDistinct (keys_of a)
    → All (λ j. contains_text (keys_of b) j ≡ true) (keys_of a)
    → length a ≡ length b
    → lookup k a ≡ none
    → lookup k b ≡ none
missing_too a b k d t n e = elim (Bool-cases (contains_text (keys_of b) k)) [
  | inl s ↦
      let fits : length (keys_of b) ≤ length (keys_of a) =
        omega (arith, n, length-keys_of a, length-keys_of b) in
      let (v, at) = contains-lookup k a (distinct-contains (keys_of a) (keys_of b) k d t fits s) in
      let no : none ≡ some v = sym e ∙ at in absurd cc
  | inr s ↦ lookup-none k b s
]

string_map_equal-lookup :
    (a b : Assoc Text) (k : Text)
    → string_map_equal a b ≡ true
    → IsDistinct (keys_of a)
    → lookup k a ≡ lookup k b
unfolding string_map_equal
string_map_equal-lookup a b k h d =
    let all_in : all_equal a b ≡ true = ground arith in
    elim (Option-cases (lookup k a)) [
      | inl e ↦ e ∙ sym (missing_too a b k d (all_equal-contains a b all_in) (ground arith) e)
      | inr (v, e) ↦ e ∙ sym (all_equal-lookup a b k v all_in e)
    ]

-- The same names for the same identifiers.
pub record Agrees (a b : NameMap) : Type 0 where
  pub sources : (id : Text) → lookup id a.sources ≡ lookup id b.sources
  pub bags : (id : Text) → lookup id a.bags ≡ lookup id b.bags
  pub keys : (bag id : Text) → lookup id (keys_in bag a.keys) ≡ lookup id (keys_in bag b.keys)

-- A dictionary of Go maps, in which no key is there twice.
pub record HasMaps (nm : NameMap) : Type 0 where
  pub sources : IsDistinct (keys_of nm.sources)
  pub bags : IsDistinct (keys_of nm.bags)
  pub key_bags : IsDistinct (keys_of nm.keys)
  pub keys : All (λ p. IsDistinct (keys_of p.1)) nm.keys

-- the keys of a bag are found in the second map with equal content
is_map_lem :
    (m : Assoc Text) (o : Option (Assoc Text))
    → is_map m o ≡ true
    → (n : Assoc Text) × (o ≡ some n) × (string_map_equal m n ≡ true)
is_map_lem m none h = absurd cc
is_map_lem m (some n) h = (n, refl, h)

all_keys_equal-contains :
    (a b : Assoc (Assoc Text))
    → all_keys_equal a b ≡ true
    → All (λ k. contains_text (keys_of b) k ≡ true) (keys_of a)
unfolding all_keys_equal
all_keys_equal-contains [] b h = tt
all_keys_equal-contains ((bag, m) ∷ a) b h =
    let (n, at, e) = is_map_lem m (lookup bag b) (ground arith) in
    (lookup-contains bag n b at, all_keys_equal-contains a b (ground arith))

all_keys_equal-lookup :
    (a b : Assoc (Assoc Text)) (bag : Text) (m : Assoc Text)
    → all_keys_equal a b ≡ true
    → All (λ p. IsDistinct (keys_of p.1)) a
    → lookup bag a ≡ some m
    → (id : Text) → lookup id m ≡ lookup id (keys_in bag b)
unfolding all_keys_equal lookup
all_keys_equal-lookup [] b bag m h d e id = absurd cc
all_keys_equal-lookup ((j, w) ∷ a) b bag m h d e id = elim (Bool-cases (same j bag)) [
  | inl s ↦
      let (n, at, eq) = is_map_lem w (lookup j b) (ground arith) in
      let same_key : j ≡ bag = (same_iff j bag).0 s in
      let same_value : some w ≡ some m = rw s at e in
      let same_map : m ≡ w = cc in
      ap (lookup id) same_map
      ∙ string_map_equal-lookup w n id eq d.0
      ∙ ap (λ o. lookup id (or_no_keys o)) (sym at ∙ ap (λ t. lookup t b) same_key)
  | inr s ↦ all_keys_equal-lookup a b bag m (ground arith) d.1 (rw s at e) id
]

keys_in-lookup :
    (a b : Assoc (Assoc Text)) (bag id : Text)
    → length a ≡ length b
    → all_keys_equal a b ≡ true
    → IsDistinct (keys_of a)
    → All (λ p. IsDistinct (keys_of p.1)) a
    → lookup id (keys_in bag a) ≡ lookup id (keys_in bag b)
keys_in-lookup a b bag id n h d e = elim (Option-cases (lookup bag a)) [
  | inl s ↦
      let t = missing_too a b bag d (all_keys_equal-contains a b h) n s in
      ap (λ o. lookup id (or_no_keys o)) (s ∙ sym t)
  | inr (m, s) ↦ ap (λ o. lookup id (or_no_keys o)) s ∙ all_keys_equal-lookup a b bag m h e s id
]

-- If nameMapEqual says that a dictionary of Go maps equals another, both give the same name for
-- every identifier, though one test looks at the entries of the first only.
pub name_map_equal-Agrees : (a b : NameMap) → HasMaps a → name_map_equal a b ≡ true → Agrees a b
unfolding name_map_equal
name_map_equal-Agrees a b m h = record {
  sources = λ id. string_map_equal-lookup a.sources b.sources id (ground arith) m.sources;
  bags = λ id. string_map_equal-lookup a.bags b.bags id (ground arith) m.bags;
  keys =
      λ bag id. keys_in-lookup a.keys b.keys bag id (ground arith) (ground arith) m.key_bags m.keys;
}
