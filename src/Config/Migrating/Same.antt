-- ===== src/Config/Migrating/Same.antt =====
-- internal/config/config.go: when two documents are the same values for Go, whose maps have no order.
use jitenv.Base.{Option, none, some, List, [], ◌∷◌, ◌≡◌, ◌≢◌, Text, Assoc, lookup, All}
use jitenv.Crypto.Values.{Value, table, array, Fields, field, Items, cons}
use jitenv.Config.{VarRef, Mapping, SourceConfig}
use jitenv.Config.Rekeyed.Back.{IsDistinct}
use jitenv.Config.Assigning.{keys_of}
use jitenv.Config.Migrating.{Document}

-- a `map[string]any` and what it holds, with the fields of each table in any order
mutual
  pub data SameValue : Value → Value → Type 0 where
    equal_values : (v : Value) → SameValue v v
    same_tables : {fs gs : Fields} → SameFields fs gs → SameValue (table fs) (table gs)
    same_arrays : {xs ys : Items} → SameItems xs ys → SameValue (array xs) (array ys)

  pub data SameFields : Fields → Fields → Type 0 where
    equal_fields : (fs : Fields) → SameFields fs fs
    same_field :
        {k : Text} {v w : Value} {fs gs : Fields}
        → SameValue v w
        → SameFields fs gs
        → SameFields (field k v fs) (field k w gs)
    swapped :
        {j k : Text} {v w : Value} {fs : Fields}
        → j ≢ k
        → SameFields (field j v (field k w fs)) (field k w (field j v fs))
    both : {fs gs hs : Fields} → SameFields fs gs → SameFields gs hs → SameFields fs hs

  pub data SameItems : Items → Items → Type 0 where
    equal_items : (xs : Items) → SameItems xs xs
    same_item :
        {v w : Value} {xs ys : Items}
        → SameValue v w
        → SameItems xs ys
        → SameItems (cons v xs) (cons w ys)

pub data SameOption {A : Type 0} (R : A → A → Type 0) : Option A → Option A → Type 0 where
  same_none : SameOption R none none
  same_some : {a b : A} → R a b → SameOption R (some a) (some b)

pub data SameList {A : Type 0} (R : A → A → Type 0) : List A → List A → Type 0 where
  same_nil : SameList R [] []
  same_cons : {a b : A} {xs ys : List A} → R a b → SameList R xs ys → SameList R (a ∷ xs) (b ∷ ys)

abbrev pub SameMap : Assoc Text → Assoc Text → Type 0
SameMap m m' = (k : Text) → lookup k m' ≡ lookup k m

pub record SameSource (a b : SourceConfig) : Type 0 where
  pub type : b.type ≡ a.type
  pub params : SameFields a.params b.params

pub record SameVar (a b : VarRef) : Type 0 where
  pub name : b.name ≡ a.name
  pub source : b.source ≡ a.source
  pub ref : b.ref ≡ a.ref
  pub key : b.key ≡ a.key
  pub value : b.value ≡ a.value
  pub extra : SameMap a.extra b.extra

pub record SameMapping (a b : Mapping) : Type 0 where
  pub path : b.path ≡ a.path
  pub glob : b.glob ≡ a.glob
  pub cwd_glob : b.cwd_glob ≡ a.cwd_glob
  pub commands : b.commands ≡ a.commands
  pub vars : SameList SameVar a.vars b.vars

-- The lists of the mappings, their commands and their variables keep their order. The maps at the top
-- of the second document have no key twice.
pub record SameDocument (d d' : Document) : Type 0 where
  pub version : d'.stored.config.version ≡ d.stored.config.version
  pub sources :
      (id : Text)
      → SameOption SameSource
          (lookup id d.stored.config.sources)
          (lookup id d'.stored.config.sources)
  pub mappings : SameList SameMapping d.stored.config.mappings d'.stored.config.mappings
  pub secrets :
      (id : Text)
      → SameOption SameMap (lookup id d.stored.config.secrets) (lookup id d'.stored.config.secrets)
  pub distinct_sources : IsDistinct (keys_of d'.stored.config.sources)
  pub distinct_bags : IsDistinct (keys_of d'.stored.config.secrets)
  pub distinct_keys : All (λ p. IsDistinct (keys_of p.1)) d'.stored.config.secrets
  pub name_map : d'.stored.name_map ≡ d.stored.name_map
  pub id_map : d'.stored.id_map ≡ d.stored.id_map
  pub migrated_at : d'.migrated_at ≡ d.migrated_at
