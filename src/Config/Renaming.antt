-- ===== src/Config/Renaming.antt =====
-- internal/config/encrypt.go and decrypt.go: the names in a configuration and the identifiers that stand
-- for them on disk. The sources are keyed by their identifiers, as they are when variables are renamed.
pub mod Inverse
pub mod Equal
mod Tests
use jitenv.Base.{
  Bool, true, false, not, ◌&&◌, ◌||◌, Option, none, some, List, [], ◌∷◌, map, if◌then◌else◌, ◌==◌,
  Text, codes, same, is_empty, Assoc, lookup, insert, length,
}
use jitenv.Crypto.Envelope.{is_envelope}
use jitenv.Config.{VarRef, Mapping, SourceConfig, Config}
use jitenv.Config.Rekeyed.{rekey}
use jitenv.Config.Ids.{NameMap}

abbrev pub or_same : Text → Option Text → Text
or_same t none = t
or_same t (some u) = u

abbrev pub or_no_keys : Option (Assoc Text) → Assoc Text
or_no_keys none = []
or_no_keys (some m) = m

-- m[bag], which is empty where there is none
abbrev pub keys_in : Text → Assoc (Assoc Text) → Assoc Text
keys_in bag m = or_no_keys (lookup bag m)

abbrev pub is_local : Option SourceConfig → Bool
is_local none = false
is_local (some sc) = same sc.type (codes "local")

-- the reverse maps that EncryptInPlace builds, the keys by the identifier of their bag
pub record ToIds : Type 0 where
  pub sources : Assoc Text
  pub bags : Assoc Text
  pub keys : Assoc (Assoc Text)

abbrev pub is_name : Text → Bool
is_name t = not (is_empty t) && not (is_envelope t)

unfoldable pub key_to_id : Assoc Text → Text → Text
unfolding lookup
key_to_id ids k = if is_name k then or_same k (lookup k ids) else k

abbrev pub bag_to_id : ToIds → VarRef → Option Text → VarRef
bag_to_id ids v none = v
bag_to_id ids v (some bag) = record v { ref = bag; key = key_to_id (keys_in bag ids.keys) v.key }

abbrev pub ref_to_id : ToIds → VarRef → VarRef
ref_to_id ids v = if is_name v.ref then bag_to_id ids v (lookup v.ref ids.bags) else v

abbrev pub source_to_id : Assoc SourceConfig → ToIds → VarRef → Option Text → VarRef
source_to_id sources ids v none = v
source_to_id sources ids v (some id) =
    if is_local (lookup id sources)
    then ref_to_id ids (record v { source = id })
    else record v { source = id }

-- translateVarNamesToIDs
unfoldable pub names_to_ids : Assoc SourceConfig → ToIds → VarRef → VarRef
unfolding key_to_id
names_to_ids sources ids v =
    if is_empty v.source || is_envelope v.source
    then v
    else source_to_id sources ids v (lookup v.source ids.sources)

abbrev pub key_to_name : Assoc Text → Text → Text
key_to_name names k = if not (is_empty k) then or_same k (lookup k names) else k

-- the part of translateIDsToNames for one variable
unfoldable pub ids_to_names : Assoc SourceConfig → NameMap → VarRef → VarRef
unfolding lookup
ids_to_names sources nm v =
    let named = record v { source = or_same v.source (lookup v.source nm.sources) } in
    if is_empty v.source
    then v
    else if not (is_local (lookup v.source sources))
    then named
    else record named {
      ref = or_same v.ref (lookup v.ref nm.bags);
      key = key_to_name (keys_in v.ref nm.keys) v.key;
    }

abbrev pub name_of : Assoc Text → Text → Text
name_of names id = or_same id (lookup id names)

-- the part of translateIDsToNames for the sources
unfoldable pub named_sources : Assoc Text → Assoc SourceConfig → Assoc SourceConfig
unfolding rekey
named_sources names sources =
    if not (is_empty names) && not (is_empty sources)
    then rekey (name_of names) (λ id sc. sc) [] sources
    else sources

-- the part for the keys of a bag
unfoldable pub named_keys : Assoc Text → Assoc Text → Assoc Text
unfolding rekey
named_keys names kv = rekey (name_of names) (λ id v. v) [] kv

-- the part for the bags
unfoldable pub named_bags : NameMap → Assoc (Assoc Text) → Assoc (Assoc Text)
unfolding named_keys
named_bags nm secrets =
    rekey (name_of nm.bags) (λ id kv. named_keys (keys_in id nm.keys) kv) [] secrets

abbrev pub renamed_vars : (VarRef → VarRef) → Mapping → Mapping
renamed_vars f m = record m { vars = map f m.vars }

abbrev pub over_vars : (VarRef → VarRef) → List Mapping → List Mapping
over_vars f ms = map (renamed_vars f) ms

-- translateIDsToNames
unfoldable pub translate_ids_to_names : NameMap → Config → Config
unfolding named_sources named_bags ids_to_names
translate_ids_to_names nm c = record c {
  sources = named_sources nm.sources c.sources;
  secrets = named_bags nm c.secrets;
  mappings = over_vars (ids_to_names c.sources nm) c.mappings;
}

abbrev pub is_value : Text → Option Text → Bool
is_value v none = false
is_value v (some w) = same w v

-- stringMapEqual
unfoldable pub all_equal : Assoc Text → Assoc Text → Bool
all_equal [] b = true
all_equal ((k, v) ∷ a) b = is_value v (lookup k b) && all_equal a b

unfoldable pub string_map_equal : Assoc Text → Assoc Text → Bool
string_map_equal a b = length a == length b && all_equal a b

abbrev pub is_map : Assoc Text → Option (Assoc Text) → Bool
is_map m none = false
is_map m (some n) = string_map_equal m n

unfoldable pub all_keys_equal : Assoc (Assoc Text) → Assoc (Assoc Text) → Bool
all_keys_equal [] b = true
all_keys_equal ((bag, m) ∷ a) b = is_map m (lookup bag b) && all_keys_equal a b

-- nameMapEqual
unfoldable pub name_map_equal : NameMap → NameMap → Bool
name_map_equal a b =
    string_map_equal a.sources b.sources
    && string_map_equal a.bags b.bags
    && length a.keys == length b.keys
    && all_keys_equal a.keys b.keys
