-- ===== src/Config/Ids.antt =====
-- internal/config/nameid.go: the opaque identifiers of sources, bags and bag keys, and the dictionary of
-- their names. What rand.Read gives is a list, from which every attempt takes four bytes.
pub mod Fresh
mod Tests
use jitenv.Base.{
  ℕ, zero, suc, ◌+◌, ◌/◌, ◌%◌, Bool, true, false, not, ◌&&◌, ◌||◌, Option, none, some, List, [],
  ◌∷◌, ◌++◌, if◌then◌else◌, ltb, leb, ◌==◌, Result, ok, err, Text, codes, has_prefix, length, take,
  drop, Assoc, lookup, insert, contains_text,
}
use jitenv.Config.{SourceConfig, Config}

abbrev pub id_prefix_source : Text
id_prefix_source = codes "s_"

abbrev pub id_prefix_bag : Text
id_prefix_bag = codes "b_"

abbrev pub id_prefix_key : Text
id_prefix_key = codes "k_"

abbrev pub id_hex_len : ℕ
id_hex_len = 6

-- the decrypted dictionary, from identifiers to names; the keys are by bag
pub record NameMap : Type 0 where
  pub sources : Assoc Text
  pub bags : Assoc Text
  pub keys : Assoc (Assoc Text)

abbrev pub is_hex : ℕ → Bool
is_hex c = leb b'0' c && leb c b'9' || leb b'a' c && leb c b'f'

-- the loop of `isID`
pub all_hex : Text → Bool
all_hex [] = true
all_hex (c ∷ cs) = is_hex c && all_hex cs

-- every prefix has two bytes
unfoldable pub is_id : Text → Text → Bool
is_id s prefix = has_prefix s prefix && (length (drop 2 s) == id_hex_len && all_hex (drop 2 s))

abbrev pub hex_digit : ℕ → ℕ
hex_digit n = if ltb n 10 then b'0' + n else 87 + n

-- hex.EncodeToString
unfoldable pub hex : Text → Text
hex [] = []
hex (b ∷ bs) = hex_digit (b / 16) ∷ hex_digit (b % 16) ∷ hex bs

pub data MintError : Type 0 where
  no_random exhausted : MintError

-- The loop of newID, with the attempts that are left and what rand.Read gives in each, `none` for
-- its error. The result carries what is left to read.
unfoldable pub mint :
    ℕ → Text → List Text → List (Option Text) → Result MintError (Text × List (Option Text))
mint zero prefix taken rs = err exhausted
mint (suc n) prefix taken [] = err no_random
mint (suc n) prefix taken (none ∷ rs) = err no_random
mint (suc n) prefix taken (some buf ∷ rs) =
    let again = mint n prefix taken rs in
    let id = prefix ++ take id_hex_len (hex buf) in
    if not (contains_text taken id) then ok (id, rs) else again

-- newID
unfoldable pub new_id :
    Text → List Text → List (Option Text) → Result MintError (Text × List (Option Text))
new_id prefix taken rs = mint 64 prefix taken rs

-- nameToID, on the pairs that are left and the map so far
unfoldable pub name_to_id_from : Assoc Text → Assoc Text → Assoc Text
name_to_id_from out [] = out
name_to_id_from out ((id, name) ∷ rest) =
    name_to_id_from (elim (lookup name out) [ none ↦ insert name id out | some i ↦ out ]) rest

unfoldable pub name_to_id : Assoc Text → Assoc Text
name_to_id m = name_to_id_from [] m

unfoldable pub all_source_ids : Assoc SourceConfig → Bool
all_source_ids [] = true
all_source_ids ((id, s) ∷ rest) = is_id id id_prefix_source && all_source_ids rest

unfoldable pub all_key_ids : Assoc Text → Bool
all_key_ids [] = true
all_key_ids ((id, v) ∷ rest) = is_id id id_prefix_key && all_key_ids rest

unfoldable pub all_bag_ids : Assoc (Assoc Text) → Bool
all_bag_ids [] = true
all_bag_ids ((id, kv) ∷ rest) = is_id id id_prefix_bag && all_key_ids kv && all_bag_ids rest

-- HasOpaqueIDShape
unfoldable pub has_opaque_id_shape : Config → Bool
has_opaque_id_shape c = all_source_ids c.sources && all_bag_ids c.secrets

-- NeedsIDMigration
unfoldable pub needs_id_migration : Config → Bool
needs_id_migration c = not (has_opaque_id_shape c)
