-- ===== src/Config/Migrating/Tests.antt =====
-- A migration of a configuration with a bag of two keys, and the theorems at it.
use jitenv.Base.{
  ℕ, zero, suc, Bool, true, false, ◌&&◌, none, some, List, [], ◌∷◌, ◌++◌, if◌then◌else◌, ◌==◌,
  ==_iff, Result, ok, err, ◌≡◌, ◌≢◌, ◌∙◌, refl, sym, subst, ap, arith, inl, inr, Bool-cases, Text,
  codes, same, same_iff, is_empty, Assoc, lookup, insert, contains_text, has_prefix, join,
}
use jitenv.Crypto.Aead.{seal, open_blob}
use jitenv.Crypto.Base64.{encode, decode, sextet_char}
use jitenv.Crypto.Framed.{framed, framed_laws, frame, open_frames}
use jitenv.Crypto.Envelope.{aad, is_envelope, encrypt_field, decrypt_field}
use jitenv.Config.{SourceConfig, Mapping, Config}
use jitenv.Config.Ids.{
  NameMap, mint, hex, new_id, name_to_id, name_to_id_from, is_id, has_opaque_id_shape,
  all_source_ids, all_bag_ids, all_key_ids, needs_id_migration,
}
use jitenv.Config.Sealing.{Randoms, seal_value, seal_mappings, open_value, open_bag, open_mappings}
use jitenv.Config.Sealing.RoundTrip.{IsDraw}
use jitenv.Config.Assigning.{keys_of, Draws, assign, assign_sources, assign_bags, assign_bags_from}
use jitenv.Config.Renaming.{
  name_map_equal, string_map_equal, all_equal, all_keys_equal, named_sources, named_keys,
  named_bags, translate_ids_to_names,
}
use jitenv.Config.Renaming.Equal.{HasMaps}
use jitenv.Config.Rekeyed.Back.{IsDistinct}
use jitenv.Config.Rekeyed.{rekey, seal_rekeyed, open_all}
use jitenv.Config.Encrypting.{
  Stored, no_names, open_name_map, seal_name_map, resealed, seal_secrets, sealed_as,
  encrypt_in_place, decrypt_in_place,
}
use jitenv.Config.Encrypting.Coding.{coding, coding_laws}
use jitenv.Config.Encrypting.Translated.{IsNamed}
use jitenv.Config.Retention.{migration_backup_retention, is_expired, sweep_backups}
use jitenv.Config.Migrating.{
  Files, Document, System, Call, MigrateError, backup_path, load, write_verbatim_backup,
  atomic_save, migrate_locked,
}
use jitenv.Config.Migrating.Untouched.{backup_path-ne, migrate_locked_untouched}
use jitenv.Config.Migrating.Same.{same_none, same_some, same_nil, SameDocument}
use jitenv.Config.Migrating.Kept.{SystemLaws, migrate_locked-kept}

abbrev repeat : ℕ → ℕ → Text
repeat zero b = []
repeat (suc n) b = b ∷ repeat n b

abbrev key : Text
key = repeat 32 1

abbrev nonce : Text
nonce = repeat 24 7

abbrev envelope : Text → Text → Text
envelope slot v = codes "enc:v2:" ++ encode (nonce ++ framed.encrypt key nonce slot v)

abbrev names : NameMap
names = record {
  sources = [];
  bags = (codes "b_010203", codes "db") ∷ [];
  keys =
      (codes "b_010203", (codes "k_070809", codes "PW") ∷ (codes "k_040506", codes "AB") ∷ []) ∷ [];
}

abbrev of_secrets : Assoc (Assoc Text) → Config
of_secrets m = record { version = 1; sources = []; mappings = []; secrets = m }

abbrev legacy : Stored
legacy = record {
  config = of_secrets (
      (
        codes "db",
        (codes "PW", envelope (codes "secret.db.PW") (codes "pw"))
            ∷ (codes "AB", envelope (codes "secret.db.AB") (codes "ab"))
            ∷ [],
      )
      ∷ []);
  name_map = [];
  id_map = none;
}

abbrev plain : Stored
plain = record {
  config = of_secrets ((codes "db", (codes "PW", codes "pw") ∷ (codes "AB", codes "ab") ∷ []) ∷ []);
  name_map = [];
  id_map = some no_names;
}

abbrev first_value : Text
first_value = envelope (codes "secret.b_010203.k_070809") (codes "pw")

abbrev second_value : Text
second_value = envelope (codes "secret.b_010203.k_040506") (codes "ab")

abbrev new_bag : Assoc Text
new_bag = (codes "k_070809", first_value) ∷ (codes "k_040506", second_value) ∷ []

abbrev new_secrets : Assoc (Assoc Text)
new_secrets = (codes "b_010203", new_bag) ∷ []

-- the keys in the order in which TOML writes them
abbrev sorted_bag : Assoc Text
sorted_bag = (codes "k_040506", second_value) ∷ (codes "k_070809", first_value) ∷ []

abbrev new_names : Text
new_names = envelope (codes "meta.name_map") (codes "{}")

abbrev of_new : Assoc (Assoc Text) → Document
of_new m = record {
  stored = record { config = of_secrets m; name_map = new_names; id_map = none };
  migrated_at = codes "T";
}

abbrev sealed : Document
sealed = of_new new_secrets

abbrev migrated : Document
migrated = of_new ((codes "b_010203", sorted_bag) ∷ [])

-- the two entries of the one bag
abbrev is_bag : Assoc (Assoc Text) → Bool
is_bag ((bag, (k, v) ∷ (l, w) ∷ []) ∷ []) =
    same bag (codes "b_010203")
    && (same k (codes "k_070809") && same v first_value)
    && (same l (codes "k_040506") && same w second_value)
is_bag _ = false

is_bag_lem : (m : Assoc (Assoc Text)) → is_bag m ≡ true → m ≡ new_secrets
is_bag_lem ((bag, (k, v) ∷ (l, w) ∷ []) ∷ []) h =
    let a : bag ≡ codes "b_010203" = (same_iff bag _).0 (ground arith) in
    let b : k ≡ codes "k_070809" = (same_iff k _).0 (ground arith) in
    let c : v ≡ first_value = (same_iff v _).0 (ground arith) in
    let d : l ≡ codes "k_040506" = (same_iff l _).0 (ground arith) in
    let e : w ≡ second_value = (same_iff w _).0 (ground arith) in rw (a, b, c, d, e)
is_bag_lem _ h = absurd cc

bags_alike : (k : Text) → lookup k sorted_bag ≡ lookup k new_bag
unfolding lookup
bags_alike k = ground (arith, same_iff (codes "k_040506") k, same_iff (codes "k_070809") k)

sorted_distinct : IsDistinct (keys_of sorted_bag)
unfolding contains_text same
sorted_distinct = (refl, (refl, tt))

sealed-SameDocument : SameDocument sealed migrated
unfolding lookup contains_text
sealed-SameDocument = record {
  version = refl;
  sources = λ id. same_none;
  mappings = same_nil;
  secrets = λ id. elim (Bool-cases (same (codes "b_010203") id)) [
    | inl e ↦ rw e (same_some bags_alike)
    | inr e ↦ rw e same_none
  ];
  distinct_sources = tt;
  distinct_bags = (refl, tt);
  distinct_keys = (sorted_distinct, tt);
  name_map = refl;
  id_map = refl;
  migrated_at = refl;
}

abbrev is_migrated : Document → Bool
is_migrated d =
    d.stored.config.version == 1
    && (is_empty d.stored.config.sources
        && (is_empty d.stored.config.mappings
            && (is_bag d.stored.config.secrets
                && (same d.stored.name_map new_names && same d.migrated_at (codes "T")))))

none_there : {A : Type 0} (m : List A) → is_empty m ≡ true → m ≡ []
none_there [] h = refl
none_there (x ∷ m) h = absurd cc

document_eq :
    (v : ℕ) (x : Assoc SourceConfig) (y : List Mapping) (z : Assoc (Assoc Text)) (n t : Text)
    → v ≡ 1
    → x ≡ []
    → y ≡ []
    → z ≡ new_secrets
    → n ≡ new_names
    → t ≡ codes "T"
    → ◌≡◌ {A = Document} sealed (record {
      stored = record {
        config = record { version = v; sources = x; mappings = y; secrets = z };
        name_map = n;
        id_map = none;
      };
      migrated_at = t;
    })
document_eq v x y z n t a b c d e f = rw (a, b, c, d, e, f)

abbrev path : Text
path = codes "/c"

-- TOML of two documents
abbrev system : System
system = record {
  decode = λ b.
      if same b (codes "old")
      then some (record { stored = legacy; migrated_at = [] })
      else if same b (codes "new")
      then some migrated
      else none;
  encode = λ d. if is_migrated d then some (codes "new") else none;
  glob = λ pattern fs. [];
  fails = λ call. false;
  now = codes "T";
  stamp = codes "0";
  age = λ t. some 0;
  removes = λ f. true;
  retention = none;
}

system_laws : SystemLaws system path
unfolding same contains_text
system_laws = record {
  decode-encode = λ d b e. elim (Bool-cases (is_migrated d)) [
    | inl t ↦
        let one : some (codes "new") ≡ some b = rw t at e in
        let is_b : codes "new" ≡ b = cc in
        let is_sealed =
          document_eq d.stored.config.version d.stored.config.sources d.stored.config.mappings
            d.stored.config.secrets d.stored.name_map d.migrated_at
            ((==_iff d.stored.config.version 1).0 (ground arith))
            (none_there d.stored.config.sources (ground arith))
            (none_there d.stored.config.mappings (ground arith))
            (is_bag_lem d.stored.config.secrets (ground arith))
            ((same_iff d.stored.name_map new_names).0 (ground arith))
            ((same_iff d.migrated_at (codes "T")).0 (ground arith)) in
        (
          migrated,
          rw (← is_b) refl,
          subst (λ x. SameDocument x migrated) is_sealed sealed-SameDocument,
        )
    | inr t ↦ let no : none ≡ some b = rw t at e in absurd cc
  ];
  glob-others = λ fs. refl;
}

one_each : HasMaps names
unfolding contains_text same
one_each = record {
  sources = tt;
  bags = (refl, tt);
  key_bags = (refl, tt);
  keys = ((refl, (refl, tt)), tt);
}

abbrev backup : Text
backup = backup_path path (codes "0")

abbrev files : Files
files = (path, codes "old") ∷ []

abbrev files_after : Files
files_after = (path, codes "new") ∷ (backup, codes "old") ∷ []

abbrev draws : Draws
draws = some (1 ∷ 2 ∷ 3 ∷ 0 ∷ []) ∷ some (7 ∷ 8 ∷ 9 ∷ 0 ∷ []) ∷ some (4 ∷ 5 ∷ 6 ∷ 0 ∷ []) ∷ []

abbrev nonces : Randoms
nonces = some nonce ∷ some nonce ∷ some nonce ∷ []

load_run : load system path files ≡ ok (record { stored = legacy; migrated_at = [] })
unfolding load lookup same
load_run = refl

decrypt_run : decrypt_in_place (coding names) framed key legacy ≡ ok plain
unfolding decrypt_in_place open_name_map open_all open_bag open_value open_mappings decrypt_field
    open_blob decode is_envelope has_prefix aad join translate_ids_to_names named_sources named_bags
    named_keys rekey lookup insert encode sextet_char frame open_frames same
decrypt_run = refl

migrate_run :
    migrate_locked system (coding names) framed key draws nonces path files ≡ (files_after, ok true)
unfolding migrate_locked load lookup insert same needs_id_migration is_id write_verbatim_backup
    atomic_save sweep_backups migration_backup_retention is_expired decrypt_in_place open_name_map
    open_all open_bag open_value open_mappings decrypt_field open_blob decode translate_ids_to_names
    named_sources named_bags named_keys rekey encrypt_in_place sealed_as resealed seal_name_map
    seal_secrets seal_rekeyed assign_sources assign_bags assign_bags_from assign name_to_id
    name_to_id_from new_id mint hex contains_text name_map_equal string_map_equal all_equal
    all_keys_equal seal_mappings seal_value encrypt_field seal is_envelope has_prefix aad join
    encode sextet_char frame open_frames has_opaque_id_shape all_source_ids all_bag_ids all_key_ids
migrate_run = refl

is_named : IsNamed plain.config
unfolding contains_text same is_envelope has_prefix
is_named = record {
  sources = tt;
  bags = (refl, tt);
  keys = ((refl, (refl, tt)), tt);
  params = tt;
  values = ((refl, (refl, tt)), tt);
  vars = tt;
  references = tt;
}

is_nonce : IsDraw (some nonce)
is_nonce = omega arith

migrate_locked-kept_example :
    (d x : Document) × (load system path files_after ≡ ok d)
    × SameDocument x d
    × (nm : NameMap) × (decrypt_in_place (coding names) framed key x.stored
        ≡ ok (record { config = plain.config; name_map = d.stored.name_map; id_map = some nm }))
migrate_locked-kept_example =
    migrate_locked-kept system (coding names) (coding_laws names one_each) framed framed_laws key
      refl draws nonces path files files_after (record { stored = legacy; migrated_at = [] }) plain
      system_laws (is_nonce, (is_nonce, (is_nonce, tt))) load_run refl decrypt_run is_named
      migrate_run

-- the same with a save that fails
abbrev broken : System
broken = record system { fails = λ call. elim call [ Call.saving ↦ true | _ ↦ false ] }

abbrev outcome : Files × Result MigrateError Bool
outcome = migrate_locked broken (coding names) framed key draws nonces path files

broken_run :
    outcome ≡ ((path, codes "old") ∷ (backup, codes "old") ∷ [], err MigrateError.not_saved)
unfolding migrate_locked load lookup insert same needs_id_migration is_id write_verbatim_backup
    atomic_save decrypt_in_place open_name_map open_all open_bag open_value open_mappings
    decrypt_field open_blob decode translate_ids_to_names named_sources named_bags named_keys rekey
    encrypt_in_place sealed_as resealed seal_name_map seal_secrets seal_rekeyed assign_sources
    assign_bags assign_bags_from assign name_to_id name_to_id_from new_id mint hex contains_text
    name_map_equal string_map_equal all_equal all_keys_equal seal_mappings seal_value encrypt_field
    seal is_envelope has_prefix aad join encode sextet_char frame open_frames has_opaque_id_shape
    all_source_ids all_bag_ids all_key_ids
broken_run = refl

not_done : outcome.1 ≢ ok true
not_done e =
    let no : ◌≡◌ {A = Result MigrateError Bool} (err MigrateError.not_saved) (ok true) =
      sym (ap (λ p. p.1) broken_run) ∙ e in
    absurd cc

migrate_locked_untouched_example :
    (lookup path outcome.0 ≡ lookup path files) × (lookup path outcome.0 ≡ lookup path files)
migrate_locked_untouched_example =
    migrate_locked_untouched broken (coding names) framed key draws nonces path path files
      (backup_path-ne path (codes "0")) not_done
