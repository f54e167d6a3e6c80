-- ===== src/Config/Encrypting/Tests.antt =====
-- A run of EncryptInPlace with the toy cipher and a coding of one dictionary, and the theorem at it.
use jitenv.Base.{
  ℕ, zero, suc, none, some, [], ◌∷◌, ◌++◌, ok, ◌≡◌, refl, arith, inr, Text, codes, same, All,
  lookup, insert, contains_text, has_prefix, join, decimal,
}
use jitenv.Crypto.Values.{end, field, str}
use jitenv.Crypto.Aead.{seal}
use jitenv.Crypto.Base64.{encode}
use jitenv.Crypto.Framed.{framed, framed_laws}
use jitenv.Crypto.Envelope.{aad, is_envelope, encrypt_field}
use jitenv.Config.{VarRef, Mapping}
use jitenv.Config.Ids.{NameMap, mint, hex, new_id, name_to_id, name_to_id_from}
use jitenv.Config.Sealing.{
  Randoms, seal_value, seal_params, seal_extra, seal_var, seal_vars, seal_mappings,
}
use jitenv.Config.Sealing.RoundTrip.{IsDraw}
use jitenv.Config.Assigning.{Draws, assign, assign_sources, assign_bags, assign_bags_from}
use jitenv.Config.Assigning.Prior.{IsDictionary}
use jitenv.Config.Renaming.{
  names_to_ids, key_to_id, name_map_equal, string_map_equal, all_equal, all_keys_equal,
}
use jitenv.Config.Renaming.Equal.{HasMaps}
use jitenv.Config.Rekeyed.{seal_rekeyed}
use jitenv.Config.Encrypting.{
  Stored, no_names, open_name_map, seal_name_map, resealed, seal_source, seal_secrets, sealed_as,
  encrypt_in_place, decrypt_in_place,
}
use jitenv.Config.Encrypting.Closed.{IsClosed, encrypt_in_place-IsClosed}
use jitenv.Config.Encrypting.Coding.{coding, coding_laws}
use jitenv.Config.Encrypting.Params.{FieldsIsPlain, ValueIsPlain}
use jitenv.Config.Encrypting.Translated.{IsNamed}
use jitenv.Config.Encrypting.RoundTrip.{decrypt_in_place-encrypt_in_place}

abbrev repeat : ℕ → ℕ → Text
repeat zero b = []
repeat (suc n) b = b ∷ repeat n b

abbrev key : Text
key = repeat 32 1

abbrev nonce : Text
nonce = repeat 24 7

abbrev envelope : Text → Text → Text
envelope slot v = codes "enc:v2:" ++ encode (nonce ++ framed.encrypt key nonce slot v)

abbrev names : NameMap
names = record {
  sources = (codes "s_0a0b0c", codes "vault") ∷ [];
  bags = (codes "b_010203", codes "db") ∷ [];
  keys = (codes "b_010203", (codes "k_040506", codes "PW") ∷ []) ∷ [];
}

distinct_names : HasMaps names
unfolding contains_text
distinct_names = record {
  sources = (refl, tt);
  bags = (refl, tt);
  key_bags = (refl, tt);
  keys = ((refl, tt), tt);
}

abbrev variable : VarRef
variable = record {
  name = codes "P";
  source = codes "vault";
  ref = codes "db";
  key = codes "PW";
  extra = [];
  value = [];
}

abbrev mapping : VarRef → Mapping
mapping v = record { path = codes "/x"; glob = []; cwd_glob = []; commands = []; vars = v ∷ [] }

abbrev before : Stored
before = record {
  config = record {
    version = 1;
    sources =
        (
          codes "vault",
          record { type = codes "local"; params = field (codes "u") (str (codes "v")) end },
        )
        ∷ [];
    mappings = mapping variable ∷ [];
    secrets = (codes "db", (codes "PW", codes "pw") ∷ []) ∷ [];
  };
  name_map = [];
  id_map = none;
}

abbrev after : Stored
after = record {
  config = record {
    version = 1;
    sources =
        (
          codes "s_0a0b0c",
          record {
            type = codes "local";
            params = field (codes "u") (str (envelope (codes "src.s_0a0b0c.u") (codes "v"))) end;
          },
        )
        ∷ [];
    mappings =
        mapping (record {
          name = envelope (codes "var.0.0.name") (codes "P");
          source = envelope (codes "var.0.0.source") (codes "s_0a0b0c");
          ref = envelope (codes "var.0.0.ref") (codes "b_010203");
          key = envelope (codes "var.0.0.key") (codes "k_040506");
          extra = [];
          value = [];
        })
        ∷ [];
    secrets =
        (
          codes "b_010203",
          (codes "k_040506", envelope (codes "secret.b_010203.k_040506") (codes "pw")) ∷ [],
        )
        ∷ [];
  };
  name_map = envelope (codes "meta.name_map") (codes "{}");
  id_map = some names;
}

abbrev draws : Draws
draws = some (10 ∷ 11 ∷ 12 ∷ 0 ∷ []) ∷ some (1 ∷ 2 ∷ 3 ∷ 0 ∷ []) ∷ some (4 ∷ 5 ∷ 6 ∷ 0 ∷ []) ∷ []

abbrev nonces : Randoms
nonces =
    some nonce ∷ some nonce ∷ some nonce ∷ some nonce ∷ some nonce ∷ some nonce ∷ some nonce ∷ []

encrypt_run : encrypt_in_place (coding names) framed key before draws nonces ≡ ok after
unfolding encrypt_in_place sealed_as resealed seal_name_map open_name_map seal_source seal_secrets
    seal_rekeyed assign_sources assign_bags assign_bags_from assign name_to_id name_to_id_from
    new_id mint hex lookup insert same contains_text names_to_ids key_to_id name_map_equal
    string_map_equal all_equal all_keys_equal seal_params seal_mappings seal_vars seal_var
    seal_extra seal_value encrypt_field seal is_envelope has_prefix aad join decimal
encrypt_run = refl

is_named : IsNamed before.config
unfolding contains_text lookup same is_envelope has_prefix FieldsIsPlain ValueIsPlain
is_named = record {
  sources = (refl, tt);
  bags = (refl, tt);
  keys = ((refl, tt), tt);
  params = ((refl, tt), tt);
  values = ((refl, tt), tt);
  vars = (((refl, refl, refl, refl, refl, tt), tt), tt);
  references =
      ((inr (refl, _, refl, inr (refl, refl, _, refl, inr (refl, codes "pw", refl))), tt), tt);
}

no_prior : IsDictionary no_names
no_prior = record {
  maps = record { sources = tt; bags = tt; key_bags = tt; keys = tt };
  sources = tt;
  bags = tt;
  keys = tt;
}

prior_run : open_name_map (coding names) framed key [] ≡ ok no_names
unfolding open_name_map
prior_run = refl

is_nonce : IsDraw (some nonce)
is_nonce = omega arith

all_nonces : All IsDraw nonces
all_nonces = (is_nonce, (is_nonce, (is_nonce, (is_nonce, (is_nonce, (is_nonce, (is_nonce, tt)))))))

decrypt_in_place-encrypt_in_place_example :
    (nm : NameMap) × (decrypt_in_place (coding names) framed key after
      ≡ ok (record { config = before.config; name_map = after.name_map; id_map = some nm }))
decrypt_in_place-encrypt_in_place_example =
    decrypt_in_place-encrypt_in_place (coding names) (coding_laws names distinct_names) framed
      framed_laws key refl before no_names draws nonces after is_named prior_run no_prior all_nonces
      encrypt_run

encrypt_in_place-IsClosed_example : IsClosed after.config
encrypt_in_place-IsClosed_example =
    encrypt_in_place-IsClosed framed key (coding names) before draws nonces after encrypt_run
