-- ===== src/Config/Sealing.antt =====
-- internal/config: the sealing and opening of single values (encrypt.go, decrypt.go) under the associated
-- data of their slots (edit.go). What rand.Read gives is a list that every nonce takes one of.
pub mod RoundTrip
mod Tests
use jitenv.Base.{
  ℕ, ◌+◌, Bool, true, false, not, ◌||◌, Option, none, some, List, [], ◌∷◌, if◌then◌else◌, Result,
  ok, err, ◌>>=◌, Text, codes, is_empty, decimal, Assoc,
}
use jitenv.Crypto.Values.{Value, str, table, array, scalar, Fields, end, field}
use jitenv.Crypto.Aead.{Cipher, CryptoError}
use jitenv.Crypto.Envelope.{aad, is_envelope, encrypt_field, decrypt_field, decrypt_strings}
use jitenv.Config.{VarRef, Mapping, SourceConfig}

-- a panic of AAD, or an error of the cryptography
pub data SealError : Type 0 where
  panicked : SealError
  failed : CryptoError → SealError

abbrev pub source_param_aad : Text → Text → Option Text
source_param_aad id key = aad (codes "src" ∷ id ∷ key ∷ [])

abbrev pub secret_aad : Text → Text → Option Text
secret_aad bag key = aad (codes "secret" ∷ bag ∷ key ∷ [])

abbrev pub var_field_aad : ℕ → ℕ → Text → Option Text
var_field_aad i j name = aad (codes "var" ∷ decimal i ∷ decimal j ∷ name ∷ [])

abbrev pub var_extra_aad : ℕ → ℕ → Text → Option Text
var_extra_aad i j key = aad (codes "var" ∷ decimal i ∷ decimal j ∷ codes "extra" ∷ key ∷ [])

abbrev pub Randoms : Type 0
Randoms = List (Option Text)

-- what the next rand.Read gives, and what is left
abbrev pub drawn : Randoms → Option Text
drawn [] = none
drawn (r ∷ rs) = r

abbrev pub undrawn : Randoms → Randoms
undrawn [] = []
undrawn (r ∷ rs) = rs

abbrev pub with_rest : Randoms → Result CryptoError Text → Result SealError (Text × Randoms)
with_rest rs (ok env) = ok (env, rs)
with_rest rs (err e) = err (failed e)

abbrev pub or_failed : Result CryptoError Text → Result SealError Text
or_failed (ok p) = ok p
or_failed (err e) = err (failed e)

abbrev pub fields_or_failed : Result CryptoError Fields → Result SealError Fields
fields_or_failed (ok p) = ok p
fields_or_failed (err e) = err (failed e)

module _ (c : Cipher) (key : Text) where
  abbrev pub seal_under : Option Text → Text → Randoms → Result SealError (Text × Randoms)
  seal_under none v rs = err panicked
  seal_under (some ad) v rs = with_rest (undrawn rs) (encrypt_field c (drawn rs) key v ad)

  -- a value that is empty or an envelope stays
  unfoldable pub seal_value : Option Text → Text → Randoms → Result SealError (Text × Randoms)
  seal_value ad v rs = if is_empty v || is_envelope v then ok (v, rs) else seal_under ad v rs

  abbrev pub open_under : Option Text → Text → Result SealError Text
  open_under none v = err panicked
  open_under (some ad) v = or_failed (decrypt_field c key v ad)

  unfoldable pub open_value : Option Text → Text → Result SealError Text
  open_value ad v = if not (is_envelope v) then ok v else open_under ad v

  -- the parameters of a source: the strings at the top of the table, and no other
  unfoldable pub seal_params : Text → Fields → Randoms → Result SealError (Fields × Randoms)
  seal_params id end rs = ok (end, rs)
  seal_params id (field k (str s) rest) rs = do
    (s', r) ← seal_value (source_param_aad id k) s rs
    (rest', r') ← seal_params id rest r
    ok (field k (str s') rest', r')
  seal_params id (field k v rest) rs = do
    (rest', r) ← seal_params id rest rs
    ok (field k v rest', r)

  abbrev pub open_in : Option Text → Fields → Result SealError Fields
  open_in none fs = err panicked
  open_in (some ctx) fs = fields_or_failed (decrypt_strings c key fs ctx)

  -- DecryptStringsInPlace under the context of the source
  unfoldable pub open_params : Text → Fields → Result SealError Fields
  open_params id fs = open_in (aad (codes "src" ∷ id ∷ [])) fs

  -- the extra values of a variable
  unfoldable pub seal_extra : ℕ → ℕ → Assoc Text → Randoms → Result SealError (Assoc Text × Randoms)
  seal_extra i j [] rs = ok ([], rs)
  seal_extra i j ((k, v) ∷ rest) rs = do
    (v', r) ← seal_value (var_extra_aad i j k) v rs
    (rest', r') ← seal_extra i j rest r
    ok ((k, v') ∷ rest', r')

  pub open_extra : ℕ → ℕ → Assoc Text → Result SealError (Assoc Text)
  open_extra i j [] = ok []
  open_extra i j ((k, v) ∷ rest) = do
    v' ← open_value (var_extra_aad i j k) v
    rest' ← open_extra i j rest
    ok ((k, v') ∷ rest')

  unfoldable pub seal_var : ℕ → ℕ → VarRef → Randoms → Result SealError (VarRef × Randoms)
  seal_var i j v rs = do
    (name, r1) ← seal_value (var_field_aad i j (codes "name")) v.name rs
    (source, r2) ← seal_value (var_field_aad i j (codes "source")) v.source r1
    (ref, r3) ← seal_value (var_field_aad i j (codes "ref")) v.ref r2
    (k, r4) ← seal_value (var_field_aad i j (codes "key")) v.key r3
    (value, r5) ← seal_value (var_field_aad i j (codes "value")) v.value r4
    (extra, r6) ← seal_extra i j v.extra r5
    ok (
      record { name = name; source = source; ref = ref; key = k; extra = extra; value = value },
      r6,
    )

  pub open_var : ℕ → ℕ → VarRef → Result SealError VarRef
  open_var i j v = do
    name ← open_value (var_field_aad i j (codes "name")) v.name
    source ← open_value (var_field_aad i j (codes "source")) v.source
    ref ← open_value (var_field_aad i j (codes "ref")) v.ref
    k ← open_value (var_field_aad i j (codes "key")) v.key
    value ← open_value (var_field_aad i j (codes "value")) v.value
    extra ← open_extra i j v.extra
    ok (record { name = name; source = source; ref = ref; key = k; extra = extra; value = value })

  unfoldable pub seal_vars :
      ℕ → ℕ → List VarRef → Randoms → Result SealError (List VarRef × Randoms)
  seal_vars i j [] rs = ok ([], rs)
  seal_vars i j (v ∷ vs) rs = do
    (v', r) ← seal_var i j v rs
    (vs', r') ← seal_vars i (j + 1) vs r
    ok (v' ∷ vs', r')

  pub open_vars : ℕ → ℕ → List VarRef → Result SealError (List VarRef)
  open_vars i j [] = ok []
  open_vars i j (v ∷ vs) = do v' ← open_var i j v; vs' ← open_vars i (j + 1) vs; ok (v' ∷ vs')

  unfoldable pub seal_mappings :
      ℕ → List Mapping → Randoms → Result SealError (List Mapping × Randoms)
  seal_mappings i [] rs = ok ([], rs)
  seal_mappings i (m ∷ ms) rs = do
    (vs, r) ← seal_vars i 0 m.vars rs
    (ms', r') ← seal_mappings (i + 1) ms r
    ok (record m { vars = vs } ∷ ms', r')

  unfoldable pub open_mappings : ℕ → List Mapping → Result SealError (List Mapping)
  open_mappings i [] = ok []
  open_mappings i (m ∷ ms) = do
    vs ← open_vars i 0 m.vars
    ms' ← open_mappings (i + 1) ms
    ok (record m { vars = vs } ∷ ms')

  -- the values of a bag, by the identifiers of their keys
  unfoldable pub open_bag : Text → Assoc Text → Result SealError (Assoc Text)
  open_bag bag [] = ok []
  open_bag bag ((k, v) ∷ rest) = do
    v' ← open_value (secret_aad bag k) v
    rest' ← open_bag bag rest
    ok ((k, v') ∷ rest')
