-- ===== src/Config/Encrypting/Names.antt =====
-- The dictionary is read back from its envelope, sealed anew or left as it was.
use jitenv.Base.{
  ℕ, true, not, ◌||◌, Option, none, some, [], ◌∷◌, Result, ok, err, ◌≡◌, ◌≢◌, ◌∙◌, refl, sym, ap,
  arith, inl, inr, Bool-cases, Option-cases, Text, is_empty, All, length, has_prefix,
}
use jitenv.Crypto.Aead.{seal, Cipher, CipherLaws, CryptoError, key_len}
use jitenv.Crypto.Envelope.{is_envelope, encrypt_field, decrypt_field}
use jitenv.Crypto.Envelope.Laws.{decrypt-encrypt_field}
use jitenv.Agent.Protocol.{Codec}
use jitenv.Config.Ids.{NameMap}
use jitenv.Config.Sealing.{SealError, Randoms, drawn, undrawn, with_rest}
use jitenv.Config.Sealing.RoundTrip.{chained, IsDraw, drawn-IsDraw}
use jitenv.Config.Renaming.{name_map_equal}
use jitenv.Config.Renaming.Equal.{Agrees, HasMaps, name_map_equal-Agrees}
use jitenv.Config.Encrypting.{
  EncryptError, sealing, name_map_aad, no_names, names_in, open_name_map, sealed_names,
  seal_name_map, resealed,
}

-- What encoding/json promises of a dictionary: what it wrote is read back with the same names, if
-- perhaps in another order, and what it reads are maps.
pub record NameCodecLaws (codec : Codec NameMap) : Type 0 where
  pub read_back :
      (nm : NameMap) (b : Text)
      → codec.marshal nm ≡ some b
      → (nm' : NameMap) × (codec.unmarshal b ≡ some nm') × Agrees nm' nm
  pub maps : (b : Text) (nm : NameMap) → codec.unmarshal b ≡ some nm → HasMaps nm

pub ok_sealing : {A : Type 0} (r : Result SealError A) (a : A) → sealing r ≡ ok a → r ≡ ok a
ok_sealing (err e) a h = absurd cc
ok_sealing {A} (ok b) a h =
    let one : ◌≡◌ {A = Result EncryptError A} (ok b) (ok a) = h in let same : b ≡ a = cc in rw same

ok_first :
    {R : Type 0} (env env' : Text) (left left' : R)
    → ◌≡◌ {A = Result SealError (Text × R)} (ok (env, left)) (ok (env', left'))
    → env ≡ env'
ok_first env env' left left' h = cc

module _ (codec : Codec NameMap) (laws : NameCodecLaws codec) (c : Cipher)
    (cipher_laws : CipherLaws c) (key : Text) (size : length key ≡ key_len) where
  no_random-err :
      (b : Text) (rs : Randoms) (w : Text × Randoms)
      → with_rest rs (encrypt_field c none key b name_map_aad) ≢ ok w
  unfolding encrypt_field seal
  no_random-err b rs w e = ground arith

  -- The envelope of a text in the slot of the dictionary is opened to that text.
  text_back :
      (o : Option Text) (b : Text) (rest : Randoms) (env : Text) (left : Randoms)
      → IsDraw o
      → with_rest rest (encrypt_field c o key b name_map_aad) ≡ ok (env, left)
      → (is_envelope env ≡ true) × (decrypt_field c key env name_map_aad ≡ ok b)
  text_back none b rest env left h e = absurd (no_random-err b rest (env, left) e)
  text_back (some n) b rest env left h e =
      let (made, is_made, is_env, opens) =
        decrypt-encrypt_field c cipher_laws n key h size b name_map_aad (cc) in
      let same_env : made ≡ env =
        ok_first made env rest left (sym (ap (with_rest rest) is_made) ∙ e) in
      rw (← same_env) (is_env, opens)

  envelope-open :
      (env b : Text)
      → is_envelope env ≡ true
      → decrypt_field c key env name_map_aad ≡ ok b
      → open_name_map codec c key env ≡ names_in codec c key (ok b)
  unfolding open_name_map is_envelope has_prefix
  envelope-open [] b h e = absurd cc
  envelope-open (x ∷ env) b h e = rw e

  sealed_names-open :
      (o : Option Text) (nm : NameMap) (rs : Randoms) (env : Text)
      → All IsDraw rs
      → codec.marshal nm ≡ o
      → sealed_names codec c key o rs ≡ ok env
      → (nm' : NameMap) × (open_name_map codec c key env ≡ ok nm') × Agrees nm' nm
  sealed_names-open none nm rs env r m e = absurd cc
  sealed_names-open (some b) nm rs env r m e =
      let ((env', left), e1, e2) =
        chained (sealing (with_rest (undrawn rs) (encrypt_field c (drawn rs) key b name_map_aad))) _
          e in
      let same_env : env' ≡ env = cc e2 in
      let (is_env, opens) =
        text_back (drawn rs) b (undrawn rs) env' left (drawn-IsDraw c cipher_laws key size rs r)
          (ok_sealing _ (env', left) e1) in
      let (nm', read, agrees) = laws.read_back nm b m in
      (nm', rw (← same_env) (envelope-open env' b is_env opens ∙ rw read), agrees)

  opened-HasMaps :
      (x : ℕ) (env : Text) (nm : NameMap) (r : Result CryptoError Text)
      → names_in codec c key r ≡ ok nm
      → HasMaps nm
  opened-HasMaps x env nm (err e) h = absurd cc
  opened-HasMaps x env nm (ok b) h = elim (Option-cases (codec.unmarshal b)) [
    | inl e ↦ let no : err _ ≡ ok nm = rw e at h in absurd cc
    | inr (nm', e) ↦
        let one : ◌≡◌ {A = Result EncryptError NameMap} (ok nm') (ok nm) = rw e at h in
        let same : nm' ≡ nm = cc in rw (← same) (laws.maps b nm' e)
  ]

  pub open_name_map-HasMaps :
      (env : Text) (nm : NameMap) → open_name_map codec c key env ≡ ok nm → HasMaps nm
  unfolding open_name_map
  open_name_map-HasMaps [] nm h =
      let one : no_names ≡ nm = cc in
      rw (← one) (record { sources = tt; bags = tt; key_bags = tt; keys = tt })
  open_name_map-HasMaps (x ∷ env) nm h =
      opened-HasMaps x env nm (decrypt_field c key (x ∷ env) name_map_aad) h

  -- Whether it was sealed again or not, the dictionary on disk afterwards has the new names.
  pub resealed-open :
      (env : Text) (last nm : NameMap) (rs : Randoms) (env' : Text)
      → All IsDraw rs
      → open_name_map codec c key env ≡ ok last
      → resealed codec c key env last nm rs ≡ ok env'
      → (nm' : NameMap) × (open_name_map codec c key env' ≡ ok nm') × Agrees nm' nm
  unfolding resealed seal_name_map
  resealed-open env last nm rs env' r o e =
      elim (Bool-cases (is_empty env || not (name_map_equal last nm))) [
        | inl t ↦ sealed_names-open (codec.marshal nm) nm rs env' r refl (rw t at e)
        | inr t ↦
            let kept : ◌≡◌ {A = Result EncryptError Text} (ok env) (ok env') = rw t at e in
            let same_env : env ≡ env' = cc in
            (
              last,
              rw (← same_env) o,
              name_map_equal-Agrees last nm (open_name_map-HasMaps env last o) (ground arith),
            )
      ]
