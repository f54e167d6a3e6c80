-- ===== src/Config/Encrypting/Closed.antt =====
-- What EncryptInPlace leaves on disk: no text of a variable, no secret and no parameter in the clear.
use jitenv.Base.{
  ℕ, ◌+◌, true, Option, none, some, List, [], ◌∷◌, ◌++◌, Result, ok, err, ◌≡◌, ◌⊎◌, refl, sym, inl,
  inr, Bool-cases, Text, codes, same, Assoc, insert, All,
}
use jitenv.Crypto.Values.{str, table, array, scalar, Fields, end, field}
use jitenv.Crypto.Aead.{Cipher, CryptoError, seal}
use jitenv.Crypto.Base64.{encode}
use jitenv.Crypto.Envelope.{envelope_prefix, is_envelope, encrypt_field}
use jitenv.Crypto.Envelope.Laws.{is_envelope-prefix}
use jitenv.Agent.Protocol.{Codec}
use jitenv.Config.{VarRef, Mapping, SourceConfig, Config}
use jitenv.Config.Ids.{NameMap}
use jitenv.Config.Sealing.{
  SealError, Randoms, drawn, undrawn, with_rest, var_field_aad, var_extra_aad, source_param_aad,
  secret_aad, seal_under, seal_value, seal_params, seal_extra, seal_var, seal_vars, seal_mappings,
}
use jitenv.Config.Sealing.RoundTrip.{chained, ok_parts}
use jitenv.Config.Renaming.{keys_in, names_to_ids, over_vars}
use jitenv.Config.Rekeyed.{seal_rekeyed}
use jitenv.Config.Assigning.{Draws, keys_of, assign_sources, assign_bags}
use jitenv.Config.Encrypting.{
  Stored, minting, id_in, to_ids, open_name_map, prior, seal_source, seal_secrets, encrypt_in_place,
}
use jitenv.Config.Encrypting.Parts.{sealed_as-Parts}

-- Empty, or an envelope.
abbrev pub IsSealed : Text → Type 0
IsSealed v = (v ≡ []) ⊎ (is_envelope v ≡ true)

-- The strings at the top of the table are sealed.
unfoldable pub FieldsIsSealed : Fields → Type 0
FieldsIsSealed end = Unit
FieldsIsSealed (field k (str s) rest) = IsSealed s × FieldsIsSealed rest
FieldsIsSealed (field k v rest) = FieldsIsSealed rest

abbrev pub VarIsSealed : VarRef → Type 0
VarIsSealed v =
    IsSealed v.name
    × IsSealed v.source
    × IsSealed v.ref
    × IsSealed v.key
    × IsSealed v.value
    × All (λ p. IsSealed p.1) v.extra

pub record IsClosed (c : Config) : Type 0 where
  pub sources : All (λ p. FieldsIsSealed p.1.params) c.sources
  pub secrets : All (λ p. All (λ q. IsSealed q.1) p.1) c.secrets
  pub mappings : All (λ m. All VarIsSealed m.vars) c.mappings

insert-All :
    {V : Type 0} (Q : V → Type 0) (k : Text) (v : V) (m : Assoc V)
    → Q v
    → All (λ p. Q p.1) m
    → All (λ p. Q p.1) (insert k v m)
unfolding insert
insert-All Q k v [] q a = (q, tt)
insert-All Q k v ((j, w) ∷ m) q a = elim (Bool-cases (same j k)) [
  | inl s ↦ rw s (q, a.1)
  | inr s ↦ rw s (a.0, insert-All Q k v m q a.1)
]

seal_rekeyed-All :
    {V W : Type 0} (f : Text → Text) (g : Text → V → Randoms → Result SealError (W × Randoms))
    (Q : W → Type 0)
    → ((k : Text) (v : V) (rs : Randoms) (w : W) (left : Randoms) → g k v rs ≡ ok (w, left) → Q w)
    → (out : Assoc W) (m : Assoc V) (rs : Randoms) (out' : Assoc W) (left : Randoms)
    → All (λ p. Q p.1) out
    → seal_rekeyed f g out m rs ≡ ok (out', left)
    → All (λ p. Q p.1) out'
unfolding seal_rekeyed
seal_rekeyed-All f g Q h out [] rs out' left a e = let (p, q) = ok_parts e in rw (← p) a
seal_rekeyed-All f g Q h out ((k, v) ∷ m) rs out' left a e =
    let ((w, r), e1, e2) = chained (g (f k) v rs) _ e in
    seal_rekeyed-All f g Q h (insert (f k) w out) m r out' left
      (insert-All Q (f k) w out (h (f k) v rs w r e1) a) e2

module _ (c : Cipher) (key : Text) where
  encrypt_field-IsEnvelope :
      (o : Option Text) (v ad env : Text)
      → encrypt_field c o key v ad ≡ ok env
      → is_envelope env ≡ true
  unfolding encrypt_field
  encrypt_field-IsEnvelope o v [] env e = absurd cc
  encrypt_field-IsEnvelope o v (a ∷ ad) env e =
      let (blob, e1, e2) = chained (seal c o key v (a ∷ ad)) _ e in
      let one : envelope_prefix ++ encode blob ≡ env = cc in
      rw (← one) (is_envelope-prefix (encode blob))

  under-IsSealed :
      (ad : Option Text) (v : Text) (rs : Randoms) (w : Text) (left : Randoms)
      → seal_under c key ad v rs ≡ ok (w, left)
      → IsSealed w
  under-IsSealed none v rs w left e = absurd cc
  under-IsSealed (some ad) v rs w left e = from (encrypt_field c (drawn rs) key v ad) refl e
    where
      from :
          (r : Result CryptoError Text)
          → encrypt_field c (drawn rs) key v ad ≡ r
          → with_rest (undrawn rs) r ≡ ok (w, left)
          → IsSealed w
      from (err x) t u = absurd cc
      from (ok env) t u =
          let (one, two) = ok_parts u in
          inr (rw (← one) (encrypt_field-IsEnvelope (drawn rs) v ad env t))

  seal_value-IsSealed :
      (ad : Option Text) (v : Text) (rs : Randoms) (w : Text) (left : Randoms)
      → seal_value c key ad v rs ≡ ok (w, left)
      → IsSealed w
  unfolding seal_value
  seal_value-IsSealed ad [] rs w left e = let (one, two) = ok_parts e in inl (sym one)
  seal_value-IsSealed ad (x ∷ v) rs w left e = elim (Bool-cases (is_envelope (x ∷ v))) [
    | inl s ↦ let (one, two) = ok_parts (rw s at e) in inr (rw (← one) s)
    | inr s ↦ under-IsSealed ad (x ∷ v) rs w left (rw s at e)
  ]

  seal_params-IsSealed :
      (id : Text) (fs : Fields) (rs : Randoms) (fs' : Fields) (left : Randoms)
      → seal_params c key id fs rs ≡ ok (fs', left)
      → FieldsIsSealed fs'
  unfolding seal_params FieldsIsSealed
  seal_params-IsSealed id end rs fs' left e = let (p, q) = ok_parts e in rw (← p) tt
  seal_params-IsSealed id (field k (str s) rest) rs fs' left e =
      let ((s', r), e1, f) = chained (seal_value c key (source_param_aad id k) s rs) _ e in
      let ((rest', r'), e2, g) = chained (seal_params c key id rest r) _ f in
      let (p, q) = ok_parts g in
      rw (← p) (
        seal_value-IsSealed (source_param_aad id k) s rs s' r e1,
        seal_params-IsSealed id rest r rest' r' e2,
      )
  seal_params-IsSealed id (field k (table v) rest) rs fs' left e =
      let ((rest', r'), e2, g) = chained (seal_params c key id rest rs) _ e in
      let (p, q) = ok_parts g in rw (← p) (seal_params-IsSealed id rest rs rest' r' e2)
  seal_params-IsSealed id (field k (array v) rest) rs fs' left e =
      let ((rest', r'), e2, g) = chained (seal_params c key id rest rs) _ e in
      let (p, q) = ok_parts g in rw (← p) (seal_params-IsSealed id rest rs rest' r' e2)
  seal_params-IsSealed id (field k (scalar v) rest) rs fs' left e =
      let ((rest', r'), e2, g) = chained (seal_params c key id rest rs) _ e in
      let (p, q) = ok_parts g in rw (← p) (seal_params-IsSealed id rest rs rest' r' e2)

  seal_extra-IsSealed :
      (i j : ℕ) (m : Assoc Text) (rs : Randoms) (m' : Assoc Text) (left : Randoms)
      → seal_extra c key i j m rs ≡ ok (m', left)
      → All (λ p. IsSealed p.1) m'
  unfolding seal_extra
  seal_extra-IsSealed i j [] rs m' left e = let (p, q) = ok_parts e in rw (← p) tt
  seal_extra-IsSealed i j ((k, v) ∷ rest) rs m' left e =
      let ((v', r), e1, f) = chained (seal_value c key (var_extra_aad i j k) v rs) _ e in
      let ((rest', r'), e2, g) = chained (seal_extra c key i j rest r) _ f in
      let (p, q) = ok_parts g in
      rw (← p) (
        seal_value-IsSealed (var_extra_aad i j k) v rs v' r e1,
        seal_extra-IsSealed i j rest r rest' r' e2,
      )

  seal_var-IsSealed :
      (i j : ℕ) (v : VarRef) (rs : Randoms) (v' : VarRef) (left : Randoms)
      → seal_var c key i j v rs ≡ ok (v', left)
      → VarIsSealed v'
  unfolding seal_var
  seal_var-IsSealed i j v rs v' left e =
      let ((n, r1), e1, f1) =
        chained (seal_value c key (var_field_aad i j (codes "name")) v.name rs) _ e in
      let ((s, r2), e2, f2) =
        chained (seal_value c key (var_field_aad i j (codes "source")) v.source r1) _ f1 in
      let ((q, r3), e3, f3) =
        chained (seal_value c key (var_field_aad i j (codes "ref")) v.ref r2) _ f2 in
      let ((k, r4), e4, f4) =
        chained (seal_value c key (var_field_aad i j (codes "key")) v.key r3) _ f3 in
      let ((u, r5), e5, f5) =
        chained (seal_value c key (var_field_aad i j (codes "value")) v.value r4) _ f4 in
      let ((x, r6), e6, f6) = chained (seal_extra c key i j v.extra r5) _ f5 in
      let (a, b) = ok_parts f6 in
      rw (← a) (
        seal_value-IsSealed _ v.name rs n r1 e1,
        seal_value-IsSealed _ v.source r1 s r2 e2,
        seal_value-IsSealed _ v.ref r2 q r3 e3,
        seal_value-IsSealed _ v.key r3 k r4 e4,
        seal_value-IsSealed _ v.value r4 u r5 e5,
        seal_extra-IsSealed i j v.extra r5 x r6 e6,
      )

  seal_vars-IsSealed :
      (i j : ℕ) (vs : List VarRef) (rs : Randoms) (vs' : List VarRef) (left : Randoms)
      → seal_vars c key i j vs rs ≡ ok (vs', left)
      → All VarIsSealed vs'
  unfolding seal_vars
  seal_vars-IsSealed i j [] rs vs' left e = let (p, q) = ok_parts e in rw (← p) tt
  seal_vars-IsSealed i j (v ∷ rest) rs vs' left e =
      let ((v', r), e1, f) = chained (seal_var c key i j v rs) _ e in
      let ((rest', r'), e2, g) = chained (seal_vars c key i (j + 1) rest r) _ f in
      let (p, q) = ok_parts g in
      rw (← p) (seal_var-IsSealed i j v rs v' r e1, seal_vars-IsSealed i (j + 1) rest r rest' r' e2)

  seal_mappings-IsSealed :
      (i : ℕ) (ms : List Mapping) (rs : Randoms) (ms' : List Mapping) (left : Randoms)
      → seal_mappings c key i ms rs ≡ ok (ms', left)
      → All (λ m. All VarIsSealed m.vars) ms'
  unfolding seal_mappings
  seal_mappings-IsSealed i [] rs ms' left e = let (p, q) = ok_parts e in rw (← p) tt
  seal_mappings-IsSealed i (m ∷ rest) rs ms' left e =
      let ((vs, r), e1, f) = chained (seal_vars c key i 0 m.vars rs) _ e in
      let ((rest', r'), e2, g) = chained (seal_mappings c key (i + 1) rest r) _ f in
      let (p, q) = ok_parts g in
      rw (← p) (
        seal_vars-IsSealed i 0 m.vars rs vs r e1,
        seal_mappings-IsSealed (i + 1) rest r rest' r' e2,
      )

  seal_source-IsSealed :
      (id : Text) (sc : SourceConfig) (rs : Randoms) (sc' : SourceConfig) (left : Randoms)
      → seal_source c key id sc rs ≡ ok (sc', left)
      → FieldsIsSealed sc'.params
  unfolding seal_source
  seal_source-IsSealed id sc rs sc' left e =
      let ((fs, r1), e1, f) = chained (seal_params c key id sc.params rs) _ e in
      let (p, q) = ok_parts f in rw (← p) (seal_params-IsSealed id sc.params rs fs r1 e1)

  seal_secrets-IsSealed :
      (key_ids : Assoc (Assoc Text)) (bag : Text) (kv : Assoc Text) (rs : Randoms)
      (kv' : Assoc Text) (left : Randoms)
      → seal_secrets c key key_ids bag kv rs ≡ ok (kv', left)
      → All (λ q. IsSealed q.1) kv'
  unfolding seal_secrets
  seal_secrets-IsSealed key_ids bag kv rs kv' left e =
      seal_rekeyed-All (id_in (keys_in bag key_ids))
        (λ k v r. seal_value c key (secret_aad bag k) v r) IsSealed
        (λ k v r w l t. seal_value-IsSealed (secret_aad bag k) v r w l t) [] kv rs kv' left tt e

  -- If EncryptInPlace succeeds, then of what it leaves every secret, every field and extra value of a
  -- variable and every string at the top of the parameters of a source is empty or an envelope.
  pub encrypt_in_place-IsClosed :
      (codec : Codec NameMap) (st : Stored) (draws : Draws) (rs : Randoms) (st' : Stored)
      → encrypt_in_place codec c key st draws rs ≡ ok st'
      → IsClosed st'.config
  unfolding encrypt_in_place
  encrypt_in_place-IsClosed codec st draws rs st' e =
      let (prev, e1, f1) = chained (prior codec c key st.name_map st.id_map) _ e in
      let (last, e2, f2) = chained (open_name_map codec c key st.name_map) _ f1 in
      let (ss, e3, f3) =
        chained (minting (assign_sources prev (keys_of st.config.sources) draws)) _ f2 in
      let (bs, e4, f4) = chained (minting (assign_bags prev st.config.secrets ss)) _ f3 in
      let p = sealed_as-Parts codec c key st last ss bs rs st' f4 in
      record {
        sources =
            seal_rekeyed-All (id_in ss.ids) (seal_source c key) (λ sc. FieldsIsSealed sc.params)
              seal_source-IsSealed [] st.config.sources rs st'.config.sources p.r1 tt p.sources;
        secrets =
            seal_rekeyed-All (id_in bs.bags.ids) (seal_secrets c key bs.key_ids)
              (λ kv. All (λ q. IsSealed q.1) kv) (seal_secrets-IsSealed bs.key_ids) []
              st.config.secrets p.r1 st'.config.secrets p.r2 tt p.secrets;
        mappings =
            seal_mappings-IsSealed 0
              (over_vars (names_to_ids st'.config.sources (to_ids ss bs)) st.config.mappings) p.r2
              st'.config.mappings p.r3 p.mappings;
      }
