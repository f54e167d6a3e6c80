-- ===== src/Config/Encrypting/Params.antt =====
-- The parameters of a source and the secrets of a bag are opened as they were sealed.
use jitenv.Base.{
  ℕ, ◌+◌, ◌++◌, false, [], ◌∷◌, Result, ok, err, ◌≡◌, ◌∙◌, refl, inl, inr, Bool-cases, Text, codes,
  is_empty, join, Assoc, All, length,
}
use jitenv.Crypto.Values.{Value, str, table, array, scalar, Fields, end, field, Items, nil, cons}
use jitenv.Crypto.Aead.{Cipher, CipherLaws, CryptoError, key_len}
use jitenv.Crypto.Envelope.{
  aad, is_envelope, decrypt_field, decrypt_string, decrypt_items, decrypt_value, decrypt_fields,
  decrypt_strings,
}
use jitenv.Config.{SourceConfig}
use jitenv.Config.Sealing.{
  SealError, source_param_aad, secret_aad, Randoms, or_failed, open_under, seal_value, open_value,
  seal_params, open_params, open_bag,
}
use jitenv.Config.Sealing.RoundTrip.{chained, ok_parts, IsDraw, IsPlain, seal_value-Sealed}
use jitenv.Config.Assigning.{keys_of}
use jitenv.Config.Rekeyed.{open_all}
use jitenv.Config.Rekeyed.Back.{IsDistinct, Opens, mapped, seal_rekeyed-open_all}
use jitenv.Config.Renaming.{keys_in}
use jitenv.Config.Encrypting.{opened_params, open_source, seal_source, id_in, seal_secrets}

-- No string of the value is an envelope, at any depth.
unfoldable mutual
  pub ValueIsPlain : Value → Type 0
  ValueIsPlain (str s) = IsPlain s
  ValueIsPlain (table fs) = FieldsIsPlain fs
  ValueIsPlain (array xs) = ItemsIsPlain xs
  ValueIsPlain (scalar n) = Unit

  pub FieldsIsPlain : Fields → Type 0
  FieldsIsPlain end = Unit
  FieldsIsPlain (field k v rest) = ValueIsPlain v × FieldsIsPlain rest

  pub ItemsIsPlain : Items → Type 0
  ItemsIsPlain nil = Unit
  ItemsIsPlain (cons v rest) = ValueIsPlain v × ItemsIsPlain rest

-- the slot of a parameter, below that of its source
abbrev under : Text → Text → Text
under id k = (codes "src." ++ id) ++ (b'.' ∷ k)

or_failed_lem : (r : Result CryptoError Text) (p : Text) → or_failed r ≡ ok p → r ≡ ok p
or_failed_lem (err e) p h = absurd cc
or_failed_lem (ok q) p h =
    let one : ◌≡◌ {A = Result SealError Text} (ok q) (ok p) = h in let same : q ≡ p = cc in rw same

module _ (c : Cipher) (key : Text) where
  -- the walk of DecryptStringsInPlace leaves such a value
  mutual
    unfolding decrypt_value decrypt_fields decrypt_items decrypt_string ValueIsPlain FieldsIsPlain
        ItemsIsPlain

    decrypt_plain : (ctx : Text) (v : Value) → ValueIsPlain v → decrypt_value c key ctx v ≡ ok v
    decrypt_plain ctx (str s) h = rw h
    decrypt_plain ctx (table fs) h = rw (decrypt_plain_fields ctx fs h)
    decrypt_plain ctx (array xs) h = rw (decrypt_plain_items ctx 0 xs h)
    decrypt_plain ctx (scalar n) h = refl

    decrypt_plain_fields :
        (ctx : Text) (fs : Fields) → FieldsIsPlain fs → decrypt_fields c key ctx fs ≡ ok fs
    decrypt_plain_fields ctx end h = refl
    decrypt_plain_fields ctx (field k v rest) h =
        rw (decrypt_plain (ctx ++ (b'.' ∷ k)) v h.0, decrypt_plain_fields ctx rest h.1)

    decrypt_plain_items :
        (ctx : Text) (i : ℕ) (xs : Items) → ItemsIsPlain xs → decrypt_items c key ctx i xs ≡ ok xs
    decrypt_plain_items ctx i nil h = refl
    decrypt_plain_items ctx i (cons (str s) rest) h =
        rw (h.0, decrypt_plain_items ctx (i + 1) rest h.1)
    decrypt_plain_items ctx i (cons (table fs) rest) h =
        rw (decrypt_plain_items ctx (i + 1) rest h.1)
    decrypt_plain_items ctx i (cons (array xs) rest) h =
        rw (decrypt_plain_items ctx (i + 1) rest h.1)
    decrypt_plain_items ctx i (cons (scalar n) rest) h =
        rw (decrypt_plain_items ctx (i + 1) rest h.1)

  -- a parameter that is opened as one value is opened by the walk
  string_open :
      (i : ℕ) (id k s s' : Text)
      → open_value c key (source_param_aad (i ∷ id) k) s' ≡ ok s
      → decrypt_string c key s' (under (i ∷ id) k) ≡ ok s
  unfolding open_value decrypt_string aad join
  string_open i id k s s' h = elim (Bool-cases (is_envelope s')) [
    | inl e ↦ rw e (named k (rw e at h))
    | inr e ↦
        let one : ◌≡◌ {A = Result SealError Text} (ok s') (ok s) = rw e at h in
        let same : s' ≡ s = cc in rw (e, same)
  ]
    where
      named :
          (k : Text)
          → open_under c key (source_param_aad (i ∷ id) k) s' ≡ ok s
          → decrypt_field c key s' (under (i ∷ id) k) ≡ ok s
      named [] t = absurd cc
      named (x ∷ k) t = or_failed_lem (decrypt_field c key s' (under (i ∷ id) (x ∷ k))) s t

module _ (c : Cipher) (laws : CipherLaws c) (key : Text) (size : length key ≡ key_len) where
  seal_params-walk :
      (i : ℕ) (id : Text) (fs : Fields) (rs : Randoms) (fs' : Fields) (left : Randoms)
      → FieldsIsPlain fs
      → All IsDraw rs
      → seal_params c key (i ∷ id) fs rs ≡ ok (fs', left)
      → (decrypt_fields c key (codes "src." ++ (i ∷ id)) fs' ≡ ok fs) × All IsDraw left
  unfolding seal_params decrypt_fields decrypt_value FieldsIsPlain ValueIsPlain
  seal_params-walk i id end rs fs' left p h e = let (a, b) = ok_parts e in (rw (← a), rw (← b) h)
  seal_params-walk i id (field k (str s) rest) rs fs' left p h e =
      let ((s', r), e1, f) = chained (seal_value c key (source_param_aad (i ∷ id) k) s rs) _ e in
      let ((rest', r'), e2, g) = chained (seal_params c key (i ∷ id) rest r) _ f in
      let (o1, h1) =
        seal_value-Sealed c laws key size (source_param_aad (i ∷ id) k) s rs s' r p.0 h e1 in
      let (o2, h2) = seal_params-walk i id rest r rest' r' p.1 h1 e2 in
      let (a, b) = ok_parts g in (rw (← a, string_open c key i id k s s' o1, o2), rw (← b) h2)
  seal_params-walk i id (field k (table fs) rest) rs fs' left p h e =
      let ((rest', r'), e2, g) = chained (seal_params c key (i ∷ id) rest rs) _ e in
      let (o2, h2) = seal_params-walk i id rest rs rest' r' p.1 h e2 in
      let o1 = decrypt_plain c key (under (i ∷ id) k) (table fs) p.0 in
      let (a, b) = ok_parts g in (rw (← a, o1, o2), rw (← b) h2)
  seal_params-walk i id (field k (array xs) rest) rs fs' left p h e =
      let ((rest', r'), e2, g) = chained (seal_params c key (i ∷ id) rest rs) _ e in
      let (o2, h2) = seal_params-walk i id rest rs rest' r' p.1 h e2 in
      let o1 = decrypt_plain c key (under (i ∷ id) k) (array xs) p.0 in
      let (a, b) = ok_parts g in (rw (← a, o1, o2), rw (← b) h2)
  seal_params-walk i id (field k (scalar n) rest) rs fs' left p h e =
      let ((rest', r'), e2, g) = chained (seal_params c key (i ∷ id) rest rs) _ e in
      let (o2, h2) = seal_params-walk i id rest rs rest' r' p.1 h e2 in
      let (a, b) = ok_parts g in (rw (← a, o2), rw (← b) h2)

  -- the walk over a table is what DecryptInPlace does with the parameters of a source
  walk-params :
      (i : ℕ) (id : Text) (fs gs : Fields)
      → decrypt_fields c key (codes "src." ++ (i ∷ id)) fs ≡ ok gs
      → opened_params c key (i ∷ id) fs ≡ ok gs
  unfolding decrypt_fields open_params decrypt_strings aad join
  walk-params i id end gs h =
      let one : ◌≡◌ {A = Result CryptoError Fields} (ok end) (ok gs) = h in
      let same : end ≡ gs = cc in rw same
  walk-params i id (field k v rest) gs h = rw h

  pub seal_source-Opens :
      (id : Text) (sc : SourceConfig)
      → is_empty id ≡ false
      → FieldsIsPlain sc.params
      → Opens (seal_source c key) (open_source c key) (λ i s. s) id sc
  unfolding seal_source open_source
  seal_source-Opens [] sc n p rs sc' left r e = absurd cc
  seal_source-Opens (i ∷ id) sc n p rs sc' left r e =
      let ((fs, r1), e1, f) = chained (seal_params c key (i ∷ id) sc.params rs) _ e in
      let (o1, h1) = seal_params-walk i id sc.params rs fs r1 p r e1 in
      let (a, b) = ok_parts f in
      let opened = walk-params i id fs sc.params o1 in (rw (← a, opened), rw (← b) h1)

  open_bag-open_all :
      (bag : Text) (kv : Assoc Text)
      → open_bag c key bag kv ≡ open_all (λ k v. open_value c key (secret_aad bag k) v) kv
  unfolding open_bag open_all
  open_bag-open_all bag [] = refl
  open_bag-open_all bag ((k, v) ∷ kv) = rw (open_bag-open_all bag kv)

  -- a bag, opened to the identifiers of its keys
  pub seal_secrets-Opens :
      (key_ids : Assoc (Assoc Text)) (bag : Text) (kv : Assoc Text)
      → IsDistinct (keys_of (mapped (id_in (keys_in bag key_ids)) (λ k v. v) kv))
      → All (λ p. IsPlain p.1) kv
      → Opens
          (seal_secrets c key key_ids)
          (open_bag c key)
          (λ b m. mapped (id_in (keys_in b key_ids)) (λ k v. v) m)
          bag
          kv
  unfolding seal_secrets
  seal_secrets-Opens key_ids bag kv d p rs kv' left r e =
      let (l, made, opens, rest) =
        seal_rekeyed-open_all (id_in (keys_in bag key_ids))
          (λ k v r. seal_value c key (secret_aad bag k) v r)
          (λ k v. open_value c key (secret_aad bag k) v) (λ k v. v) [] kv rs kv' left d
          (each (id_in (keys_in bag key_ids)) bag kv p) r e in
      (open_bag-open_all bag kv' ∙ rw (made, opens), rest)
    where
      each :
          (f : Text → Text) (bag : Text) (kv : Assoc Text)
          → All (λ p. IsPlain p.1) kv
          → All
              (λ p.
                Opens
                  (λ k v r. seal_value c key (secret_aad bag k) v r)
                  (λ k v. open_value c key (secret_aad bag k) v)
                  (λ k v. v)
                  (f p.0)
                  p.1)
              kv
      each f bag [] p = tt
      each f bag ((k, v) ∷ kv) p = (
        λ rs w left r e.
            seal_value-Sealed c laws key size (secret_aad bag (f k)) v rs w left p.0 r e,
        each f bag kv p.1,
      )
