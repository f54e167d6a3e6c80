-- ===== src/Config/Sealing/RoundTrip.antt =====
-- What is sealed is opened again, slot by slot.
use jitenv.Base.{
  ℕ, ◌+◌, false, Option, none, some, List, [], ◌∷◌, Result, ok, err, ◌>>=◌, ◌≡◌, ◌≢◌, ◌∙◌, refl,
  sym, ap, arith, Text, codes, Assoc, All, length, has_prefix,
}
use jitenv.Crypto.Aead.{seal, Cipher, CipherLaws, IsNonce, key_len}
use jitenv.Crypto.Envelope.{is_envelope, encrypt_field}
use jitenv.Crypto.Envelope.Laws.{decrypt-encrypt_field}
use jitenv.Config.{VarRef, Mapping}
use jitenv.Config.Sealing.{
  SealError, var_field_aad, var_extra_aad, Randoms, drawn, undrawn, with_rest, seal_under,
  seal_value, open_value, seal_extra, open_extra, seal_var, open_var, seal_vars, open_vars,
  seal_mappings, open_mappings,
}

-- A chain that ends well had its first step end well.
abbrev pub Chained {ℓ} : {E A B : Type ℓ} → Result E A → (A → Result E B) → B → Type ℓ
Chained {A = A} first rest b = (mid : A) × (first ≡ ok mid) × (rest mid ≡ ok b)

pub chained {ℓ} :
    {E A B : Type ℓ} (first : Result E A) (rest : A → Result E B) {b : B}
    → (first >>= rest) ≡ ok b
    → Chained first rest b
chained (err e) rest h = absurd cc
chained (ok mid) rest h = (mid, refl, h)

-- what a chain ends with, part by part
pub ok_parts {ℓ} :
    {E A R : Type ℓ} {x y : A} {r s : R}
    → ◌≡◌ {A = Result E (A × R)} (ok (x, r)) (ok (y, s))
    → (x ≡ y) × (r ≡ s)
ok_parts h = (cc, cc)

-- a draw, if there is one, is a nonce
abbrev pub IsDraw : Option Text → Type 0
IsDraw none = Unit
IsDraw (some n) = IsNonce n

abbrev pub IsPlain : Text → Type 0
IsPlain v = is_envelope v ≡ false

-- No field of the variable is an envelope.
abbrev pub VarIsPlain : VarRef → Type 0
VarIsPlain v =
    IsPlain v.name
    × IsPlain v.source
    × IsPlain v.ref
    × IsPlain v.key
    × IsPlain v.value
    × All (λ p. IsPlain p.1) v.extra

undrawn-All : (rs : Randoms) → All IsDraw rs → All IsDraw (undrawn rs)
undrawn-All [] h = tt
undrawn-All (r ∷ rs) h = h.1

module _ (c : Cipher) (laws : CipherLaws c) (key : Text) (size : length key ≡ key_len) where
  no_ad-err :
      (o : Option Text) (v : Text) (left : Randoms) (w : Text × Randoms)
      → with_rest left (encrypt_field c o key v []) ≢ ok w
  unfolding encrypt_field
  no_ad-err o v left w e = cc

  no_random-err :
      (v ad : Text) (left : Randoms) (w : Text × Randoms)
      → with_rest left (encrypt_field c none key v ad) ≢ ok w
  unfolding encrypt_field seal
  no_random-err v [] left w e = cc
  no_random-err v (a ∷ ad) left w e = ground arith

  -- The value `v` sealed as `w`: it is opened again, and the draws that are left are still nonces.
  abbrev Sealed : Option Text → Text → Text → Randoms → Type 0
  Sealed ad v w left = (open_value c key ad w ≡ ok v) × All IsDraw left

  encrypted :
      (o : Option Text) (ad v : Text) (rest : Randoms) (w : Text) (left : Randoms)
      → IsDraw o
      → All IsDraw rest
      → with_rest rest (encrypt_field c o key v ad) ≡ ok (w, left)
      → Sealed (some ad) v w left
  unfolding open_value
  encrypted none ad v rest w left h t e = absurd (no_random-err v ad rest (w, left) e)
  encrypted (some n) [] v rest w left h t e = absurd (no_ad-err (some n) v rest (w, left) e)
  encrypted (some n) (a ∷ ad) v rest w left h t e =
      let (env, made, is_env, opens) =
        decrypt-encrypt_field c laws n key h size v (a ∷ ad) (ground arith) in
      let same : ◌≡◌ {A = Result SealError (Text × Randoms)} (ok (env, rest)) (ok (w, left)) =
        sym (ap (with_rest rest) made) ∙ e in
      let same_env : env ≡ w = cc in
      let same_rest : rest ≡ left = cc in (rw (← same_env, is_env, opens), rw (← same_rest) t)

  pub drawn-IsDraw : (rs : Randoms) → All IsDraw rs → IsDraw (drawn rs)
  drawn-IsDraw [] h = tt
  drawn-IsDraw (r ∷ rs) h = h.0

  under-Sealed :
      (ad : Option Text) (v : Text) (rs : Randoms) (w : Text) (left : Randoms)
      → All IsDraw rs
      → seal_under c key ad v rs ≡ ok (w, left)
      → Sealed ad v w left
  under-Sealed none v rs w left h e = absurd cc
  under-Sealed (some ad) v rs w left h e =
      encrypted (drawn rs) ad v (undrawn rs) w left (drawn-IsDraw rs h) (undrawn-All rs h) e

  empty-open : (ad : Option Text) → open_value c key ad [] ≡ ok []
  unfolding open_value is_envelope has_prefix
  empty-open ad = refl

  pub seal_value-Sealed :
      (ad : Option Text) (v : Text) (rs : Randoms) (w : Text) (left : Randoms)
      → IsPlain v
      → All IsDraw rs
      → seal_value c key ad v rs ≡ ok (w, left)
      → Sealed ad v w left
  unfolding seal_value
  seal_value-Sealed ad [] rs w left p h e =
      let same : [] ≡ w = cc in
      let same_rest : rs ≡ left = cc in (rw (← same) (empty-open ad), rw (← same_rest) h)
  seal_value-Sealed ad (x ∷ v) rs w left p h e = under-Sealed ad (x ∷ v) rs w left h (rw p at e)

  seal_extra-open :
      (i j : ℕ) (m : Assoc Text) (rs : Randoms) (m' : Assoc Text) (left : Randoms)
      → All (λ p. IsPlain p.1) m
      → All IsDraw rs
      → seal_extra c key i j m rs ≡ ok (m', left)
      → (open_extra c key i j m' ≡ ok m) × All IsDraw left
  unfolding seal_extra open_extra
  seal_extra-open i j [] rs m' left p h e = let (a, b) = ok_parts e in (rw (← a), rw (← b) h)
  seal_extra-open i j ((k, v) ∷ rest) rs m' left p h e =
      let ((v', r), e1, f) = chained (seal_value c key (var_extra_aad i j k) v rs) _ e in
      let ((rest', r'), e2, g) = chained (seal_extra c key i j rest r) _ f in
      let (o1, h1) = seal_value-Sealed (var_extra_aad i j k) v rs v' r p.0 h e1 in
      let (o2, h2) = seal_extra-open i j rest r rest' r' p.1 h1 e2 in
      let (a, b) = ok_parts g in (rw (← a, o1, o2), rw (← b) h2)

  seal_var-open :
      (i j : ℕ) (v : VarRef) (rs : Randoms) (v' : VarRef) (left : Randoms)
      → VarIsPlain v
      → All IsDraw rs
      → seal_var c key i j v rs ≡ ok (v', left)
      → (open_var c key i j v' ≡ ok v) × All IsDraw left
  unfolding seal_var open_var
  seal_var-open i j v rs v' left p h e =
      let ((n, r1), e1, f1) =
        chained (seal_value c key (var_field_aad i j (codes "name")) v.name rs) _ e in
      let ((s, r2), e2, f2) =
        chained (seal_value c key (var_field_aad i j (codes "source")) v.source r1) _ f1 in
      let ((q, r3), e3, f3) =
        chained (seal_value c key (var_field_aad i j (codes "ref")) v.ref r2) _ f2 in
      let ((k, r4), e4, f4) =
        chained (seal_value c key (var_field_aad i j (codes "key")) v.key r3) _ f3 in
      let ((u, r5), e5, f5) =
        chained (seal_value c key (var_field_aad i j (codes "value")) v.value r4) _ f4 in
      let ((x, r6), e6, f6) = chained (seal_extra c key i j v.extra r5) _ f5 in
      let (o1, h1) = seal_value-Sealed _ v.name rs n r1 p.0 h e1 in
      let (o2, h2) = seal_value-Sealed _ v.source r1 s r2 p.1 h1 e2 in
      let (o3, h3) = seal_value-Sealed _ v.ref r2 q r3 p.2 h2 e3 in
      let (o4, h4) = seal_value-Sealed _ v.key r3 k r4 p.3 h3 e4 in
      let (o5, h5) = seal_value-Sealed _ v.value r4 u r5 p.4 h4 e5 in
      let (o6, h6) = seal_extra-open i j v.extra r5 x r6 p.5 h5 e6 in
      let (a, b) = ok_parts f6 in (rw (← a, o1, o2, o3, o4, o5, o6), rw (← b) h6)

  seal_vars-open :
      (i j : ℕ) (vs : List VarRef) (rs : Randoms) (vs' : List VarRef) (left : Randoms)
      → All VarIsPlain vs
      → All IsDraw rs
      → seal_vars c key i j vs rs ≡ ok (vs', left)
      → (open_vars c key i j vs' ≡ ok vs) × All IsDraw left
  unfolding seal_vars open_vars
  seal_vars-open i j [] rs vs' left p h e = let (a, b) = ok_parts e in (rw (← a), rw (← b) h)
  seal_vars-open i j (v ∷ rest) rs vs' left p h e =
      let ((v', r), e1, f) = chained (seal_var c key i j v rs) _ e in
      let ((rest', r'), e2, g) = chained (seal_vars c key i (j + 1) rest r) _ f in
      let (o1, h1) = seal_var-open i j v rs v' r p.0 h e1 in
      let (o2, h2) = seal_vars-open i (j + 1) rest r rest' r' p.1 h1 e2 in
      let (a, b) = ok_parts g in (rw (← a, o1, o2), rw (← b) h2)

  pub seal_mappings-open :
      (i : ℕ) (ms : List Mapping) (rs : Randoms) (ms' : List Mapping) (left : Randoms)
      → All (λ m. All VarIsPlain m.vars) ms
      → All IsDraw rs
      → seal_mappings c key i ms rs ≡ ok (ms', left)
      → (open_mappings c key i ms' ≡ ok ms) × All IsDraw left
  unfolding seal_mappings open_mappings
  seal_mappings-open i [] rs ms' left p h e = let (a, b) = ok_parts e in (rw (← a), rw (← b) h)
  seal_mappings-open i (m ∷ rest) rs ms' left p h e =
      let ((vs, r), e1, f) = chained (seal_vars c key i 0 m.vars rs) _ e in
      let ((rest', r'), e2, g) = chained (seal_mappings c key (i + 1) rest r) _ f in
      let (o1, h1) = seal_vars-open i 0 m.vars rs vs r p.0 h e1 in
      let (o2, h2) = seal_mappings-open (i + 1) rest r rest' r' p.1 h1 e2 in
      let (a, b) = ok_parts g in (rw (← a, o1, o2), rw (← b) h2)

  -- With a cipher that meets its laws, a key of 32 bytes and nonces from rand.Read, the mappings
  -- that EncryptInPlace sealed are opened by DecryptInPlace as they were, if no field of a variable
  -- was an envelope before.
  pub open_mappings-seal_mappings :
      (i : ℕ) (ms : List Mapping) (rs : Randoms) (ms' : List Mapping) (left : Randoms)
      → All (λ m. All VarIsPlain m.vars) ms
      → All IsDraw rs
      → seal_mappings c key i ms rs ≡ ok (ms', left)
      → open_mappings c key i ms' ≡ ok ms
  open_mappings-seal_mappings i ms rs ms' left p h e = (seal_mappings-open i ms rs ms' left p h e).0
