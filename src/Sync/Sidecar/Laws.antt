-- ===== src/Sync/Sidecar/Laws.antt =====
-- What the sidecar's operations keep and give back.
use jitenv.Base.{
  true, some, List, [], ◌∷◌, ◌++◌, Result, ok, err, ◌≡◌, ◌≢◌, ◌∙◌, refl, ap, arith, Text, same_iff,
  length, drop, has_prefix,
}
use jitenv.Crypto.Aead.{CryptoError, Cipher, CipherLaws, IsNonce, key_len}
use jitenv.Crypto.Envelope.{is_envelope, decrypt_field}
use jitenv.Sync.Sidecar.{Adapter, File}
use jitenv.Crypto.Aead.{seal, open-seal, open-authentic}
use jitenv.Crypto.Envelope.Laws.{decrypt-encrypt_field, decrypt_field-authentic}
use jitenv.Sync.Sidecar.{
  unwrapped, blob_aad, seal_blob, open_config, dek_wrap_aad, wrap_dek, unwrap_dek,
  incorrect_passphrase, find_adapter, set_first, set_base_hash,
}

-- The associated data tells the hashes apart.
pub blob_aad-same : (a b : Text) → blob_aad a ≡ blob_aad b → a ≡ b
unfolding blob_aad
blob_aad-same a b h = ap (drop 10) h

pub seal_blob-ok :
    (c : Cipher) (n dek cfg hash : Text)
    → length dek ≡ key_len
    → seal_blob c (some n) dek cfg hash ≡ ok (n ++ c.encrypt dek n (blob_aad hash) cfg)
unfolding seal_blob seal
seal_blob-ok c n dek cfg hash k = rw k

module _ (c : Cipher) (laws : CipherLaws c) (n dek : Text) (size : length n ≡ 24) where
  pub open-seal_blob :
      (cfg hash : Text)
      → length dek ≡ key_len
      → open_config c dek (n ++ c.encrypt dek n (blob_aad hash) cfg) hash ≡ ok cfg
  unfolding open_config
  open-seal_blob cfg hash k = open-seal c laws dek n size (blob_aad hash) cfg k

  -- A sealed configuration opens with no other hash.
  pub open_config-authentic :
      (cfg hash dek' hash' q : Text)
      → open_config c dek' (n ++ c.encrypt dek n (blob_aad hash) cfg) hash' ≡ ok q
      → (dek' ≡ dek) × (hash' ≡ hash)
  unfolding open_config
  open_config-authentic cfg hash dek' hash' q e =
      let (a, b) = open-authentic c laws dek n size (blob_aad hash) cfg dek' (blob_aad hash') q e in
      (a, blob_aad-same hash' hash b)

unwrap_dek-opens :
    (c : Cipher) (key env : Text) (f : File) (o : Result CryptoError Text)
    → is_envelope env ≡ true
    → decrypt_field c key env dek_wrap_aad ≡ o
    → unwrap_dek c key (record f { wrapped_dek = env }) ≡ unwrapped o
unfolding unwrap_dek is_envelope has_prefix
unwrap_dek-opens c key [] f o i e = absurd cc
unwrap_dek-opens c key (x ∷ env) f o i e = ap unwrapped e

refused :
    (o : Result CryptoError Text) → ((q : Text) → o ≢ ok q) → unwrapped o ≡ err incorrect_passphrase
refused (ok q) h = absurd (h q refl)
refused (err e) h = refl

-- With a cipher that meets its laws and a master key of 32 bytes, `UnwrapDEK` gives back the data key that `WrapDEK` stored, and with
-- another key it fails as for an incorrect passphrase.
pub unwrap_dek-wrap_dek :
    (c : Cipher) (laws : CipherLaws c) (n master_key dek : Text)
    → IsNonce n
    → length master_key ≡ key_len
    → (f : File)
    → (g : File) × (wrap_dek c (some n) master_key dek f ≡ ok g)
      × (unwrap_dek c master_key g ≡ ok dek)
      × ((other : Text) → other ≢ master_key → unwrap_dek c other g ≡ err incorrect_passphrase)
unfolding wrap_dek
unwrap_dek-wrap_dek c laws n master_key dek random size f =
    let (env, e, is_env, d) =
      decrypt-encrypt_field c laws n master_key random size dek dek_wrap_aad (ground arith) in
    (
      record f { wrapped_dek = env },
      rw e,
      unwrap_dek-opens c master_key env f (ok dek) is_env d,
      λ other h.
          unwrap_dek-opens c other env f _ is_env refl
          ∙ refused _ (λ q o.
            h
              (decrypt_field-authentic c laws n master_key random size dek dek_wrap_aad env other
                dek_wrap_aad q (ground arith) (ground arith) e o).0),
    )

set-same :
    (name hash : Text) (as' : List Adapter) (a : Adapter)
    → find_adapter name as' ≡ some a
    → find_adapter name (set_first name hash as') ≡ some (record a { base_hash = hash })
unfolding find_adapter set_first
set-same name hash [] a h = absurd cc
set-same name hash (b ∷ rest) a h = ground (arith, set-same name hash rest a)

set-other :
    (name hash other : Text) (as' : List Adapter)
    → other ≢ name
    → find_adapter other (set_first name hash as') ≡ find_adapter other as'
unfolding find_adapter set_first
set-other name hash other [] h = refl
set-other name hash other (b ∷ rest) h =
    ground (arith, set-other name hash other rest h, same_iff b.name name, same_iff b.name other)

-- `SetBaseHash` on an adapter of the file sets its base hash and nothing else of it, and every
-- adapter of another name is found as before.
pub find_adapter-set_base_hash :
    (name hash : Text) (f : File) (a : Adapter)
    → find_adapter name f.adapters ≡ some a
    → (find_adapter name (set_base_hash name hash f).adapters
        ≡ some (record a { base_hash = hash }))
      × ((other : Text)
          → other ≢ name
          → find_adapter other (set_base_hash name hash f).adapters ≡ find_adapter other f.adapters)
unfolding set_base_hash
find_adapter-set_base_hash name hash f a h =
    (set-same name hash f.adapters a h, λ other n. set-other name hash other f.adapters n)
