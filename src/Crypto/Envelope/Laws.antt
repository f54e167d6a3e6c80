-- ===== src/Crypto/Envelope/Laws.antt =====
-- Envelopes are read back in their slot, and only there.
use jitenv.Base.{
  true, some, [], ◌∷◌, ◌++◌, ok, ◌≡◌, ◌≢◌, ◌∙◌, refl, sym, Text, has_prefix, length, All-append,
}
use jitenv.Crypto.Aead.{
  Cipher, CipherLaws, IsNonce, key_len, seal, open_blob, open-seal, open-authentic,
}
use jitenv.Crypto.Base64.{encode, decode-encode}
use jitenv.Crypto.Envelope.{envelope_prefix, is_envelope, encrypt_field, decrypt_field}

-- What EncryptField returns is an envelope, so a second save leaves it alone.
pub is_envelope-prefix : (b : Text) → is_envelope (envelope_prefix ++ b) ≡ true
unfolding is_envelope has_prefix
is_envelope-prefix b = refl

module _ (c : Cipher) (laws : CipherLaws c) (n key : Text) (random : IsNonce n)
    (size : length key ≡ key_len) where
  abbrev envelope : Text → Text → Text
  envelope p ad = envelope_prefix ++ encode (n ++ c.encrypt key n ad p)

  encrypt-envelope :
      (p ad : Text) → ad ≢ [] → encrypt_field c (some n) key p ad ≡ ok (envelope p ad)
  unfolding encrypt_field seal
  encrypt-envelope p [] h = absurd (h refl)
  encrypt-envelope p (a ∷ ad) h = rw size

  decrypt-envelope :
      (p ad key' ad' : Text)
      → ad' ≢ []
      → decrypt_field c key' (envelope p ad) ad' ≡ open_blob c key' (n ++ c.encrypt key n ad p) ad'
  unfolding decrypt_field has_prefix
  decrypt-envelope p ad key' [] h = absurd (h refl)
  decrypt-envelope p ad key' (a ∷ ad') h = rw (
      decode-encode (n ++ c.encrypt key n ad p)
        (All-append _ n (c.encrypt key n ad p) random.1 (laws.bytes key n ad p)))

  -- With a cipher that meets its laws, EncryptField seals any field under a key of 32 bytes and
  -- associated data that is not empty; the result is an envelope, and DecryptField opens it under
  -- the same key and data.
  pub decrypt-encrypt_field :
      (p ad : Text)
      → ad ≢ []
      → (env : Text) × (encrypt_field c (some n) key p ad ≡ ok env)
        × (is_envelope env ≡ true)
        × (decrypt_field c key env ad ≡ ok p)
  decrypt-encrypt_field p ad h = (
    envelope p ad,
    encrypt-envelope p ad h,
    is_envelope-prefix _,
    decrypt-envelope p ad key ad h ∙ open-seal c laws key n random.0 ad p size,
  )

  -- With a cipher that meets its laws, an envelope that EncryptField made and that DecryptField
  -- opens under some key and associated data, neither data empty, was sealed under them, and the
  -- result is what was sealed: moved to another slot it is refused.
  pub decrypt_field-authentic :
      (p ad env key' ad' q : Text)
      → ad ≢ []
      → ad' ≢ []
      → encrypt_field c (some n) key p ad ≡ ok env
      → decrypt_field c key' env ad' ≡ ok q
      → (key' ≡ key) × (ad' ≡ ad) × (q ≡ p)
  decrypt_field-authentic p ad env key' ad' q h h' e d =
      let made : env ≡ envelope p ad = cc (encrypt-envelope p ad h) in
      let opens : open_blob c key' (n ++ c.encrypt key n ad p) ad' ≡ ok q =
        sym (decrypt-envelope p ad key' ad' h') ∙ rw (← made) d in
      let (k, a) = open-authentic c laws key n random.0 ad p key' ad' q opens in
      (k, a, cc (k, a, opens, open-seal c laws key n random.0 ad p size))
