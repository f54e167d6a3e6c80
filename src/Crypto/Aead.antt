-- ===== src/Crypto/Aead.antt =====
-- internal/crypto/aead.go: `Seal` and `Open`. The cipher is golang.org/x/crypto's
-- XChaCha20-Poly1305, a `Cipher`; what rand.Read gives is an argument, `none` for its error.
use jitenv.Base.{
  ℕ, zero, suc, ◌+◌, ◌≤◌, ◌<◌, not, Option, none, some, [], ◌∷◌, ◌++◌, ltb, ◌==◌, if◌then◌else◌,
  Result, ok, err, ◌≡◌, ◌∙◌, refl, sym, ap, arith, Text, All, length, take, drop, length-append,
}

pub record Cipher : Type 0 where
  -- aead.Seal and aead.Open on key, nonce and associated data; `none` is an error
  pub encrypt : Text → Text → Text → Text → Text
  pub decrypt : Text → Text → Text → Text → Option Text

-- What the package documents: Open inverts Seal, and authenticates the key, the nonce and the
-- associated data; the tag takes 16 bytes.
pub record CipherLaws (c : Cipher) : Type 0 where
  pub decrypt-encrypt : (k n ad p : Text) → c.decrypt k n ad (c.encrypt k n ad p) ≡ some p
  pub authentic :
      (k n ad p k' ad' q : Text)
      → c.decrypt k' n ad' (c.encrypt k n ad p) ≡ some q
      → (k' ≡ k) × (ad' ≡ ad)
  pub tag : (k n ad p : Text) → 16 ≤ length (c.encrypt k n ad p)
  pub bytes : (k n ad p : Text) → All (λ b. b < 256) (c.encrypt k n ad p)

pub data CryptoError : Type 0 where
  bad_key no_random too_short not_authentic no_ad bad_base64 not_envelope : CryptoError

abbrev pub key_len : ℕ
key_len = 32

-- aead.NonceSize() and aead.Overhead()
abbrev pub nonce_size : ℕ
nonce_size = 24

abbrev pub overhead : ℕ
overhead = 16

-- what rand.Read may give
abbrev pub IsNonce : Text → Type 0
IsNonce n = (length n ≡ nonce_size) × All (λ b. b < 256) n

abbrev pub opened : Option Text → Result CryptoError Text
opened none = err not_authentic
opened (some p) = ok p

module _ (c : Cipher) where
  abbrev pub sealed : Text → Text → Text → Option Text → Result CryptoError Text
  sealed key plaintext ad none = err no_random
  sealed key plaintext ad (some n) = ok (n ++ c.encrypt key n ad plaintext)

  unfoldable pub seal : Option Text → Text → Text → Text → Result CryptoError Text
  seal random key plaintext ad =
      if not (length key == key_len) then err bad_key else sealed key plaintext ad random

  unfoldable pub open_blob : Text → Text → Text → Result CryptoError Text
  open_blob key blob ad =
      if not (length key == key_len)
      then err bad_key
      else if ltb (length blob) (nonce_size + overhead)
      then err too_short
      else opened (c.decrypt key (take nonce_size blob) ad (drop nonce_size blob))

take-append : (xs ys : Text) (n : ℕ) → length xs ≡ n → take n (xs ++ ys) ≡ xs
take-append [] ys zero h = refl
take-append (x ∷ xs) ys zero h = absurd (omega arith)
take-append [] ys (suc n) h = absurd (omega arith)
take-append (x ∷ xs) ys (suc n) h = ap (λ t. x ∷ t) (take-append xs ys n (omega arith))

drop-append : (xs ys : Text) (n : ℕ) → length xs ≡ n → drop n (xs ++ ys) ≡ ys
drop-append [] ys zero h = refl
drop-append (x ∷ xs) ys zero h = absurd (omega arith)
drop-append [] ys (suc n) h = absurd (omega arith)
drop-append (x ∷ xs) ys (suc n) h = drop-append xs ys n (omega arith)

opened-ok : (o : Option Text) {q : Text} → opened o ≡ ok q → o ≡ some q
opened-ok none e = cc
opened-ok (some p) e = cc

open-key :
    (c : Cipher) (key blob ad q : Text) → open_blob c key blob ad ≡ ok q → length key ≡ key_len
unfolding open_blob
open-key c key blob ad q e = ground arith

module _ (c : Cipher) (laws : CipherLaws c) (key n : Text) (size : length n ≡ nonce_size) where
  -- On a sealed blob `Open` is the cipher's.
  pub open-encrypt :
      (ad p key' ad' : Text)
      → length key' ≡ key_len
      → open_blob c key' (n ++ c.encrypt key n ad p) ad'
        ≡ opened (c.decrypt key' n ad' (c.encrypt key n ad p))
  unfolding open_blob
  open-encrypt ad p key' ad' h =
      rw
        (
          h,
          take-append n (c.encrypt key n ad p) nonce_size size,
          drop-append n (c.encrypt key n ad p) nonce_size size,
        )
        (ground (arith, length-append n (c.encrypt key n ad p), laws.tag key n ad p))

  -- A sealed text is opened with the same key and associated data.
  pub open-seal :
      (ad p : Text) → length key ≡ key_len → open_blob c key (n ++ c.encrypt key n ad p) ad ≡ ok p
  open-seal ad p h = open-encrypt ad p key ad h ∙ ap opened (laws.decrypt-encrypt key n ad p)

  -- Nothing else opens it.
  pub open-authentic :
      (ad p key' ad' q : Text)
      → open_blob c key' (n ++ c.encrypt key n ad p) ad' ≡ ok q
      → (key' ≡ key) × (ad' ≡ ad)
  open-authentic ad p key' ad' q e =
      let fits = open-key c key' (n ++ c.encrypt key n ad p) ad' q e in
      laws.authentic key n ad p key' ad' q (opened-ok _ (sym (open-encrypt ad p key' ad' fits) ∙ e))
