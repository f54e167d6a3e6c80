-- ===== src/Crypto/Envelope.antt =====
-- internal/crypto/envelope.go: the envelopes of field values, and the walk that opens those of a
-- decoded TOML table.
pub mod Laws
use jitenv.Base.{
  ℕ, ◌+◌, Bool, true, false, not, ◌&&◌, ◌||◌, Option, none, some, List, [], ◌∷◌, ◌++◌,
  if◌then◌else◌, Result, ok, err, ◌>>=◌, Text, codes, has_prefix, drop, length, is_empty, join,
  decimal, any,
}
use jitenv.Crypto.Values.{Value, str, table, array, scalar, Fields, end, field, Items, nil, cons}
use jitenv.Crypto.Aead.{Cipher, CryptoError, no_ad, bad_base64, not_envelope, seal, open_blob}
use jitenv.Crypto.Base64.{encode, decode}

abbrev pub envelope_prefix : Text
envelope_prefix = codes "enc:v2:"

abbrev pub legacy_prefix : Text
legacy_prefix = codes "enc:v1:"

unfoldable pub is_envelope : Text → Bool
is_envelope s = has_prefix s envelope_prefix || has_prefix s legacy_prefix

-- `AAD`; `none` is a panic
unfoldable pub aad : List Text → Option Text
aad parts = if is_empty parts || any is_empty parts then none else some (join b'.' parts)

abbrev pub decoded : Option Text → Result CryptoError Text
decoded none = err bad_base64
decoded (some b) = ok b

module _ (c : Cipher) where
  -- EncryptField and EncryptFieldBytes
  unfoldable pub encrypt_field : Option Text → Text → Text → Text → Result CryptoError Text
  encrypt_field random key plaintext ad =
      if is_empty ad
      then err no_ad
      else do blob ← seal c random key plaintext ad; ok (envelope_prefix ++ encode blob)

  -- DecryptField and DecryptFieldBytes; both prefixes have seven bytes
  unfoldable pub decrypt_field : Text → Text → Text → Result CryptoError Text
  decrypt_field key env ad =
      if has_prefix env envelope_prefix
      then (if is_empty ad
          then err no_ad
          else do blob ← decoded (decode (drop 7 env)); open_blob c key blob ad)
      else if has_prefix env legacy_prefix
      then (do blob ← decoded (decode (drop 7 env)); open_blob c key blob [])
      else err not_envelope

  -- a string, if it is an envelope
  unfoldable pub decrypt_string : Text → Text → Text → Result CryptoError Text
  decrypt_string key s ad = if is_envelope s then decrypt_field key s ad else ok s

  -- the `[]any` case, from element `i` on
  unfoldable pub decrypt_items : Text → Text → ℕ → Items → Result CryptoError Items
  decrypt_items key ctx i nil = ok nil
  decrypt_items key ctx i (cons (str s) rest) =
      let later = decrypt_items key ctx (i + 1) rest in
      do
        p ← decrypt_string key s (ctx ++ (b'[' ∷ (decimal i ++ b']' ∷ [])))
        r ← later
        ok (cons (str p) r)
  decrypt_items key ctx i (cons v rest) = do r ← decrypt_items key ctx (i + 1) rest; ok (cons v r)

  -- DecryptStringsInPlace below the check of `ctx`, in the order of the walk. After an error the
  -- caller gives the table up, so the model keeps the error only.
  unfoldable mutual
    pub decrypt_value : Text → Text → Value → Result CryptoError Value
    decrypt_value key ctx (str s) = do p ← decrypt_string key s ctx; ok (str p)
    decrypt_value key ctx (table fs) = do gs ← decrypt_fields key ctx fs; ok (table gs)
    decrypt_value key ctx (array xs) = do ys ← decrypt_items key ctx 0 xs; ok (array ys)
    decrypt_value key ctx (scalar n) = ok (scalar n)

    pub decrypt_fields : Text → Text → Fields → Result CryptoError Fields
    decrypt_fields key ctx end = ok end
    decrypt_fields key ctx (field k v rest) = do
      w ← decrypt_value key (ctx ++ (b'.' ∷ k)) v
      r ← decrypt_fields key ctx rest
      ok (field k w r)

  -- DecryptStringsInPlace
  unfoldable pub decrypt_strings : Text → Fields → Text → Result CryptoError Fields
  decrypt_strings key m ctx = if is_empty ctx then err no_ad else decrypt_fields key ctx m
