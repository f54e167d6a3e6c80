-- ===== src/Crypto/Tests.antt =====
-- Runs of the envelopes, and the theorems at concrete inputs.
use jitenv.Base.{
  none, some, [], ◌∷◌, ◌++◌, ok, err, ◌≡◌, refl, arith, Text, codes, has_prefix, join,
}
use jitenv.Crypto.Values.{str, array, scalar, Fields, end, field, nil, cons}
use jitenv.Crypto.Aead.{not_authentic, no_ad, not_envelope, seal, open_blob}
use jitenv.Crypto.Base64.{sextet_char, encode, decode, decode-encode}
use jitenv.Crypto.Framed.{framed, framed_laws, frame, open_frames}
use jitenv.Crypto.Envelope.{aad, encrypt_field, decrypt_field}
use jitenv.Crypto.Envelope.Laws.{decrypt_field-authentic}

abbrev key : Text
key =
    1 ∷ 2 ∷ 1 ∷ 1 ∷ 1 ∷ 1 ∷ 1 ∷ 1 ∷ 1 ∷ 1 ∷ 1 ∷ 1 ∷ 1 ∷ 1 ∷ 1 ∷ 1 ∷ 1 ∷ 1 ∷ 1 ∷ 1 ∷ 1 ∷ 1 ∷ 1 ∷ 1
    ∷ 1 ∷ 1 ∷ 1 ∷ 1 ∷ 1 ∷ 1 ∷ 1 ∷ 1 ∷ []

abbrev nonce : Text
nonce =
    7 ∷ 7 ∷ 7 ∷ 7 ∷ 7 ∷ 7 ∷ 7 ∷ 7 ∷ 7 ∷ 7 ∷ 7 ∷ 7 ∷ 7 ∷ 7 ∷ 7 ∷ 7 ∷ 7 ∷ 7 ∷ 7 ∷ 7 ∷ 7 ∷ 7 ∷ 7 ∷ 7
    ∷ []

encode_runs :
    (encode (codes "Man") ≡ codes "TWFu")
    × (encode (codes "Ma") ≡ codes "TWE=")
    × (encode (codes "M") ≡ codes "TQ==")
    × (decode (codes "TW\nE=") ≡ some (codes "Ma"))
    × (decode (codes "TWE") ≡ none)
unfolding encode decode sextet_char
encode_runs = (refl, refl, refl, refl, refl)

-- the envelope of a secret in its slot
abbrev slot : Text
slot = codes "b.k"

abbrev envelope : Text
envelope = codes "enc:v2:" ++ encode (nonce ++ framed.encrypt key nonce slot (codes "pw"))

encrypt_run : encrypt_field framed (some nonce) key (codes "pw") slot ≡ ok envelope
unfolding encrypt_field seal
encrypt_run = refl

abbrev params : Fields
params =
    field (codes "a") (str envelope)
      (field (codes "n") (array (cons (str (codes "x")) (cons (scalar 3) nil))) end)

decrypt_runs :
    (decrypt_field framed key envelope slot ≡ ok (codes "pw"))
    × (decrypt_field framed key envelope (codes "b.j") ≡ err not_authentic)
    × (decrypt_field framed key envelope [] ≡ err no_ad)
    × (decrypt_field framed key (codes "plain") slot ≡ err not_envelope)
unfolding decrypt_field open_blob has_prefix decode encode sextet_char frame open_frames
decrypt_runs = (refl, refl, refl, refl)

aad_runs :
    (aad (codes "src" ∷ codes "s_1" ∷ []) ≡ some (codes "src.s_1"))
    × (aad (codes "src" ∷ [] ∷ []) ≡ none)
unfolding aad join
aad_runs = (refl, refl)

decrypt_field-authentic_example : (key ≡ key) × (slot ≡ slot) × (codes "pw" ≡ codes "pw")
decrypt_field-authentic_example =
    decrypt_field-authentic framed framed_laws nonce key (omega arith) refl (codes "pw") slot
      envelope key slot (codes "pw") (ground arith) (ground arith) encrypt_run decrypt_runs.0

decode-encode_example : decode (encode (codes "Man")) ≡ some (codes "Man")
decode-encode_example = decode-encode (codes "Man") (omega arith)
