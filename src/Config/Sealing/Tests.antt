-- ===== src/Config/Sealing/Tests.antt =====
-- Runs of the sealing with the toy cipher, and the theorems at concrete inputs.
use jitenv.Base.{
  ℕ, zero, suc, some, List, [], ◌∷◌, ◌++◌, ok, ◌≡◌, refl, Text, codes, All, has_prefix, join,
  decimal,
}
use jitenv.Crypto.Aead.{seal}
use jitenv.Crypto.Base64.{encode}
use jitenv.Crypto.Framed.{framed}
use jitenv.Crypto.Envelope.{aad, is_envelope, encrypt_field}
use jitenv.Config.{VarRef, Mapping}
use jitenv.Config.Sealing.{Randoms, seal_value, seal_extra, seal_var, seal_vars, seal_mappings}
use jitenv.Config.Sealing.RoundTrip.{VarIsPlain}

abbrev repeat : ℕ → ℕ → Text
repeat zero b = []
repeat (suc n) b = b ∷ repeat n b

abbrev key : Text
key = repeat 32 1

abbrev nonce : Text
nonce = repeat 24 7

-- the envelope of a value in its slot
abbrev envelope : Text → Text → Text
envelope slot v = codes "enc:v2:" ++ encode (nonce ++ framed.encrypt key nonce slot v)

abbrev draws : Randoms
draws = some nonce ∷ some nonce ∷ some nonce ∷ []

abbrev var : Text → Text → VarRef
var name value = record { name = name; source = []; ref = []; key = []; extra = []; value = value }

abbrev mapping : List VarRef → Mapping
mapping vars = record { path = codes "/x"; glob = []; cwd_glob = []; commands = []; vars = vars }

abbrev plain : List Mapping
plain = mapping (var (codes "A") (codes "pw") ∷ []) ∷ []

abbrev sealed : List Mapping
sealed =
    mapping (
      var (envelope (codes "var.0.0.name") (codes "A"))
        (envelope (codes "var.0.0.value") (codes "pw"))
      ∷ [])
    ∷ []

seal_run : seal_mappings framed key 0 plain draws ≡ ok (sealed, some nonce ∷ [])
unfolding seal_mappings seal_vars seal_var seal_extra seal_value encrypt_field seal is_envelope
    has_prefix aad join decimal
seal_run = refl

plain_fields : All (λ m. All VarIsPlain m.vars) plain
unfolding is_envelope has_prefix
plain_fields = (((refl, refl, refl, refl, refl, tt), tt), tt)
