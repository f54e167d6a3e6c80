-- ===== src/Sync/Sidecar.antt =====
-- internal/syncconfig/syncconfig.go: the sidecar sync.toml, its wrapped data key and its adapters,
-- and the sealing of the configuration.
pub mod Laws
use jitenv.Base.{
  ℕ, Bool, true, false, not, ◌||◌, ltb, Option, none, some, List, [], ◌∷◌, ◌++◌, if◌then◌else◌,
  Result, ok, err, ◌>>=◌, Text, codes, same, is_empty, length,
}
use jitenv.Crypto.Values.{Fields}
use jitenv.Crypto.Aead.{Cipher, CryptoError, seal, open_blob}
use jitenv.Crypto.Base64.{decode}
use jitenv.Crypto.Envelope.{encrypt_field, decrypt_field}

pub record Adapter : Type 0 where
  pub name : Text
  pub type : Text
  pub params : Fields
  pub base_hash : Text

pub record File : Type 0 where
  pub version : ℕ
  pub salt : Text
  pub argon_time : ℕ
  pub argon_memory_kib : ℕ
  pub argon_threads : ℕ
  pub wrapped_dek : Text
  pub adapters : List Adapter

pub data SidecarError : Type 0 where
  bad_salt below_minimum no_wrapped_dek incorrect_passphrase : SidecarError

-- crypto.MinArgonTime, MinArgonMemKiB, MinArgonThreads and MinSaltLen
abbrev pub min_argon_time : ℕ
min_argon_time = 2

abbrev pub min_argon_mem_kib : ℕ
min_argon_mem_kib = 19456

abbrev pub min_argon_threads : ℕ
min_argon_threads = 1

abbrev pub min_salt_len : ℕ
min_salt_len = 16

abbrev pub checked_salt : File → Option Text → Result SidecarError Text
checked_salt f none = err bad_salt
checked_salt f (some salt) =
    if ltb f.argon_time min_argon_time
      || ltb f.argon_memory_kib min_argon_mem_kib
      || ltb f.argon_threads min_argon_threads
      || ltb (length salt) min_salt_len
    then err below_minimum
    else ok salt

-- `argonParams`; the parameters are those of the file
pub argon_params : File → Result SidecarError Text
argon_params f = checked_salt f (decode f.salt)

abbrev pub dek_wrap_aad : Text
dek_wrap_aad = codes "sync.dek"

-- `blobAAD`
unfoldable pub blob_aad : Text → Text
blob_aad meta_hash = codes "sync.blob" ++ (b':' ∷ meta_hash)

abbrev pub unwrapped : Result CryptoError Text → Result SidecarError Text
unwrapped (ok dek) = ok dek
unwrapped (err e) = err incorrect_passphrase

module _ (c : Cipher) where
  -- WrapDEK, with what rand.Read gives
  unfoldable pub wrap_dek : Option Text → Text → Text → File → Result CryptoError File
  wrap_dek random master_key dek f = do
    env ← encrypt_field c random master_key dek dek_wrap_aad
    ok (record f { wrapped_dek = env })

  unfoldable pub unwrap_dek : Text → File → Result SidecarError Text
  unwrap_dek master_key f =
      if is_empty f.wrapped_dek
      then err no_wrapped_dek
      else unwrapped (decrypt_field c master_key f.wrapped_dek dek_wrap_aad)

  unfoldable pub seal_blob : Option Text → Text → Text → Text → Result CryptoError Text
  seal_blob random dek config_bytes meta_hash = seal c random dek config_bytes (blob_aad meta_hash)

  -- `OpenBlob`, whose callers see the one error of it
  unfoldable pub open_config : Text → Text → Text → Result CryptoError Text
  open_config dek blob meta_hash = open_blob c dek blob (blob_aad meta_hash)

-- FindAdapter
unfoldable pub find_adapter : Text → List Adapter → Option Adapter
find_adapter name [] = none
find_adapter name (a ∷ rest) = if same a.name name then some a else find_adapter name rest

set_first : Text → Text → List Adapter → List Adapter
set_first name hash [] = []
set_first name hash (a ∷ rest) =
    if same a.name name then record a { base_hash = hash } ∷ rest else a ∷ set_first name hash rest

-- SetBaseHash
unfoldable pub set_base_hash : Text → Text → File → File
unfolding set_first
set_base_hash name hash f = record f { adapters = set_first name hash f.adapters }
