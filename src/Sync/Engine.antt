-- ===== src/Sync/Engine.antt =====
-- internal/syncconfig/engine.go: `PushConfig` and `PullConfig`. The adapter is a `Transport` on a state,
-- the SHA-256 of `HashConfig` is a function, and what rand.Read gives is an argument.
pub mod Pushes
pub mod Pulls
pub mod RoundTrip
use jitenv.Base.{
  ℕ, Bool, true, false, not, ◌&&◌, Option, none, some, [], if◌then◌else◌, Result, ok, err, Text,
  same, is_empty,
}
use jitenv.Crypto.Aead.{Cipher, CryptoError}
use jitenv.Sync.{
  Meta, PullError, no_remote_state, remote_incomplete, pull_failed, PushError, precondition_failed,
  push_failed, Transport,
}
use jitenv.Sync.Merge.{
  MergeDecision, noop, fast_forward, push_needed, diverged, no_remote, no_base, decide,
}
use jitenv.Sync.Sidecar.{Adapter, seal_blob, open_config}

pub data SyncError : Type 0 where
  incomplete_remote pull_check_failed remote_without_base remote_advanced : SyncError
  not_sealed : CryptoError → SyncError
  changed_during_force changed_since_pull push_error : SyncError
  not_pulled hash_mismatch : SyncError
  divergence : MergeDecision → SyncError
  not_opened : CryptoError → SyncError

-- What PullConfig returns beside the error; `applied` is nil but on a fast-forward.
pub record PullResult : Type 0 where
  pub decision : MergeDecision
  pub applied : Option Text
  pub hash : Text

-- the zero value
abbrev pub no_result : PullResult
no_result = record { decision = noop; applied = none; hash = [] }

-- The state afterwards, the sidecar's entry, and what is returned: the hash of PushResult or an error.
pub record Pushed (S : Type 0) : Type 0 where
  pub remote : S
  pub ad : Adapter
  pub result : Result SyncError Text

pub record Pulled (S : Type 0) : Type 0 where
  pub remote : S
  pub ad : Adapter
  pub result : PullResult
  pub error : Option SyncError

-- The check before a push that is not forced.
unfoldable pub fence : Text → Text → Result PullError (Text × Meta) → Option SyncError
fence local base (err no_remote_state) = none
fence local base (err remote_incomplete) = some incomplete_remote
fence local base (err pull_failed) = some pull_check_failed
fence local base (ok (blob, meta)) =
    if is_empty base
    then (if not (same meta.hash local) then some remote_without_base else none)
    else if not (same meta.hash base) && not (same meta.hash local)
    then some remote_advanced
    else none

abbrev pub fenced : Bool → Text → Text → Result PullError (Text × Meta) → Option SyncError
fenced force local base r = if force then none else fence local base r

abbrev pub refused : Bool → PushError → SyncError
refused force precondition_failed = if force then changed_during_force else changed_since_pull
refused force push_failed = push_error

abbrev pub with_base : Adapter → Text → Adapter
with_base ad hash = record ad { base_hash = hash }

-- with `adopt`, no base is taken for a fast-forward
abbrev pub adopted : Bool → MergeDecision → MergeDecision
adopted adopt no_base = if adopt then fast_forward else no_base
adopted adopt d = d

module _ {S : Type 0} (adapter : Transport S) (hash_config : Text → Text) (c : Cipher) where
  -- what the adapter's Push gives
  abbrev pub after_push : Bool → Adapter → Text → S × Option PushError → Pushed S
  after_push force ad local (s, some e) = record {
    remote = s;
    ad = ad;
    result = err (refused force e);
  }
  after_push force ad local (s, none) = record {
    remote = s;
    ad = with_base ad local;
    result = ok local;
  }

  abbrev pub sealed_push : Bool → Adapter → Text → ℕ → S → Result CryptoError Text → Pushed S
  sealed_push force ad local schema s (err e) = record {
    remote = s;
    ad = ad;
    result = err (not_sealed e);
  }
  sealed_push force ad local schema s (ok blob) =
      after_push force ad local
        (adapter.push s blob (record { hash = local; schema_version = schema }))

  abbrev pub fenced_push :
      Option Text → Adapter → Text → Text → ℕ → Bool → S → Option SyncError → Pushed S
  fenced_push random ad dek cfg schema force s (some e) = record {
    remote = s;
    ad = ad;
    result = err e;
  }
  fenced_push random ad dek cfg schema force s none =
      sealed_push force ad (hash_config cfg) schema s (seal_blob c random dek cfg (hash_config cfg))

  -- PushConfig
  unfoldable pub push_config : Option Text → Adapter → Text → Text → ℕ → Bool → S → Pushed S
  push_config random ad dek cfg schema force s =
      let (s1, r) = adapter.pull s in
      fenced_push random ad dek cfg schema force s1 (fenced force (hash_config cfg) ad.base_hash r)

  -- the plaintext, with its integrity check
  abbrev pub checked : Adapter → Meta → PullResult → S → Result CryptoError Text → Pulled S
  checked ad meta res s (err e) = record {
    remote = s;
    ad = ad;
    result = res;
    error = some (not_opened e);
  }
  checked ad meta res s (ok plaintext) =
      if not (same (hash_config plaintext) meta.hash)
      then record { remote = s; ad = ad; result = res; error = some hash_mismatch }
      else record {
        remote = s;
        ad = with_base ad meta.hash;
        result = record res { applied = some plaintext; hash = meta.hash };
        error = none;
      }

  -- The switch over the decision, with the remote's state.
  abbrev pub decided : Adapter → Text → Text → Text → Meta → S → MergeDecision → Pulled S
  decided ad dek local blob meta s d =
      let res : PullResult = record { decision = d; applied = none; hash = local } in
      elim d [
        | no_remote ↦ record { remote = s; ad = ad; result = res; error = none }
        | push_needed ↦ record { remote = s; ad = ad; result = res; error = none }
        | noop ↦ record { remote = s; ad = with_base ad local; result = res; error = none }
        | diverged ↦ record {
          remote = s;
          ad = ad;
          result = res;
          error = some (divergence diverged);
        }
        | no_base ↦ record { remote = s; ad = ad; result = res; error = some (divergence no_base) }
        | fast_forward ↦ checked ad meta res s (open_config c dek blob meta.hash)
      ]

  abbrev pub after_pull :
      Adapter → Text → Text → Bool → S → Result PullError (Text × Meta) → Pulled S
  after_pull ad dek local adopt s (err no_remote_state) =
      decided ad dek local [] (record { hash = []; schema_version = 0 }) s
        (adopted adopt (decide local [] ad.base_hash false))
  after_pull ad dek local adopt s (err remote_incomplete) = record {
    remote = s;
    ad = ad;
    result = no_result;
    error = some incomplete_remote;
  }
  after_pull ad dek local adopt s (err pull_failed) = record {
    remote = s;
    ad = ad;
    result = no_result;
    error = some not_pulled;
  }
  after_pull ad dek local adopt s (ok (blob, meta)) =
      decided ad dek local blob meta s (adopted adopt (decide local meta.hash ad.base_hash true))

  -- PullConfig
  unfoldable pub pull_config : Adapter → Text → Text → Bool → S → Pulled S
  pull_config ad dek local_cfg adopt s =
      let (s1, r) = adapter.pull s in after_pull ad dek (hash_config local_cfg) adopt s1 r
