-- ===== src/Sync.antt =====
-- internal/syncconfig and pkg/syncadapter: publishing the configuration to a remote and taking it from
-- there. Sync/Merge decides, Sync/Engine pushes and pulls, Sync/Sidecar is the local sync.toml.
pub mod Merge
pub mod Sidecar
pub mod Engine
pub mod FileAdapter
mod Tests
use jitenv.Base.{ℕ, Option, Result, Text}

pub record Meta : Type 0 where
  pub hash : Text
  pub schema_version : ℕ

-- what `Pull` and `Push` of an adapter may fail with, as the engine tells them apart
pub data PullError : Type 0 where
  no_remote_state remote_incomplete pull_failed : PullError

pub data PushError : Type 0 where
  precondition_failed push_failed : PushError

-- syncadapter.Adapter, on a state `S` of the remote and of the transport
pub record Transport (S : Type 0) : Type 0 where
  pub push : S → Text → Meta → S × Option PushError
  pub pull : S → S × Result PullError (Text × Meta)
