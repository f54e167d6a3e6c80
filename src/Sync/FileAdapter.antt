-- ===== src/Sync/FileAdapter.antt =====
-- internal/syncadapters/file/file.go: the adapter that keeps the blob and its meta in two files, as a
-- `Transport` on the files by their paths. encoding/json is a `Codec`, and which calls of the system
-- fail is a parameter. A write replaces a file whole or not at all (internal/atomicfile).
pub mod Lawful
mod Tests
use jitenv.Base.{
  Bool, true, false, Option, none, some, [], ◌∷◌, ◌++◌, if◌then◌else◌, Result, ok, err, Text, codes,
  Assoc, lookup, insert,
}
use jitenv.Agent.Protocol.{Codec}
use jitenv.Paths.{dir, join_path}
use jitenv.Config.Retention.{erase}
use jitenv.Sync.{
  Meta, PullError, no_remote_state, remote_incomplete, pull_failed, PushError, push_failed,
  Transport,
}

abbrev pub Files : Type 0
Files = Assoc Text

-- which calls fail for another reason than a missing file
pub record FileDisk : Type 0 where
  pub no_dir : Bool
  pub no_probe : Bool
  pub no_write : Text → Bool
  pub no_read : Text → Bool

-- os.ReadFile, as Pull tells its results apart
pub data Read : Type 0 where
  missing failed : Read
  bytes : Text → Read

abbrev pub meta_path : Text → Text
meta_path path = path ++ codes ".meta.json"

abbrev pub probe : Text → Text
probe path = join_path (dir path) (codes ".jitenv-sync-probe")

module _ (disk : FileDisk) (codec : Codec Meta) (path : Text) where
  -- Validate: the directory is made, and a probe is written and removed again
  unfoldable pub validate_dir : Files → Files × Bool
  validate_dir fs =
      if disk.no_dir
      then (fs, false)
      else if disk.no_probe
      then (fs, false)
      else (erase (probe path) (insert (probe path) [] fs), true)

  abbrev pub meta_pushed : Files → Option Text → Files × Option PushError
  meta_pushed fs none = (fs, some push_failed)
  meta_pushed fs (some b) =
      if disk.no_write (meta_path path)
      then (fs, some push_failed)
      else (insert (meta_path path) b fs, none)

  abbrev pub blob_pushed : Text → Meta → Files × Bool → Files × Option PushError
  blob_pushed blob meta (fs, false) = (fs, some push_failed)
  blob_pushed blob meta (fs, true) =
      if disk.no_write path
      then (fs, some push_failed)
      else meta_pushed (insert path blob fs) (codec.marshal meta)

  -- Push
  unfoldable pub push_files : Files → Text → Meta → Files × Option PushError
  unfolding validate_dir
  push_files fs blob meta = blob_pushed blob meta (validate_dir fs)

  abbrev pub read_of : Option Text → Read
  read_of none = missing
  read_of (some b) = bytes b

  unfoldable pub read_file : Text → Files → Read
  read_file name fs = if disk.no_read name then failed else read_of (lookup name fs)

  abbrev pub parsed_meta : Text → Option Meta → Result PullError (Text × Meta)
  parsed_meta blob none = err pull_failed
  parsed_meta blob (some meta) = ok (blob, meta)

  -- the switch of Pull over the two reads
  abbrev pub of_reads : Read → Read → Result PullError (Text × Meta)
  of_reads missing missing = err no_remote_state
  of_reads missing (bytes m) = err remote_incomplete
  of_reads (bytes b) missing = err remote_incomplete
  of_reads (bytes b) (bytes m) = parsed_meta b (codec.unmarshal m)
  of_reads _ _ = err pull_failed

  -- Pull
  unfoldable pub pull_files : Files → Files × Result PullError (Text × Meta)
  unfolding read_file
  pull_files fs = (fs, of_reads (read_file path fs) (read_file (meta_path path) fs))

  abbrev pub file_transport : Transport Files
  file_transport = record { push = push_files; pull = pull_files }
