-- ===== src/Lib.antt =====
-- jitenv: a verification library of the core of the program.
--
-- jitenv injects secrets into the environment of the programs that a configuration maps. An agent
-- holds the decrypted configuration and answers which variables a path, or a command in a directory,
-- gets. A wrapper named as the command asks the agent and starts the command with its variables; the
-- hook of a shell keeps the wrappers of its directory. The configuration is TOML whose secret fields
-- are envelopes. It can be published to a remote as one sealed blob and pulled on another machine.
-- Secrets are imported from .env texts.
--
-- The parts modelled, by file of the library and path from the repository's root:
--   Dotenv            internal/dotenv/dotenv.go: `parse` is Parse, `parse_entry` the body of its loop,
--                     `strip_export`, `unquote_value` and `is_valid_env_key` its helpers.
--   Config            internal/config/config.go: Config, Mapping, VarRef and SourceConfig.
--   Config/Validate   internal/config/config.go: Validate, ValidateStructure and ValidatePost.
--   Config/Index      internal/config/mapping.go: NewIndex, Lookup, Mapped, LookupCwd, CwdCommands,
--                     MappedCwd, matchAncestor and Anchors, by their names in small letters;
--                     `lookup_path` is Lookup.
--   Config/Ids        internal/config/nameid.go: newID, isID, nameToID, HasOpaqueIDShape.
--   Config/Assigning  internal/config/encrypt.go: the loops of EncryptInPlace that give identifiers to
--                     the names of sources, of bags and of the keys in each bag.
--   Config/Renaming   internal/config/encrypt.go: translateVarNamesToIDs (`names_to_ids`) and
--                     nameMapEqual; internal/config/decrypt.go: translateIDsToNames, for variables
--                     (`ids_to_names`), sources and bags, and whole (`translate_ids_to_names`).
--   Config/Rekeyed    internal/config/encrypt.go and decrypt.go: the loops that build a map under new keys.
--   Config/Encrypting  internal/config/encrypt.go, decrypt.go and nameid.go: EncryptInPlace and
--                     DecryptInPlace, sealNameMap and openNameMap.
--   Config/Retention  internal/config/migrate.go: migrationBackupRetention and
--                     sweepMigrationBackupIfExpired.
--   Config/Migrating  internal/config/migrate.go: MigrateToOpaqueIDs and MigrateToOpaqueIDsLocked, with
--                     writeVerbatimBackup, Load of config.go and atomicSave of edit.go.
--   Config/Warnings   internal/config/warnings.go: Warnings, less its texts.
--   Config/Sealing    internal/config/encrypt.go, decrypt.go and edit.go: the loops of EncryptInPlace
--                     and DecryptInPlace over values, and the associated data of their slots.
--   Crypto/Aead       internal/crypto/aead.go: Seal and Open (`open_blob`).
--   Crypto/Envelope   internal/crypto/envelope.go: IsEnvelope, AAD, EncryptField, DecryptField and
--                     DecryptStringsInPlace (`decrypt_strings`).
--   Sync/Merge        internal/syncconfig/merge.go: Decide.
--   Sync/Sidecar      internal/syncconfig/syncconfig.go: the sidecar's data key, blobs and base hashes.
--   Sync/Engine       internal/syncconfig/engine.go: PushConfig and PullConfig.
--   Sync/FileAdapter  internal/syncadapters/file/file.go: Push, Pull and Validate of the file adapter.
--   Agent/Source      internal/sources/local/local.go and pkg/source/source.go: SetBags, Fetch, Wipe.
--   Agent/Resolver    internal/agent/resolver.go: BuildResolver, FetchEnv, FetchEnvCwd, IsMapped,
--                     CwdCommands (`wrapped_commands`), fetchVars and pickValue, by their names
--                     in small letters.
--   Agent/Protocol    internal/agent/protocol.go: WriteMessage and ReadMessage.
--   Agent/Server      internal/agent/server.go: dispatch and handle; internal/agent/client.go: call.
--   Agent/Server/Lifetime  internal/agent/server.go: Serve, the reload and Shutdown as steps.
--   Launch/Environment  internal/shim/shim.go and internal/run/run.go: the environment and its markers.
--   Launch/WrapDir    internal/shim/shim.go: isWrapDirShape, findWrapDirInPath, lookPathExcluding.
--   Launch/Warning    internal/agentwarn/agentwarn.go: WarnAndWait and linePromptFallback.
--   Launch/Shim       internal/shim/shim.go: run. Launch/Run: internal/run/run.go: Run (`run_file`).
--   Launch/Wrappers   internal/chpwd/chpwd.go and reconcile_unix.go: reconcile.
--   Launch/Prompt     internal/chpwd/chpwd.go: Run (`run_prompt`), desiredCommandsFor, writeAnchors.
--   Git               internal/gitauth/url.go: deriveBagName and sanitizeBagName.
-- Base holds what these share. Paths and Crypto/Base64 model what the source uses of the Go library:
-- path.Clean, Dir, Join, filepath.Abs, Base and SplitList, and base64.StdEncoding; Base/Atoi strconv.Atoi.
--
-- How the parts meet: a migration opens a configuration under its names with DecryptInPlace, seals it
-- under identifiers with EncryptInPlace and replaces the file; the file adapter is a `Transport` of
-- the engine; the resolver asks the index, built of the mappings that Validate accepts, for
-- the variables, and the sources for their values; the server answers requests from its resolver, and
-- a client's call is the server's `handle` at the other end of a connection; the wrapper meets what
-- such a call gives as a function of its World, and leaves its marks in the environment of the next;
-- the prompt reconciles the wrappers with the commands of the index; the sync engine
-- seals the bytes of the configuration with Crypto/Aead under the data key, which the sidecar holds
-- in an envelope of Crypto/Envelope under the master key.
--
-- The model. A Go string is a list of numbers: code points of a valid UTF-8 string, or bytes in
-- Crypto. A Go map is an association list, whose order is the order of a range over it. Of an error
-- the model keeps which one it is and where, not its message. A pointer that a function changes is
-- an argument and a part of the result; what rand.Read gives is an argument, `none` for its error.
-- The build is one for Unix, where ToSlash does nothing.
--
-- Parameters: `Host` holds the home and the working directory and doublestar.Match; `Cipher` is
-- XChaCha20-Poly1305, whose documented properties are `CipherLaws`; `Transport` is an adapter, of
-- which `TransportLaws` says that Pull gives what was pushed; the SHA-256 of HashConfig is a
-- function; `Codec` is encoding/json at a type, of which `CodecLaws` says that Unmarshal reads what
-- Marshal wrote, and `WireLaws` the same of requests and responses of valid UTF-8, with the variables
-- of a response in any order, since Marshal writes the keys of a map sorted; `Process`, `World`, `Setting`, `Prompt` and `Disk` hold what the process, the files and
-- the agent give to one call. `NameCodecLaws` says of encoding/json at a dictionary that the same names are read back, in any
-- order. `System` holds TOML, filepath.Glob, the clock and the failures of one migration, of which
-- `SystemLaws` says that TOML reads what it wrote, the entries of each map in any order
-- (Config/Migrating/Same), and that no backup has the path of the configuration; `Beyond` is what the
-- calls of package os do for a command whose name is no entry of the directory of the wrappers, as `.`;
-- `FileDisk` holds the failures that the file adapter meets. `Build` is the registry of sources, with SetBags. `LiteralLaws` states of doublestar.Match that a literal character of a pattern matches
-- itself only. Crypto/Framed has a cipher that meets `CipherLaws`.
--
-- Bounds: matchAncestor's loop runs on fuel, its path's length and two more, which is enough, since
-- filepath.Dir shortens every path but "/" and ".", which it keeps. newID makes 64 attempts, as the
-- source does; a message has a mebibyte at most; 64 connections are served at a time. All other
-- loops recurse on their input.
--
-- Steps: a connection is a handler that runs, holds a new resolver during a reload, or is about to wipe
-- the outgoing one. Each access to the resolver under the lock is one step, and a run is any sequence
-- of steps. The environment that a program was started with is a list with repeated names, of which a
-- Go program sees the first entry of each.
--
-- Not modelled: the edits of a configuration, the idle loop and the failure of SetDeadline in the
-- server, the shell hooks, the network adapters and sources; the terminal interface, the command
-- line, the Windows build and whatever is input and output only; AgentConfig and the KDF fields of Meta.
pub mod Base
pub mod Dotenv
pub mod Paths
pub mod Crypto
pub mod Config
pub mod Sync
pub mod Agent
pub mod Launch
pub mod Git
