-- ===== src/Sync/FileAdapter/Tests.antt =====
-- The law of the file adapter, at a disk without failures.
use jitenv.Base.{false, none, some, [], ◌∷◌, ◌≡◌, refl, codes, arith}
use jitenv.Agent.Protocol.{Codec, CodecLaws}
use jitenv.Sync.{Meta}
use jitenv.Sync.Engine.RoundTrip.{TransportLaws}
use jitenv.Sync.FileAdapter.{FileDisk, file_transport}
use jitenv.Sync.FileAdapter.Lawful.{file_transport-TransportLaws}

abbrev disk : FileDisk
disk = record {
  no_dir = false;
  no_probe = false;
  no_write = λ name. false;
  no_read = λ name. false;
}

-- the schema version and the hash
abbrev metas : Codec Meta
metas = record {
  marshal = λ m. some (m.schema_version ∷ m.hash);
  unmarshal = λ b. elim b [ [] ↦ none | v ∷ h ↦ some (record { hash = h; schema_version = v }) ];
}

metas_laws : CodecLaws metas
metas_laws = record {
  unmarshal-marshal = λ m b e. let one : m.schema_version ∷ m.hash ≡ b = cc in rw (← one) refl;
  nonempty = λ m b e. let one : m.schema_version ∷ m.hash ≡ b = cc in rw (← one) (omega arith);
}

file_transport-TransportLaws_example : TransportLaws (file_transport disk metas (codes "/b"))
file_transport-TransportLaws_example =
    file_transport-TransportLaws disk metas metas_laws (codes "/b") refl refl
