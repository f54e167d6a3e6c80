-- ===== src/Sync/FileAdapter/Lawful.antt =====
-- The file adapter keeps what the engine expects of one.
use jitenv.Base.{
  Bool, true, false, Option, none, some, ok, ◌≡◌, ◌∙◌, refl, sym, ap, inl, inr, Bool-cases, Text,
  codes, same, same_refl, same_of_ne, lookup, insert, lookup-insert,
}
use jitenv.Agent.Protocol.{Codec, CodecLaws}
use jitenv.Sync.{Meta, PushError, push_failed}
use jitenv.Sync.Engine.RoundTrip.{TransportLaws}
use jitenv.Config.Migrating.Untouched.{longer}
use jitenv.Sync.FileAdapter.{
  Files, FileDisk, meta_path, validate_dir, meta_pushed, blob_pushed, push_files, read_file,
  pull_files, file_transport,
}

other : (path : Text) → same (meta_path path) path ≡ false
other path = same_of_ne _ _ (longer path b'.' (codes "meta.json"))

module _ (disk : FileDisk) (codec : Codec Meta) (laws : CodecLaws codec) (path : Text)
    (blob_read : disk.no_read path ≡ false)
    (meta_read : disk.no_read (meta_path path) ≡ false) where
  both_read :
      (blob b : Text) (meta : Meta) (fs : Files)
      → codec.marshal meta ≡ some b
      → (pull_files disk codec path (insert (meta_path path) b (insert path blob fs))).1
        ≡ ok (blob, meta)
  unfolding pull_files read_file
  both_read blob b meta fs e =
      let at_meta : lookup (meta_path path) (insert (meta_path path) b (insert path blob fs))
          ≡ some b =
        lookup-insert (meta_path path) (meta_path path) b (insert path blob fs)
        ∙ rw (same_refl (meta_path path)) in
      let at_path : lookup path (insert (meta_path path) b (insert path blob fs)) ≡ some blob =
        lookup-insert (meta_path path) path b (insert path blob fs)
        ∙ rw (other path) (lookup-insert path path blob fs ∙ rw (same_refl path)) in
      rw (blob_read, meta_read, at_path, at_meta, laws.unmarshal-marshal meta b e)

  after_meta :
      (blob : Text) (meta : Meta) (fs fs' : Files) (o : Option Text)
      → codec.marshal meta ≡ o
      → meta_pushed disk codec path (insert path blob fs) o ≡ (fs', none)
      → (pull_files disk codec path fs').1 ≡ ok (blob, meta)
  after_meta blob meta fs fs' none m e = absurd cc
  after_meta blob meta fs fs' (some b) m e = elim (Bool-cases (disk.no_write (meta_path path))) [
    | inl t ↦
        let no : ◌≡◌ {A = Files × Option PushError} (insert path blob fs, some push_failed)
            (fs', none) =
          rw t at e in
        absurd cc
    | inr t ↦
        let made : insert (meta_path path) b (insert path blob fs) ≡ fs' =
          ap (λ p. p.0) (rw t at e) in
        ap (λ f. (pull_files disk codec path f).1) (sym made) ∙ both_read blob b meta fs m
  ]

  after_blob :
      (blob : Text) (meta : Meta) (v : Files × Bool) (fs' : Files)
      → blob_pushed disk codec path blob meta v ≡ (fs', none)
      → (pull_files disk codec path fs').1 ≡ ok (blob, meta)
  after_blob blob meta (fs, false) fs' e = absurd cc
  after_blob blob meta (fs, true) fs' e = elim (Bool-cases (disk.no_write path)) [
    | inl t ↦
        let no : ◌≡◌ {A = Files × Option PushError} (fs, some push_failed) (fs', none) =
          rw t at e in
        absurd cc
    | inr t ↦ after_meta blob meta fs fs' (codec.marshal meta) refl (rw t at e)
  ]

  -- If encoding/json reads what it wrote and the two files can be read, then what a Push of the file
  -- adapter stored without an error, the next Pull gives: the adapter meets the law that the
  -- engine's theorems take of a transport.
  pub file_transport-TransportLaws : TransportLaws (file_transport disk codec path)
  unfolding push_files
  file_transport-TransportLaws = record {
    pull-push = λ fs blob meta fs' e. after_blob blob meta (validate_dir disk codec path fs) fs' e;
  }
