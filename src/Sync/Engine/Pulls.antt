-- ===== src/Sync/Engine/Pulls.antt =====
-- What a pull may apply, and when the base hash moves.
use jitenv.Base.{
  Bool, true, false, none, some, [], Result, ok, err, ◌≡◌, ◌≢◌, ◌⊎◌, inl, inr, refl, sym, ap, ◌∙◌,
  arith, Text, same_iff,
}
use jitenv.Crypto.Aead.{Cipher, CryptoError}
use jitenv.Sync.{Meta, PullError, no_remote_state, remote_incomplete, pull_failed, Transport}
use jitenv.Sync.Merge.{
  MergeDecision, noop, fast_forward, push_needed, diverged, no_remote, no_base, decide, decide_iff,
}
use jitenv.Sync.Sidecar.{Adapter, open_config}
use jitenv.Sync.Engine.{
  SyncError, with_base, checked, decided, adopted, after_pull, pull_config, PullResult, Pulled,
}

-- What an applied configuration is, of the remote's answer.
abbrev pub Applies :
    (Text → Text)
    → Cipher
    → Adapter
    → Text
    → Text
    → Bool
    → Result PullError (Text × Meta)
    → Adapter
    → Text
    → Type 0
Applies hash_config c ad dek local adopt r after p =
    (blob : Text) × (meta : Meta) × (r ≡ ok (blob, meta))
    × (open_config c dek blob meta.hash ≡ ok p)
    × (hash_config p ≡ meta.hash)
    × (after ≡ with_base ad meta.hash)
    × (local ≢ meta.hash)
    × (((ad.base_hash ≢ []) × (local ≡ ad.base_hash)) ⊎ ((ad.base_hash ≡ []) × (adopt ≡ true)))

abbrev Forward : Adapter → Text → Bool → Meta → Type 0
Forward ad local adopt meta =
    (local ≢ meta.hash)
    × (((ad.base_hash ≢ []) × (local ≡ ad.base_hash)) ⊎ ((ad.base_hash ≡ []) × (adopt ≡ true)))

forward :
    (ad : Adapter) (local : Text) (adopt : Bool) (meta : Meta) (d : MergeDecision)
    → decide local meta.hash ad.base_hash true ≡ d
    → adopted adopt d ≡ fast_forward
    → Forward ad local adopt meta
forward ad local adopt meta fast_forward e h =
    let x = (decide_iff local meta.hash ad.base_hash true fast_forward).0 e in (x.1, inl (x.2, x.3))
forward ad local true meta no_base e h =
    let x = (decide_iff local meta.hash ad.base_hash true no_base).0 e in (x.1, inr (x.2, refl))
forward ad local false meta no_base e h = absurd cc
forward ad local adopt meta noop e h = absurd cc
forward ad local adopt meta push_needed e h = absurd cc
forward ad local adopt meta diverged e h = absurd cc
forward ad local adopt meta no_remote e h = absurd cc

module _ {S : Type 0} (t : Transport S) (hash_config : Text → Text) (c : Cipher) (ad : Adapter)
    (dek : Text) where
  checked-Applies :
      (local : Text) (adopt : Bool) (blob : Text) (meta : Meta) (s : S) (res : PullResult)
      (p : Text) (o : Result CryptoError Text)
      → open_config c dek blob meta.hash ≡ o
      → Forward ad local adopt meta
      → res.applied ≡ none
      → (checked t hash_config c ad meta res s o).result.applied ≡ some p
      → Applies hash_config c ad dek local adopt
          (ok (blob, meta))
          (checked t hash_config c ad meta res s o).ad
          p
  checked-Applies local adopt blob meta s res p (err x) e f n h = absurd cc
  checked-Applies local adopt blob meta s res p (ok q) e f n h =
      let right : hash_config q ≡ meta.hash = ground (arith, same_iff (hash_config q) meta.hash) in
      let same_text : q ≡ p = ground arith in
      (
        blob,
        meta,
        refl,
        e ∙ ap ok same_text,
        ap hash_config (sym same_text) ∙ right,
        ground arith,
        f.0,
        f.1,
      )

  decided-Applies :
      (local : Text) (adopt : Bool) (blob : Text) (meta : Meta) (s : S) (d : MergeDecision)
      (p : Text)
      → (d ≡ fast_forward → Forward ad local adopt meta)
      → (decided t hash_config c ad dek local blob meta s d).result.applied ≡ some p
      → Applies hash_config c ad dek local adopt
          (ok (blob, meta))
          (decided t hash_config c ad dek local blob meta s d).ad
          p
  decided-Applies local adopt blob meta s fast_forward p f h =
      checked-Applies local adopt blob meta s _ p _ refl (f refl) refl h
  decided-Applies local adopt blob meta s noop p f h = absurd cc
  decided-Applies local adopt blob meta s push_needed p f h = absurd cc
  decided-Applies local adopt blob meta s diverged p f h = absurd cc
  decided-Applies local adopt blob meta s no_remote p f h = absurd cc
  decided-Applies local adopt blob meta s no_base p f h = absurd cc

  pulled-Applies :
      (local : Text) (adopt : Bool) (s : S) (r : Result PullError (Text × Meta)) (p : Text)
      → (after_pull t hash_config c ad dek local adopt s r).result.applied ≡ some p
      → Applies hash_config c ad dek local adopt r
          (after_pull t hash_config c ad dek local adopt s r).ad
          p
  unfolding decide
  pulled-Applies local adopt s (err no_remote_state) p h = absurd cc
  pulled-Applies local adopt s (err remote_incomplete) p h = absurd cc
  pulled-Applies local adopt s (err pull_failed) p h = absurd cc
  pulled-Applies local adopt s (ok (blob, meta)) p h =
      decided-Applies local adopt blob meta s _ p (forward ad local adopt meta _ refl) h

  -- What a pull applies is what the remote holds, opened under the data key with the hash of the
  -- remote's meta, and it has that hash, which is the base hash from then on. It differs from the
  -- local configuration, which is unchanged since the last sync, or was never synced and is given up
  -- by `adopt`.
  pub pull_config-applied :
      (cfg : Text) (adopt : Bool) (s : S) (p : Text)
      → (pull_config t hash_config c ad dek cfg adopt s).result.applied ≡ some p
      → Applies hash_config c ad dek
          (hash_config cfg)
          adopt
          (t.pull s).1
          (pull_config t hash_config c ad dek cfg adopt s).ad
          p
  unfolding pull_config
  pull_config-applied cfg adopt s p h =
      pulled-Applies (hash_config cfg) adopt (t.pull s).0 (t.pull s).1 p h

  -- After an error nothing is applied and the entry is as before.
  abbrev Kept : Pulled S → Type 0
  Kept p = (e : SyncError) → p.error ≡ some e → (p.ad ≡ ad) × (p.result.applied ≡ none)

  checked-Kept :
      (meta : Meta) (res : PullResult) (s : S) (o : Result CryptoError Text)
      → res.applied ≡ none
      → Kept (checked t hash_config c ad meta res s o)
  checked-Kept meta res s (err x) n e h = (refl, n)
  checked-Kept meta res s (ok q) n e h = (ground arith, ground arith)

  decided-Kept :
      (local blob : Text) (meta : Meta) (s : S) (d : MergeDecision)
      → Kept (decided t hash_config c ad dek local blob meta s d)
  decided-Kept local blob meta s fast_forward e h = checked-Kept meta _ s _ refl e h
  decided-Kept local blob meta s noop e h = absurd cc
  decided-Kept local blob meta s push_needed e h = absurd cc
  decided-Kept local blob meta s diverged e h = (refl, refl)
  decided-Kept local blob meta s no_remote e h = absurd cc
  decided-Kept local blob meta s no_base e h = (refl, refl)

  pulled-Kept :
      (local : Text) (adopt : Bool) (s : S) (r : Result PullError (Text × Meta))
      → Kept (after_pull t hash_config c ad dek local adopt s r)
  pulled-Kept local adopt s (err no_remote_state) e h =
      decided-Kept local [] (record { hash = []; schema_version = 0 }) s _ e h
  pulled-Kept local adopt s (err remote_incomplete) e h = (refl, refl)
  pulled-Kept local adopt s (err pull_failed) e h = (refl, refl)
  pulled-Kept local adopt s (ok (blob, meta)) e h = decided-Kept local blob meta s _ e h

  -- A pull that returns an error applies nothing and leaves the sidecar's entry, and so the base
  -- hash, as it was.
  pub pull_config-error :
      (cfg : Text) (adopt : Bool) (s : S) (e : SyncError)
      → (pull_config t hash_config c ad dek cfg adopt s).error ≡ some e
      → ((pull_config t hash_config c ad dek cfg adopt s).ad ≡ ad)
        × ((pull_config t hash_config c ad dek cfg adopt s).result.applied ≡ none)
  unfolding pull_config
  pull_config-error cfg adopt s e h =
      pulled-Kept (hash_config cfg) adopt (t.pull s).0 (t.pull s).1 e h
