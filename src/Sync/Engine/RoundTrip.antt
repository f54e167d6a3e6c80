-- ===== src/Sync/Engine/RoundTrip.antt =====
-- From a push to the pull of another machine, through an adapter that holds what it is given.
use jitenv.Base.{
  ℕ, Bool, true, Option, none, some, [], Result, ok, ◌≡◌, ◌≢◌, ◌⊎◌, inl, inr, refl, ap, ◌∙◌, arith,
  Text, same_refl, length, ◌++◌,
}
use jitenv.Crypto.Aead.{Cipher, CipherLaws, key_len}
use jitenv.Sync.{Meta, PullError, PushError, Transport}
use jitenv.Sync.Merge.{fast_forward, no_base, decide, decide_iff}
use jitenv.Sync.Sidecar.{Adapter, blob_aad}
use jitenv.Sync.Sidecar.Laws.{seal_blob-ok, open-seal_blob, open_config-authentic}
use jitenv.Sync.Engine.Pulls.{pull_config-applied}
use jitenv.Sync.Engine.{
  SyncError, with_base, after_push, fenced_push, push_config, checked, adopted, after_pull,
  pull_config, PullResult, Pulled,
}

-- What the adapter promises: after a successful Push, Pull gives the blob and the meta pushed.
pub record TransportLaws {S : Type 0} (t : Transport S) : Type 0 where
  pub pull-push :
      (s : S) (blob : Text) (meta : Meta) (s' : S)
      → t.push s blob meta ≡ (s', none)
      → (t.pull s').1 ≡ ok (blob, meta)

-- a local configuration that a pull may replace by that of the hash
abbrev pub Behind : Text → Bool → Adapter → Text → Type 0
Behind local adopt ad remote =
    (local ≢ remote)
    × (((ad.base_hash ≢ []) × (local ≡ ad.base_hash)) ⊎ ((ad.base_hash ≡ []) × (adopt ≡ true)))

module _ {S : Type 0} (t : Transport S) (hash_config : Text → Text) (c : Cipher) where
  -- The remote holds the configuration, sealed with its hash.
  abbrev Holds : Text → Text → Text → S → Type 0
  Holds n dek cfg s =
      (schema : ℕ) × ((t.pull s).1
        ≡ ok (
          n ++ c.encrypt dek n (blob_aad (hash_config cfg)) cfg,
          record { hash = hash_config cfg; schema_version = schema },
        ))

  after-Holds :
      (laws : TransportLaws t) (n dek cfg : Text) (ad : Adapter) (schema : ℕ) (force : Bool)
      (h : Text) (s : S) (o : S × Option PushError)
      → t.push s
          (n ++ c.encrypt dek n (blob_aad (hash_config cfg)) cfg)
          (record { hash = hash_config cfg; schema_version = schema })
        ≡ o
      → (after_push t hash_config c force ad (hash_config cfg) o).result ≡ ok h
      → Holds n dek cfg (after_push t hash_config c force ad (hash_config cfg) o).remote
  after-Holds laws n dek cfg ad schema force h s (s', none) e g =
      (schema, laws.pull-push s _ _ s' e)
  after-Holds laws n dek cfg ad schema force h s (s', some x) e g = absurd cc

  fenced-Holds :
      (laws : TransportLaws t) (n dek cfg : Text) (ad : Adapter) (schema : ℕ) (force : Bool)
      (h : Text) (s : S) (o : Option SyncError)
      → length dek ≡ key_len
      → (fenced_push t hash_config c (some n) ad dek cfg schema force s o).result ≡ ok h
      → Holds n dek cfg (fenced_push t hash_config c (some n) ad dek cfg schema force s o).remote
  fenced-Holds laws n dek cfg ad schema force h s (some e) k g = absurd cc
  fenced-Holds laws n dek cfg ad schema force h s none k g =
      let e = seal_blob-ok c n dek cfg (hash_config cfg) k in
      rw e (after-Holds laws n dek cfg ad schema force h s _ refl (rw e at g))

  push-Holds :
      (laws : TransportLaws t) (n dek cfg : Text) (ad : Adapter) (schema : ℕ) (force : Bool)
      (h : Text) (s : S)
      → length dek ≡ key_len
      → (push_config t hash_config c (some n) ad dek cfg schema force s).result ≡ ok h
      → Holds n dek cfg (push_config t hash_config c (some n) ad dek cfg schema force s).remote
  unfolding push_config
  push-Holds laws n dek cfg ad schema force h s k g =
      fenced-Holds laws n dek cfg ad schema force h (t.pull s).0 _ k g

  Behind-forward :
      (local remote : Text) (adopt : Bool) (ad : Adapter)
      → Behind local adopt ad remote
      → adopted adopt (decide local remote ad.base_hash true) ≡ fast_forward
  Behind-forward local remote adopt ad (d, inl (b, e)) =
      rw ((decide_iff local remote ad.base_hash true fast_forward).1 (refl, d, b, e))
  Behind-forward local remote adopt ad (d, inr (b, a)) =
      rw ((decide_iff local remote ad.base_hash true no_base).1 (refl, d, b), a)

  abbrev Took : Adapter → Text → Pulled S → Type 0
  Took ad cfg p =
      (p.error ≡ none) × (p.result.applied ≡ some cfg) × (p.ad ≡ with_base ad (hash_config cfg))

  checked-Took :
      (ad : Adapter) (cfg : Text) (schema : ℕ) (res : PullResult) (s : S)
      → Took ad cfg (
          checked t hash_config c ad
            (record { hash = hash_config cfg; schema_version = schema })
            res
            s
            (ok cfg))
  checked-Took ad cfg schema res s = (
    ground (arith, same_refl (hash_config cfg)),
    ground (arith, same_refl (hash_config cfg)),
    ground (arith, same_refl (hash_config cfg)),
  )

  module _ (laws : CipherLaws c) (n dek cfg : Text) (size : length n ≡ 24)
      (k : length dek ≡ key_len) where
    after-Took :
        (ad : Adapter) (local : Text) (adopt : Bool) (schema : ℕ) (s : S)
        → Behind local adopt ad (hash_config cfg)
        → Took ad cfg (
            after_pull t hash_config c ad dek local adopt s (
              ok (
                n ++ c.encrypt dek n (blob_aad (hash_config cfg)) cfg,
                record { hash = hash_config cfg; schema_version = schema },
              )))
    after-Took ad local adopt schema s b =
        rw
          (
            Behind-forward local (hash_config cfg) adopt ad b,
            open-seal_blob c laws n dek size cfg (hash_config cfg) k,
          )
          (checked-Took ad cfg schema _ s)

    held-Took :
        (ad : Adapter) (local : Text) (adopt : Bool) (s : S) (r : Result PullError (Text × Meta))
        → ((schema : ℕ) × (r
              ≡ ok (
                n ++ c.encrypt dek n (blob_aad (hash_config cfg)) cfg,
                record { hash = hash_config cfg; schema_version = schema },
              )))
        → Behind local adopt ad (hash_config cfg)
        → Took ad cfg (after_pull t hash_config c ad dek local adopt s r)
    held-Took ad local adopt s r (schema, e) b = rw e (after-Took ad local adopt schema s b)

    -- With an adapter whose Pull gives what was pushed, a cipher that meets its laws and a data key
    -- of 32 bytes, a configuration that was pushed, forced or not, is what another machine pulls, if
    -- its own differs and is unchanged since its last sync, or it adopts the remote's without a
    -- sync before: the pull has no error, applies exactly the pushed text, and its hash becomes the
    -- machine's base hash.
    pub pull_config-push_config :
        (held : TransportLaws t) (ad : Adapter) (schema : ℕ) (force : Bool) (s : S) (hash : Text)
        → (push_config t hash_config c (some n) ad dek cfg schema force s).result ≡ ok hash
        → (ad' : Adapter) (local_cfg : Text) (adopt : Bool)
        → Behind (hash_config local_cfg) adopt ad' (hash_config cfg)
        → ((pull_config t hash_config c ad' dek local_cfg adopt
              (push_config t hash_config c (some n) ad dek cfg schema force s).remote).error
            ≡ none)
          × ((pull_config t hash_config c ad' dek local_cfg adopt
                (push_config t hash_config c
                  (some n)
                  ad
                  dek
                  cfg
                  schema
                  force
                  s).remote).result.applied
              ≡ some cfg)
          × ((pull_config t hash_config c ad' dek local_cfg adopt
                (push_config t hash_config c (some n) ad dek cfg schema force s).remote).ad
              ≡ with_base ad' (hash_config cfg))
    unfolding pull_config
    pull_config-push_config held ad schema force s hash e ad' local_cfg adopt b =
        held-Took ad' (hash_config local_cfg) adopt _ _
          (push-Holds held n dek cfg ad schema force hash s k e) b

    -- With a cipher that meets its laws, and whatever the state and the data key of the machine, a
    -- pull applies nothing if the remote serves the blob that was sealed for one configuration with
    -- a meta of another hash.
    pub pull_config-swapped :
        (meta : Meta) (s : S)
        → (t.pull s).1 ≡ ok (n ++ c.encrypt dek n (blob_aad (hash_config cfg)) cfg, meta)
        → meta.hash ≢ hash_config cfg
        → (ad : Adapter) (dek' local_cfg p : Text) (adopt : Bool)
        → (pull_config t hash_config c ad dek' local_cfg adopt s).result.applied ≢ some p
    pull_config-swapped meta s served wrong ad dek' local_cfg p adopt h =
        let (blob, m, e, opens, _, _, _, _) =
          pull_config-applied t hash_config c ad dek' local_cfg adopt s p h in
        let same_blob : n ++ c.encrypt dek n (blob_aad (hash_config cfg)) cfg ≡ blob = cc in
        let same_meta : meta ≡ m = cc in
        wrong (
          ap (λ (x : Meta). x.hash) same_meta
          ∙ (open_config-authentic c laws n dek size cfg (hash_config cfg) dek' m.hash p
              (rw same_blob opens)).1)
