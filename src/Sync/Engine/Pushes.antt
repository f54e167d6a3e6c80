-- ===== src/Sync/Engine/Pushes.antt =====
-- What a push may overwrite, and when the base hash moves.
use jitenv.Base.{
  ℕ, Bool, false, Option, none, some, [], Result, ok, err, ◌≡◌, ◌≢◌, ◌⊎◌, inl, inr, refl, arith,
  Text, same_iff,
}
use jitenv.Crypto.Aead.{Cipher, CryptoError}
use jitenv.Sync.{
  Meta, PullError, no_remote_state, remote_incomplete, pull_failed, PushError, Transport,
}
use jitenv.Sync.Sidecar.{Adapter}
use jitenv.Sync.Engine.{
  SyncError, not_sealed, refused, fence, with_base, after_push, sealed_push, fenced_push,
  push_config, Pushed,
}

-- The remote is empty, or holds the configuration that is pushed, or that of the last sync.
abbrev pub Seen : Text → Text → Result PullError (Text × Meta) → Type 0
Seen local base r =
    (r ≡ err no_remote_state)
    ⊎ ((blob : Text) × (meta : Meta) × (r ≡ ok (blob, meta))
        × ((meta.hash ≡ local) ⊎ ((base ≢ []) × (meta.hash ≡ base))))

fence-Seen :
    (local base : Text) (r : Result PullError (Text × Meta))
    → fence local base r ≡ none
    → Seen local base r
unfolding fence
fence-Seen local base (err no_remote_state) h = inl refl
fence-Seen local base (err remote_incomplete) h = cc
fence-Seen local base (err pull_failed) h = cc
fence-Seen local base (ok (blob, meta)) h =
    inr (blob, meta, refl, ground (arith, same_iff meta.hash local, same_iff meta.hash base))

module _ {S : Type 0} (t : Transport S) (hash_config : Text → Text) (c : Cipher)
    (random : Option Text) (ad : Adapter) (dek cfg : Text) (schema : ℕ) where
  abbrev Refused : S → Pushed S → Type 0
  Refused s p = (p.remote ≡ s) × (p.ad ≡ ad) × ((e : SyncError) × (p.result ≡ err e))

  fenced-Refused :
      (s : S) (r : Result PullError (Text × Meta)) (o : Option SyncError)
      → fence (hash_config cfg) ad.base_hash r ≡ o
      → ¬ Seen (hash_config cfg) ad.base_hash r
      → Refused s (fenced_push t hash_config c random ad dek cfg schema false s o)
  fenced-Refused s r none e h = absurd (h (fence-Seen _ _ r e))
  fenced-Refused s r (some x) e h = (refl, refl, (x, refl))

  -- A push that is not forced does not overwrite a configuration that this machine has not seen: if
  -- the remote holds one that is neither the one pushed nor that of the last sync, or cannot be
  -- read, nothing is pushed, the sidecar's entry stays as it is, and the result is an error.
  pub push_config-unseen :
      (s : S)
      → ¬ Seen (hash_config cfg) ad.base_hash (t.pull s).1
      → ((push_config t hash_config c random ad dek cfg schema false s).remote ≡ (t.pull s).0)
        × ((push_config t hash_config c random ad dek cfg schema false s).ad ≡ ad)
        × ((e : SyncError) × ((push_config t hash_config c random ad dek cfg schema false s).result
              ≡ err e))
  unfolding push_config
  push_config-unseen s h = fenced-Refused (t.pull s).0 (t.pull s).1 _ refl h

  abbrev Settled : Pushed S → Type 0
  Settled p =
      ((p.result ≡ ok (hash_config cfg)) × (p.ad ≡ with_base ad (hash_config cfg)))
      ⊎ (((e : SyncError) × (p.result ≡ err e)) × (p.ad ≡ ad))

  after-Settled :
      (force : Bool) (o : S × Option PushError)
      → Settled (after_push t hash_config c force ad (hash_config cfg) o)
  after-Settled force (s, none) = inl (refl, refl)
  after-Settled force (s, some e) = inr ((refused force e, refl), refl)

  sealed-Settled :
      (force : Bool) (s : S) (b : Result CryptoError Text)
      → Settled (sealed_push t hash_config c force ad (hash_config cfg) schema s b)
  sealed-Settled force s (err e) = inr ((not_sealed e, refl), refl)
  sealed-Settled force s (ok blob) = after-Settled force _

  fenced-Settled :
      (force : Bool) (s : S) (o : Option SyncError)
      → Settled (fenced_push t hash_config c random ad dek cfg schema force s o)
  fenced-Settled force s none = sealed-Settled force s _
  fenced-Settled force s (some e) = inr ((e, refl), refl)

  -- A push, forced or not, ends in one of two ways: it returns the hash of the configuration, which
  -- is then the base hash, or it returns an error and the sidecar's entry stays as it is.
  pub push_config-settled :
      (force : Bool) (s : S)
      → (((push_config t hash_config c random ad dek cfg schema force s).result
            ≡ ok (hash_config cfg))
          × ((push_config t hash_config c random ad dek cfg schema force s).ad
              ≡ with_base ad (hash_config cfg)))
        ⊎ (((e : SyncError) × ((push_config t hash_config c random ad dek cfg schema force s).result
                ≡ err e))
            × ((push_config t hash_config c random ad dek cfg schema force s).ad ≡ ad))
  unfolding push_config
  push_config-settled force s = fenced-Settled force (t.pull s).0 _
