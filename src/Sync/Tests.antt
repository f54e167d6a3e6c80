-- ===== src/Sync/Tests.antt =====
-- A remote in memory, runs of the engine on it, and the theorems at concrete inputs.
use jitenv.Base.{
  true, false, Option, none, some, [], ◌∷◌, ◌++◌, Result, ok, err, ◌≡◌, ◌≢◌, inl, inr, refl, sym,
  ap, arith, Text, codes, same,
}
use jitenv.Crypto.Values.{end}
use jitenv.Crypto.Framed.{frame, open_frames, framed, framed_laws}
use jitenv.Crypto.Aead.{seal, open_blob}
use jitenv.Sync.{Meta, PullError, no_remote_state, Transport}
use jitenv.Sync.Merge.{diverged, no_base, decide}
use jitenv.Sync.Sidecar.{
  Adapter, File, wrap_dek, unwrap_dek, incorrect_passphrase, seal_blob, open_config, find_adapter,
  blob_aad,
}
use jitenv.Sync.Sidecar.Laws.{unwrap_dek-wrap_dek}
use jitenv.Sync.Engine.{
  SyncError, remote_without_base, divergence, fence, with_base, push_config, pull_config,
}
use jitenv.Sync.Engine.Pushes.{Seen, push_config-unseen}
use jitenv.Sync.Engine.Pulls.{Applies, pull_config-applied, pull_config-error}
use jitenv.Sync.Engine.RoundTrip.{TransportLaws, pull_config-push_config, pull_config-swapped}

-- the one blob that the remote may hold
abbrev held : Option (Text × Meta) → Result PullError (Text × Meta)
held none = err no_remote_state
held (some p) = ok p

abbrev memory : Transport (Option (Text × Meta))
memory = record { push = λ s b m. (some (b, m), none); pull = λ s. (s, held s) }

memory_laws : TransportLaws memory
memory_laws = record { pull-push = λ s b m s' e. ap held (ap (λ x. x.0) (sym e)) }

abbrev hash : Text → Text
hash s = 1 ∷ s

abbrev key : Text
key =
    1 ∷ 2 ∷ 1 ∷ 1 ∷ 1 ∷ 1 ∷ 1 ∷ 1 ∷ 1 ∷ 1 ∷ 1 ∷ 1 ∷ 1 ∷ 1 ∷ 1 ∷ 1 ∷ 1 ∷ 1 ∷ 1 ∷ 1 ∷ 1 ∷ 1 ∷ 1 ∷ 1
    ∷ 1 ∷ 1 ∷ 1 ∷ 1 ∷ 1 ∷ 1 ∷ 1 ∷ 1 ∷ []

abbrev nonce : Text
nonce =
    7 ∷ 7 ∷ 7 ∷ 7 ∷ 7 ∷ 7 ∷ 7 ∷ 7 ∷ 7 ∷ 7 ∷ 7 ∷ 7 ∷ 7 ∷ 7 ∷ 7 ∷ 7 ∷ 7 ∷ 7 ∷ 7 ∷ 7 ∷ 7 ∷ 7 ∷ 7 ∷ 7
    ∷ []

abbrev ad : Text → Adapter
ad base = record { name = codes "r"; type = codes "file"; params = end; base_hash = base }

abbrev cfg : Text
cfg = 3 ∷ []

abbrev other_cfg : Text
other_cfg = 4 ∷ []

abbrev sealed : Text
sealed = nonce ++ framed.encrypt key nonce (codes "sync.blob:" ++ hash cfg) cfg

abbrev meta : Text → Meta
meta h = record { hash = h; schema_version = 1 }

abbrev remote : Option (Text × Meta)
remote = some (sealed, meta (hash cfg))

engine_runs :
    ((push_config memory hash framed (some nonce) (ad []) key cfg 1 false none).remote ≡ remote)
    × ((push_config memory hash framed (some nonce) (ad []) key cfg 1 false none).result
        ≡ ok (hash cfg))
    × ((push_config memory hash framed (some nonce) (ad []) key other_cfg 1 false remote).result
        ≡ err remote_without_base)
    × ((pull_config memory hash framed (ad []) key other_cfg false remote).error
        ≡ some (divergence no_base))
    × ((pull_config memory hash framed (ad []) key other_cfg true remote).result.applied ≡ some cfg)
    × ((pull_config memory hash framed (ad (codes "?")) key other_cfg true remote).error
        ≡ some (divergence diverged))
unfolding push_config pull_config fence decide same seal_blob seal blob_aad open_config open_blob
    frame open_frames
engine_runs = (refl, refl, refl, refl, refl, refl)

unseen : Seen (hash other_cfg) [] (held remote) → ⊥
unseen (inl e) = cc
unseen (inr (blob, m, e, inl h)) =
    let x : meta (hash cfg) ≡ m = cc in absurd (cc (h, ap (λ (y : Meta). y.hash) x))
unseen (inr (blob, m, e, inr (n, h))) = n refl

push_config-unseen_example :
    ((push_config memory hash framed (some nonce) (ad []) key other_cfg 1 false remote).remote
      ≡ remote)
    × ((push_config memory hash framed (some nonce) (ad []) key other_cfg 1 false remote).ad
        ≡ ad [])
    × ((e : SyncError) × ((push_config memory hash framed
            (some nonce)
            (ad [])
            key
            other_cfg
            1
            false
            remote).result
          ≡ err e))
push_config-unseen_example =
    push_config-unseen memory hash framed (some nonce) (ad []) key other_cfg 1 remote unseen

pull_config-applied_example :
    Applies hash framed
      (ad [])
      key
      (hash other_cfg)
      true
      (held remote)
      (pull_config memory hash framed (ad []) key other_cfg true remote).ad
      cfg
pull_config-applied_example =
    pull_config-applied memory hash framed (ad []) key other_cfg true remote cfg engine_runs.4

pull_config-error_example :
    ((pull_config memory hash framed (ad (codes "?")) key other_cfg true remote).ad
      ≡ ad (codes "?"))
    × ((pull_config memory hash framed (ad (codes "?")) key other_cfg true remote).result.applied
        ≡ none)
pull_config-error_example =
    pull_config-error memory hash framed (ad (codes "?")) key other_cfg true remote
      (divergence diverged) engine_runs.5

pull_config-push_config_example :
    ((pull_config memory hash framed
        (ad [])
        key
        other_cfg
        true
        (push_config memory hash framed (some nonce) (ad []) key cfg 1 false none).remote).error
      ≡ none)
    × ((pull_config memory hash framed
          (ad [])
          key
          other_cfg
          true
          (push_config memory hash framed
            (some nonce)
            (ad [])
            key
            cfg
            1
            false
            none).remote).result.applied
        ≡ some cfg)
    × ((pull_config memory hash framed
          (ad [])
          key
          other_cfg
          true
          (push_config memory hash framed (some nonce) (ad []) key cfg 1 false none).remote).ad
        ≡ with_base (ad []) (hash cfg))
pull_config-push_config_example =
    pull_config-push_config memory hash framed framed_laws nonce key cfg refl refl memory_laws
      (ad []) 1 false none (hash cfg) engine_runs.1 (ad []) other_cfg true
      ((λ e. cc), inr (refl, refl))

sealed_served :
    held (some (sealed, meta (hash other_cfg)))
    ≡ ok (nonce ++ framed.encrypt key nonce (blob_aad (hash cfg)) cfg, meta (hash other_cfg))
unfolding blob_aad
sealed_served = refl

pull_config-swapped_example :
    (pull_config memory hash framed
      (ad [])
      key
      (codes "e")
      true
      (some (sealed, meta (hash other_cfg)))).result.applied
    ≢ some cfg
pull_config-swapped_example =
    pull_config-swapped memory hash framed framed_laws nonce key cfg refl refl
      (meta (hash other_cfg)) (some (sealed, meta (hash other_cfg))) sealed_served (λ e. cc) (ad [])
      key (codes "e") cfg true

abbrev file : File
file = record {
  version = 1;
  salt = [];
  argon_time = 2;
  argon_memory_kib = 19456;
  argon_threads = 1;
  wrapped_dek = [];
  adapters = ad [] ∷ [];
}

unwrap_dek-wrap_dek_example :
    (g : File) × (wrap_dek framed (some nonce) key cfg file ≡ ok g)
    × (unwrap_dek framed key g ≡ ok cfg)
    × ((other : Text) → other ≢ key → unwrap_dek framed other g ≡ err incorrect_passphrase)
unwrap_dek-wrap_dek_example =
    unwrap_dek-wrap_dek framed framed_laws nonce key cfg (refl, omega arith) refl file

found : find_adapter (codes "r") file.adapters ≡ some (ad [])
unfolding find_adapter same
found = refl
